-- ===== src/Modules/Found.antt =====
-- When `get_module` and `module_at` find a module, and when `get_process_module` aborts.
use libhat.Prelude.{
  ℕ, ◌==◌, Bool, true, false, not, ◌&&◌, ◌≡◌, ◌≢◌, refl, subst, if_both, ◌↔◌, List, [], ◌∷◌, Option,
  none, some, All, ◌⊎◌, inl, inr, Bool-cases, ==_iff, arith,
}
use libhat.Modules.Linux.{PhdrInfo, Loader, ModuleImplementation, construct_module}
use libhat.Modules.Find.{file_name, has_handle, object_with_handle, get_module, get_process_module}

module _ (sys : Loader) where
  -- An object that is passed over: it lies at address 0, or `dlopen` of its name gives another handle.
  abbrev pub IsPassedOver : ℕ → PhdrInfo → Type 0
  IsPassedOver handle info = (info.dlpi_addr ≡ 0) ⊎ (Loader.dlopen sys info.dlpi_name ≢ handle)

  -- A module that has the handle, does not lie at address 0, and has read no sections yet; or no object with
  -- the handle.
  abbrev pub IsFound : ℕ → List PhdrInfo → Option ModuleImplementation → Type 0
  IsFound handle objects none = All (IsPassedOver handle) objects
  IsFound handle objects (some m) =
      (m.handle ≡ handle) × (m.base_address ≢ 0) × (m.name_to_section ≡ none)

  object_with_handle-IsFound :
      (handle : ℕ) (objects : List PhdrInfo)
      → IsFound handle objects (object_with_handle sys handle objects)
  unfolding object_with_handle construct_module
  object_with_handle-IsFound handle [] = tt
  object_with_handle-IsFound handle (info ∷ objects) =
      elim (Bool-cases (has_handle sys handle info)) [
        | inl found ↦ rw found (
          (==_iff _ handle).0 (and_right _ _ found),
          λ null. at_zero (info.dlpi_addr) _ null found,
          refl,
        )
        | inr other ↦ rw other (
            behind other (object_with_handle sys handle objects)
              (object_with_handle-IsFound handle objects))
      ]
    where
      and_right : (a b : Bool) → (a && b) ≡ true → b ≡ true
      and_right true b h = h
      and_right false b h = absurd (cc h)

      at_zero : (a : ℕ) (b : Bool) → a ≡ 0 → (not (a == 0) && b) ≡ true → ⊥
      at_zero a b e h = ground arith

      passed : (a b addr : ℕ) → (not (addr == 0) && a == b) ≡ false → (addr ≡ 0) ⊎ (a ≢ b)
      passed a b addr h = ground arith

      behind :
          has_handle sys handle info ≡ false
          → (o : Option ModuleImplementation) → IsFound handle objects o
          → IsFound handle (info ∷ objects) o
      behind other none all = (passed _ handle info.dlpi_addr other, all)
      behind other (some m) found = found

  get_module-IsFound :
      (name : List ℕ)
      → IsFound (Loader.dlopen sys (file_name name)) (Loader.objects sys) (get_module sys name)
        ⊎ ((Loader.dlopen sys (file_name name) ≡ 0) × (get_module sys name ≡ none))
  unfolding get_module
  get_module-IsFound name =
      let handle = Loader.dlopen sys (file_name name) in
      elim (Bool-cases (handle == 0)) [
        | inl null ↦ rw null (inr ((==_iff handle 0).0 null, refl))
        | inr there ↦ rw there (inl (object_with_handle-IsFound handle (Loader.objects sys)))
      ]

  passed_over-object_with_handle :
      (handle : ℕ) (objects : List PhdrInfo)
      → All (IsPassedOver handle) objects
      → object_with_handle sys handle objects ≡ none
  unfolding object_with_handle
  passed_over-object_with_handle handle [] all = refl
  passed_over-object_with_handle handle (info ∷ objects) all =
      let other : has_handle sys handle info ≡ false =
        passed info.dlpi_addr (Loader.dlopen sys info.dlpi_name) all.0 in
      rw other (passed_over-object_with_handle handle objects all.1)
    where
      passed : (addr h : ℕ) → (addr ≡ 0) ⊎ (h ≢ handle) → (not (addr == 0) && h == handle) ≡ false
      passed addr h (inl e) = ground arith
      passed addr h (inr n) = ground arith

  -- On Linux `get_process_module` aborts exactly when `dlopen` gives no handle for the program, or
  -- when every object lies at address 0 or has another handle; so it aborts in a program whose own
  -- object is reported at address 0.
  pub get_process_module-none : (get_process_module sys ≡ none) ↔ (
      (Loader.dlopen sys none ≡ 0)
      ⊎ All (IsPassedOver (Loader.dlopen sys none)) (Loader.objects sys))
  unfolding get_process_module
  get_process_module-none = (λ h. forward (get_module-IsFound []) h, backward)
    where
      forward :
          IsFound (Loader.dlopen sys none) (Loader.objects sys) (get_module sys [])
            ⊎ ((Loader.dlopen sys none ≡ 0) × (get_module sys [] ≡ none))
          → get_module sys [] ≡ none
          → (Loader.dlopen sys none ≡ 0)
            ⊎ All (IsPassedOver (Loader.dlopen sys none)) (Loader.objects sys)
      forward (inl found) h =
          inr (subst (IsFound (Loader.dlopen sys none) (Loader.objects sys)) h found)
      forward (inr (null, e)) h = inl null

      backward :
          (Loader.dlopen sys none ≡ 0)
            ⊎ All (IsPassedOver (Loader.dlopen sys none)) (Loader.objects sys)
          → get_module sys [] ≡ none
      backward (inl null) =
          let test : (Loader.dlopen sys none == 0) ≡ true = (==_iff _ 0).1 null in
          unfold get_module in rw test refl
      backward (inr all) =
          unfold get_module in
          if_both (λ o. o ≡ none) (Loader.dlopen sys none == 0) refl
            (passed_over-object_with_handle (Loader.dlopen sys none) (Loader.objects sys) all)
