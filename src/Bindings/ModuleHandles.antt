-- ===== src/Bindings/ModuleHandles.antt =====
-- What the calls on modules do with the handles that they are given.
use libhat.Prelude.{
  ℕ, ◌==◌, ==_iff, Bool, true, false, ◌≡◌, ◌≢◌, refl, sym, subst, ap, ◌∙◌, List, none, some,
  Bool-cases, inl, inr, fun_ext, arith,
}
use mathlib.Core.Option.{some_inj}
use libhat.Signature.Element.{Signature}
use libhat.Modules.Spans.{Section}
use libhat.Bindings.Objects.{
  Heap, Call, FfiObject, signature_object, module_object, set_at, check_type, type_of,
  module_type_id, libhat_free,
}
use libhat.Bindings.Calls.{Status}
use libhat.Bindings.IsHeap.{IsObject, IsHeap, IsFresh, set_at_self}
use libhat.Bindings.Freed.{IsFreed, libhat_free-IsFreed}
use libhat.Bindings.ModuleCalls.{
  Modules, Answer, refuse, succeed, from_run, if_checked, on_module, module_call,
  libhat_module_address, libhat_module_get_symbol, libhat_module_get_data,
  libhat_module_get_executable_data, libhat_module_get_section_data, libhat_module_for_each_section,
  libhat_module_for_each_segment, new_module, libhat_get_module,
}

module _ {ℓ} {A : Type ℓ} (heap : Heap) (p : ℕ) (not_null : (p == 0) ≡ false)
    (call : ℕ → Answer A) where
  checked :
      (o : FfiObject)
      → heap p ≡ some o
      → module_call heap p true call
        ≡ if_checked heap (type_of (some o) module_type_id) (on_module (some o) call)
  unfolding check_type
  checked o live =
      rw not_null (ap (λ x. if_checked heap (type_of x module_type_id) (on_module x call)) live)

  module_call-signature :
      (sig : Signature)
      → heap p ≡ some (signature_object sig)
      → module_call heap p true call ≡ refuse heap Status.err_invalid_argument_type
  module_call-signature sig live = checked (signature_object sig) live

  module_call-module :
      (base : ℕ) → heap p ≡ some (module_object base) → module_call heap p true call ≡ call base
  module_call-module base live = checked (module_object base) live

-- A handle that does not wrap a module is refused by every call, and nothing is written.
pub record IsRefused {ℓ} (S : Type ℓ) (ms : Modules) (heap : Heap) (p : ℕ) (status : Status)
    : Type ℓ where
  pub address : libhat_module_address ms heap p true ≡ refuse heap status
  pub symbol :
      (name : List ℕ) → libhat_module_get_symbol ms heap p (some name) true ≡ refuse heap status
  pub module_data : libhat_module_get_data ms heap p true ≡ refuse heap status
  pub executable_data : libhat_module_get_executable_data ms heap p true ≡ refuse heap status
  pub section_data :
      (name : List ℕ)
      → libhat_module_get_section_data ms heap p (some name) true ≡ refuse heap status
  pub sections :
      (callback : S → List ℕ × Section → S × Bool) (s : S)
      → libhat_module_for_each_section ms heap p true callback s ≡ refuse heap status
  pub segments :
      (callback : S → Section → S × Bool) (s : S)
      → libhat_module_for_each_segment ms heap p true callback s ≡ refuse heap status

module _ {ℓ} (S : Type ℓ) (ms : Modules) (heap : Heap) (p : ℕ) where
  -- A live signature that is passed where a module is wanted is refused as an argument of the
  -- wrong type by all seven calls on a module, with the output argument and the heap left alone.
  pub signature-IsRefused :
      (sig : Signature)
      → (p == 0) ≡ false
      → heap p ≡ some (signature_object sig)
      → IsRefused S ms heap p Status.err_invalid_argument_type
  unfolding libhat_module_address libhat_module_get_symbol libhat_module_get_data
      libhat_module_get_executable_data libhat_module_get_section_data
      libhat_module_for_each_section libhat_module_for_each_segment
  signature-IsRefused sig not_null live = record {
    address = module_call-signature heap p not_null _ sig live;
    symbol = λ name. module_call-signature heap p not_null _ sig live;
    module_data = module_call-signature heap p not_null _ sig live;
    executable_data = module_call-signature heap p not_null _ sig live;
    section_data = λ name. module_call-signature heap p not_null _ sig live;
    sections = λ callback s. module_call-signature heap p not_null _ sig live;
    segments = λ callback s. module_call-signature heap p not_null _ sig live;
  }

  null-IsRefused : p ≡ 0 → IsRefused S ms heap p Status.err_invalid_argument_value
  unfolding libhat_module_address libhat_module_get_symbol libhat_module_get_data
      libhat_module_get_executable_data libhat_module_get_section_data
      libhat_module_for_each_section libhat_module_for_each_segment
  null-IsRefused null =
      let test : (p == 0) ≡ true = (==_iff p 0).1 null in
      record {
        address = rw test refl;
        symbol = λ name. rw test refl;
        module_data = rw test refl;
        executable_data = rw test refl;
        section_data = λ name. rw test refl;
        sections = λ callback s. rw test refl;
        segments = λ callback s. rw test refl;
      }

-- The life of a handle: it wraps the module that was found, and `libhat_free` gives back the heap.
pub record IsHandle (ms : Modules) (heap heap' : Heap) (p base : ℕ) : Type 0 where
  pub well_formed : IsHeap heap'
  pub address : libhat_module_address ms heap' p true ≡ succeed heap' base
  pub module_data :
      libhat_module_get_data ms heap' p true ≡ succeed heap' (Modules.get_module_data ms base)
  pub section_data :
      (name : List ℕ)
      → libhat_module_get_section_data ms heap' p (some name) true
        ≡ from_run heap' (Modules.get_section_data ms base name)
  pub freed : libhat_free heap' p ≡ Call.returned heap tt

module _ (ms : Modules) (allocate : Heap → ℕ) (heap : Heap) (fresh : IsFresh heap (allocate heap))
    (inv : IsHeap heap) where
  abbrev with_module : ℕ → Heap
  with_module base = set_at heap (allocate heap) (some (module_object base))

  with_module-IsHeap : (base : ℕ) → IsHeap (with_module base)
  with_module-IsHeap base = record { null_free = null; objects = objects }
    where
      null : with_module base 0 ≡ none
      null = elim (Bool-cases (0 == allocate heap)) [
        | inl e ↦ absurd (fresh.0 (sym ((==_iff 0 (allocate heap)).0 e)))
        | inr e ↦ rw e inv.null_free
      ]

      objects : (p : ℕ) (o : FfiObject) → with_module base p ≡ some o → IsObject o
      objects p o h = elim (Bool-cases (p == allocate heap)) [
        | inl e ↦
            let same : module_object base ≡ o = some_inj.0 (rw e at h) in
            subst IsObject same (record { magic_eq = refl; payload_ok = refl })
        | inr e ↦ inv.objects p o (rw e at h)
      ]

  -- Removing the new object gives back the heap.
  removed : (base : ℕ) → set_at (with_module base) (allocate heap) none ≡ heap
  removed base = fun_ext (λ q. elim (Bool-cases (q == allocate heap)) [
    | inl e ↦ rw e (sym (ap heap ((==_iff q (allocate heap)).0 e) ∙ fresh.1))
    | inr e ↦ rw e refl
  ])

  -- In a well-formed heap with a fresh address from `new`, when a module with the name is found,
  -- `libhat_get_module` gives a handle in a well-formed heap; the calls on it answer for the
  -- address, the data and the sections of that module, and `libhat_free` of it gives back the heap
  -- of before.
  pub libhat_get_module-IsHandle :
      (name : List ℕ) (base : ℕ)
      → Modules.get_module ms name ≡ some base
      → (heap' : Heap) × (p : ℕ) × (libhat_get_module ms allocate heap (some name)
          ≡ Call.returned heap' p)
        × IsHandle ms heap heap' p base
  unfolding libhat_get_module libhat_module_address libhat_module_get_data
      libhat_module_get_section_data
  libhat_get_module-IsHandle name base found =
      let heap' = with_module base in
      let p = allocate heap in
      let live : heap' p ≡ some (module_object base) =
        set_at_self heap p (some (module_object base)) in
      let not_null : (p == 0) ≡ false = apart p fresh.0 in
      let good = with_module-IsHeap base in
      (
        heap',
        p,
        ap (new_module allocate heap) found,
        record {
          well_formed = good;
          address = module_call-module heap' p not_null _ base live;
          module_data = module_call-module heap' p not_null _ base live;
          section_data = λ name. module_call-module heap' p not_null _ base live;
          freed =
              IsFreed.freed (libhat_free-IsFreed heap' p (module_object base) good live)
              ∙ ap (λ h. Call.returned h tt) (removed base);
        },
      )
    where
      apart : (p : ℕ) → p ≢ 0 → (p == 0) ≡ false
      apart p h = ground arith
