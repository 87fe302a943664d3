-- ===== src/Modules/MachOFind.antt =====
-- src/os/mac/Process.cpp: `get_process_module`, `get_module` and `module_at`, which go through the images of
-- dyld.
use libhat.Prelude.{
  ℕ, ◌+◌, ◌==◌, Bool, true, false, ◌&&◌, ◌≡◌, refl, ap, if◌then◌else◌, List, [], ◌∷◌, ◌++◌, Option,
  none, some, All, Bool-cases, inl, inr, ◌⊎◌, ==_iff,
}
use libhat.Scanner.Context.{Memory}
use libhat.Scanner.ScanResult.{read_bytes}
use libhat.Modules.Spans.{before_zero}
use libhat.Modules.MachO.{is_valid_header}

-- `_dyld_get_image_header`, `_dyld_get_image_name` and `_dyld_get_image_vmaddr_slide` of one image.
pub record Image : Type 0 where
  pub image_header : ℕ
  pub image_name : List ℕ
  pub image_slide : ℕ

-- The images, `dlopen` with RTLD_NOLOAD (a null handle is 0), and the base that `dladdr` gives.
pub record Dyld : Type 0 where
  pub images : List Image
  pub dlopen : List ℕ → ℕ
  pub dladdr : ℕ → Option ℕ

-- `module_implementation`.
pub record MacModule : Type 0 where
  pub handle : ℕ
  pub header : ℕ
  pub vmaddr_slide : ℕ

-- An optional module, or `std::abort`.
pub data Lookup : Type 0 where
  found : MacModule → Lookup
  missing : Lookup
  aborted : Lookup

abbrev pub construct_image : Dyld → Image → MacModule
construct_image sys image = record {
  handle = Dyld.dlopen sys image.image_name;
  header = image.image_header;
  vmaddr_slide = image.image_slide;
}

-- The loops: the first image that passes the tests.
unfoldable pub first_image : (Image → Bool) → List Image → Option Image
first_image test [] = none
first_image test (image ∷ images) = if test image then some image else first_image test images

abbrev pub lookup_image : Dyld → Lookup → Option Image → Lookup
lookup_image sys otherwise none = otherwise
lookup_image sys otherwise (some image) = Lookup.found (construct_image sys image)

module _ (mem : Memory) (sys : Dyld) where
  -- `header->filetype == MH_EXECUTE`, of a valid header.
  abbrev pub is_program : Image → Bool
  is_program image =
      is_valid_header mem image.image_header && read_bytes mem 4 (image.image_header + 12) == 2

  abbrev pub has_handle : ℕ → Image → Bool
  has_handle handle image =
      is_valid_header mem image.image_header && Dyld.dlopen sys image.image_name == handle

  unfoldable pub get_process_module : Lookup
  get_process_module = lookup_image sys Lookup.aborted (first_image is_program (Dyld.images sys))

  unfoldable pub get_module : List ℕ → Lookup
  unfolding get_process_module
  get_module [] = get_process_module
  get_module (c ∷ name) =
      let handle = Dyld.dlopen sys (before_zero (c ∷ name)) in
      if handle == 0
      then Lookup.missing
      else lookup_image sys Lookup.missing (first_image (has_handle handle) (Dyld.images sys))

unfoldable pub module_at : Dyld → ℕ → Lookup
module_at sys address = elim (Dyld.dladdr sys address) [
  | none ↦ Lookup.missing
  | some base ↦
      lookup_image sys Lookup.missing
        (first_image (λ image. image.image_header == base) (Dyld.images sys))
]

-- The first image of a list that passes a test, or none does.
abbrev pub IsFirstImage : (Image → Bool) → List Image → Option Image → Type 0
IsFirstImage test images none = All (λ i. test i ≡ false) images
IsFirstImage test images (some image) =
    (before : List Image) × (after : List Image) × (images ≡ before ++ image ∷ after)
    × All (λ i. test i ≡ false) before
    × (test image ≡ true)

first_image-IsFirstImage :
    (test : Image → Bool) (images : List Image) → IsFirstImage test images (first_image test images)
unfolding first_image
first_image-IsFirstImage test [] = tt
first_image-IsFirstImage test (image ∷ images) = elim (Bool-cases (test image)) [
  | inl passes ↦ rw passes ([], images, refl, tt, passes)
  | inr fails ↦
      rw fails (behind (first_image test images) fails (first_image-IsFirstImage test images))
]
  where
    behind :
        (o : Option Image)
        → test image ≡ false
        → IsFirstImage test images o
        → IsFirstImage test (image ∷ images) o
    behind none fails all = (fails, all)
    behind (some i) fails (before, after, e, all, passes) =
        (image ∷ before, after, ap (λ xs. image ∷ xs) e, (fails, all), passes)

module _ (mem : Memory) (sys : Dyld) where
  -- The module of the first program among the images, or an abort when there is none.
  abbrev pub IsProcessModule : Lookup → Type 0
  IsProcessModule (Lookup.found m) =
      (image : Image) × IsFirstImage (is_program mem sys) (Dyld.images sys) (some image)
      × (m ≡ construct_image sys image)
  IsProcessModule Lookup.missing = ⊥
  IsProcessModule Lookup.aborted = IsFirstImage (is_program mem sys) (Dyld.images sys) none

  -- The module of the first valid image with the handle, if that is not null; or none for a null handle, whatever
  -- images there are, or when no image has it.
  abbrev pub IsModule : ℕ → Lookup → Type 0
  IsModule handle (Lookup.found m) =
      ¬ (handle ≡ 0)
      × (image : Image) × IsFirstImage (has_handle mem sys handle) (Dyld.images sys) (some image)
      × (m ≡ construct_image sys image)
  IsModule handle Lookup.missing =
      (handle ≡ 0) ⊎ IsFirstImage (has_handle mem sys handle) (Dyld.images sys) none
  IsModule handle Lookup.aborted = ⊥

  abbrev pub IsModuleFor : List ℕ → Lookup → Type 0
  IsModuleFor [] r = IsProcessModule r
  IsModuleFor (c ∷ name) r = IsModule (Dyld.dlopen sys (before_zero (c ∷ name))) r

  -- On macOS `get_module` of a name gives the first valid image for which `dlopen` gives the
  -- handle of the name, if that is not null, and none when the handle is null or no image has it;
  -- of an empty name it gives the first valid image that is a program, and aborts when there is
  -- none.
  pub get_module-IsModuleFor : (name : List ℕ) → IsModuleFor name (get_module mem sys name)
  unfolding get_module get_process_module
  get_module-IsModuleFor [] = go _ (first_image-IsFirstImage (is_program mem sys) (Dyld.images sys))
    where
      go :
          (o : Option Image)
          → IsFirstImage (is_program mem sys) (Dyld.images sys) o
          → IsProcessModule (lookup_image sys Lookup.aborted o)
      go none first = first
      go (some image) first = (image, first, refl)
  get_module-IsModuleFor (c ∷ name) =
      let handle = Dyld.dlopen sys (before_zero (c ∷ name)) in
      elim (Bool-cases (handle == 0)) [
        | inl null ↦ rw null (inl ((==_iff handle 0).0 null))
        | inr there ↦ rw there (
            go handle _ (λ null. cc ((==_iff handle 0).1 null, there))
              (first_image-IsFirstImage (has_handle mem sys handle) (Dyld.images sys)))
      ]
    where
      go :
          (handle : ℕ) (o : Option Image)
          → ¬ (handle ≡ 0)
          → IsFirstImage (has_handle mem sys handle) (Dyld.images sys) o
          → IsModule handle (lookup_image sys Lookup.missing o)
      go handle none there first = inr first
      go handle (some image) there first = (there, image, first, refl)
