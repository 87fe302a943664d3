-- ===== src/Cow/Wrapper.antt =====
-- include/libhat/cow.hpp: `hat::cow` with an allocator.
use libhat.Prelude.{Bool, true, false}
use libhat.Cow.Traits.{CowTraits}

-- `impl_t`: a view with its allocator, or an owned value.
pub data Cow {ℓ} (View : Type ℓ) (Owned : Type ℓ) (Alloc : Type ℓ) : Type ℓ where
  viewed_impl : View → Alloc → Cow View Owned Alloc
  owned_impl : Owned → Cow View Owned Alloc

module _ {ℓ} {View Owned Alloc : Type ℓ} (traits : CowTraits View Owned Alloc) where
  abbrev pub is_viewed : Cow View Owned Alloc → Bool
  is_viewed (viewed_impl v a) = true
  is_viewed (owned_impl o) = false

  abbrev pub is_owned : Cow View Owned Alloc → Bool
  is_owned (viewed_impl v a) = false
  is_owned (owned_impl o) = true

  abbrev pub viewed : Cow View Owned Alloc → View
  viewed (viewed_impl v a) = v
  viewed (owned_impl o) = traits.into_viewed o

  abbrev pub get_allocator : Cow View Owned Alloc → Alloc
  get_allocator (viewed_impl v a) = a
  get_allocator (owned_impl o) = traits.get_allocator o

  -- `owned()`: the value that it refers to, and the object after it.
  unfoldable pub owned : Cow View Owned Alloc → Owned × Cow View Owned Alloc
  owned (viewed_impl v a) = (traits.into_owned v a, owned_impl (traits.into_owned v a))
  owned (owned_impl o) = (o, owned_impl o)

  unfoldable pub ensure_owned : Cow View Owned Alloc → Cow View Owned Alloc
  ensure_owned c = (owned c).1

  -- `emplace_viewed` and `emplace_owned`, where `build` makes the owned value with an allocator.
  unfoldable pub emplace_viewed : Cow View Owned Alloc → View → Cow View Owned Alloc
  emplace_viewed c v = viewed_impl v (get_allocator c)

  unfoldable pub emplace_owned : Cow View Owned Alloc → (Alloc → Owned) → Cow View Owned Alloc
  emplace_owned c build = owned_impl (build (get_allocator c))

  -- The copy constructor; `select` is `select_on_container_copy_construction`, which the copy
  -- constructor of an owned value calls itself.
  unfoldable pub copy_construct : (Alloc → Alloc) → Cow View Owned Alloc → Cow View Owned Alloc
  copy_construct select (viewed_impl v a) = viewed_impl v (select a)
  copy_construct select (owned_impl o) =
      owned_impl (traits.copy_using_allocator (select (traits.get_allocator o)) o)

  -- `operator=(const cow&)`; `propagate` is `propagate_on_container_copy_assignment`.
  unfoldable pub copy_assign :
      Bool → Cow View Owned Alloc → Cow View Owned Alloc → Cow View Owned Alloc
  copy_assign true this other = other
  copy_assign false (viewed_impl v a) (viewed_impl v' a') = viewed_impl v' a
  copy_assign false (owned_impl o) (viewed_impl v' a') = viewed_impl v' (traits.get_allocator o)
  copy_assign false this (owned_impl o') =
      owned_impl (traits.copy_using_allocator (get_allocator this) o')
