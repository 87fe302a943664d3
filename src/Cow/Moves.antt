-- ===== src/Cow/Moves.antt =====
-- include/libhat/cow.hpp: the constructors and the moves of `hat::cow`, and its form without an allocator.
use libhat.Prelude.{◌≡◌, refl, Bool, true, false, if◌then◌else◌}
use libhat.Cow.Traits.{CowTraits, IsCowTraits}
use libhat.Cow.Wrapper.{Cow, viewed_impl, owned_impl, is_owned, viewed, get_allocator}

-- `no_allocator`: traits that convert without one.
unfoldable pub no_allocator {ℓ} :
    {View Owned : Type ℓ} → (Owned → View) → (View → Owned) → CowTraits View Owned (Unit {ℓ})
no_allocator into_viewed into_owned = record {
  into_viewed = into_viewed;
  into_owned = λ v a. into_owned v;
  get_allocator = λ o. tt;
  copy_using_allocator = λ a o. o;
}

module _ {ℓ} {View Owned : Type ℓ} (into_viewed : Owned → View) (into_owned : View → Owned) where
  no_allocator-IsCowTraits :
      ((v : View) → into_viewed (into_owned v) ≡ v)
      → IsCowTraits (no_allocator into_viewed into_owned)
  unfolding no_allocator
  no_allocator-IsCowTraits same = record {
    viewed_owned = λ v a. same v;
    allocator_owned = λ v a. refl;
    viewed_copy = λ a o. refl;
    allocator_copy = λ a o. refl;
  }

-- `std::make_obj_using_allocator` from an owned value that may be moved from, and what is left of it.
module _ {ℓ} {View Owned Alloc : Type ℓ} (traits : CowTraits View Owned Alloc)
    (take : Alloc → Owned → Owned) (moved : Owned → Owned) where
  -- The constructors from an allocator, a view, an owned value, and an owned value with an allocator.
  abbrev pub of_allocator : View → Alloc → Cow View Owned Alloc
  of_allocator default_view a = viewed_impl default_view a

  abbrev pub of_view : View → Alloc → Cow View Owned Alloc
  of_view v a = viewed_impl v a

  abbrev pub of_owned : Owned → Cow View Owned Alloc
  of_owned o = owned_impl o

  abbrev pub of_owned_with : Owned → Alloc → Cow View Owned Alloc
  of_owned_with o a = owned_impl (take a o)

  -- What a move of the alternatives leaves: a view is copied.
  abbrev pub left : Cow View Owned Alloc → Cow View Owned Alloc
  left (viewed_impl v a) = viewed_impl v a
  left (owned_impl o) = owned_impl (moved o)

  -- `cow(cow&&)`: the new object, and the other after it.
  unfoldable pub move_construct : Cow View Owned Alloc → Cow View Owned Alloc × Cow View Owned Alloc
  move_construct other = (other, left other)

  -- `operator=(cow&&)`: the two objects after it; `propagate` is `propagate_on_container_move_assignment`.
  unfoldable pub move_assign :
      Bool
      → Cow View Owned Alloc
      → Cow View Owned Alloc
      → Cow View Owned Alloc × Cow View Owned Alloc
  move_assign true this other = (other, left other)
  move_assign false (viewed_impl v a) (viewed_impl v' a') = (viewed_impl v' a, viewed_impl v' a')
  move_assign false (owned_impl o) (viewed_impl v' a') =
      (viewed_impl v' (traits.get_allocator o), viewed_impl v' a')
  move_assign false this (owned_impl o') =
      (owned_impl (take (get_allocator traits this) o'), owned_impl (moved o'))

  -- What the owned type promises of a move: the contents go over, and both keep their allocators.
  pub record IsMove : Type ℓ where
    pub viewed_take : (a : Alloc) (o : Owned) → traits.into_viewed (take a o) ≡ traits.into_viewed o
    pub allocator_take : (a : Alloc) (o : Owned) → traits.get_allocator (take a o) ≡ a
    pub allocator_moved : (o : Owned) → traits.get_allocator (moved o) ≡ traits.get_allocator o

  -- The first object shows what the second showed, and the second keeps its alternative and its allocator.
  pub record IsMoved (this other : Cow View Owned Alloc) (a : Alloc)
      (after : Cow View Owned Alloc × Cow View Owned Alloc) : Type ℓ where
    pub shows : viewed traits (after.0) ≡ viewed traits other
    pub owns : is_owned traits (after.0) ≡ is_owned traits other
    pub allocator : get_allocator traits (after.0) ≡ a
    pub other_owns : is_owned traits (after.1) ≡ is_owned traits other
    pub other_allocator : get_allocator traits (after.1) ≡ get_allocator traits other

  module _ (promised : IsMove) where
    left_allocator :
        (c : Cow View Owned Alloc)
        → (is_owned traits (left c) ≡ is_owned traits c)
          × (get_allocator traits (left c) ≡ get_allocator traits c)
    left_allocator (viewed_impl v a) = (refl, refl)
    left_allocator (owned_impl o) = (refl, promised.allocator_moved o)

    -- For an owned type whose moves carry the contents over and leave both allocators, after a
    -- move assignment the object shows what the other showed and owns exactly when it did, with
    -- the allocator of the other if that propagates and its own if not, and the other keeps its
    -- alternative and its allocator.
    pub move_assign-IsMoved :
        (propagate : Bool) (this other : Cow View Owned Alloc)
        → IsMoved this other
            (if propagate then get_allocator traits other else get_allocator traits this)
            (move_assign propagate this other)
    unfolding move_assign
    move_assign-IsMoved true this other = record {
      shows = refl;
      owns = refl;
      allocator = refl;
      other_owns = (left_allocator other).0;
      other_allocator = (left_allocator other).1;
    }
    move_assign-IsMoved false (viewed_impl v a) (viewed_impl v' a') = record {
      shows = refl;
      owns = refl;
      allocator = refl;
      other_owns = refl;
      other_allocator = refl;
    }
    move_assign-IsMoved false (owned_impl o) (viewed_impl v' a') = record {
      shows = refl;
      owns = refl;
      allocator = refl;
      other_owns = refl;
      other_allocator = refl;
    }
    move_assign-IsMoved false (viewed_impl v a) (owned_impl o') = record {
      shows = promised.viewed_take a o';
      owns = refl;
      allocator = promised.allocator_take a o';
      other_owns = refl;
      other_allocator = promised.allocator_moved o';
    }
    move_assign-IsMoved false (owned_impl o) (owned_impl o') = record {
      shows = promised.viewed_take (traits.get_allocator o) o';
      owns = refl;
      allocator = promised.allocator_take (traits.get_allocator o) o';
      other_owns = refl;
      other_allocator = promised.allocator_moved o';
    }
