-- ===== src/Cow/Laws.antt =====
-- What the operations of `cow` keep: the contents and the allocator.
use libhat.Prelude.{◌≡◌, refl, Bool, true, false, if◌then◌else◌}
use libhat.Cow.Traits.{CowTraits, IsCowTraits}
use libhat.Cow.Wrapper.{
  Cow, viewed_impl, owned_impl, is_owned, viewed, get_allocator, owned, ensure_owned,
  emplace_viewed, copy_construct, copy_assign,
}

module _ {ℓ} {View Owned Alloc : Type ℓ} (traits : CowTraits View Owned Alloc)
    (laws : IsCowTraits traits) where
  -- For traits that keep their promises, `owned()` leaves an object that owns a value, shows what
  -- it showed before, has its allocator, and is not changed by asking again; the value returned
  -- shows the same.
  owned-viewed :
      (c : Cow View Owned Alloc)
      → (is_owned traits (owned traits c).1 ≡ true)
        × (traits.into_viewed (owned traits c).0 ≡ viewed traits c)
        × (viewed traits (owned traits c).1 ≡ viewed traits c)
        × (get_allocator traits (owned traits c).1 ≡ get_allocator traits c)
        × (owned traits (owned traits c).1 ≡ owned traits c)
  unfolding owned
  owned-viewed (viewed_impl v a) =
      (refl, laws.viewed_owned v a, laws.viewed_owned v a, laws.allocator_owned v a, refl)
  owned-viewed (owned_impl o) = (refl, refl, refl, refl, refl)

  -- For traits that keep their promises, after a copy assignment the object shows what the other
  -- shows and owns exactly when the other does; it has the allocator of the other if that
  -- propagates and its own if not.
  copy_assign-viewed :
      (propagate : Bool) (this other : Cow View Owned Alloc)
      → (viewed traits (copy_assign traits propagate this other) ≡ viewed traits other)
        × (is_owned traits (copy_assign traits propagate this other) ≡ is_owned traits other)
        × (get_allocator traits (copy_assign traits propagate this other)
            ≡ (if propagate then get_allocator traits other else get_allocator traits this))
  unfolding copy_assign
  copy_assign-viewed true this other = (refl, refl, refl)
  copy_assign-viewed false (viewed_impl v a) (viewed_impl v' a') = (refl, refl, refl)
  copy_assign-viewed false (owned_impl o) (viewed_impl v' a') = (refl, refl, refl)
  copy_assign-viewed false (viewed_impl v a) (owned_impl o') =
      (laws.viewed_copy a o', refl, laws.allocator_copy a o')
  copy_assign-viewed false (owned_impl o) (owned_impl o') = (
    laws.viewed_copy (traits.get_allocator o) o',
    refl,
    laws.allocator_copy (traits.get_allocator o) o',
  )

  -- For traits that keep their promises, a copy shows what the original shows, owns exactly when
  -- the original does, and has the allocator that the selection makes of its allocator.
  copy_construct-viewed :
      (select : Alloc → Alloc) (c : Cow View Owned Alloc)
      → (viewed traits (copy_construct traits select c) ≡ viewed traits c)
        × (is_owned traits (copy_construct traits select c) ≡ is_owned traits c)
        × (get_allocator traits (copy_construct traits select c) ≡ select (get_allocator traits c))
  unfolding copy_construct
  copy_construct-viewed select (viewed_impl v a) = (refl, refl, refl)
  copy_construct-viewed select (owned_impl o) =
      let a = select (traits.get_allocator o) in
      (laws.viewed_copy a o, refl, laws.allocator_copy a o)

  -- What `owned()` makes of a view put into the object: its contents, with the allocator of the object.
  owned-emplace_viewed :
      (c : Cow View Owned Alloc) (v : View)
      → (traits.into_viewed (owned traits (emplace_viewed traits c v)).0 ≡ v)
        × (get_allocator traits (ensure_owned traits (emplace_viewed traits c v))
            ≡ get_allocator traits c)
  unfolding owned ensure_owned emplace_viewed
  owned-emplace_viewed c v = (
    laws.viewed_owned v (get_allocator traits c),
    laws.allocator_owned v (get_allocator traits c),
  )
