-- ===== src/Cow/Traits.antt =====
-- include/libhat/cow.hpp: `cow_traits`, as an interface with its laws, and the traits of the views of
-- strings and spans. A view is what it shows.
use libhat.Prelude.{◌≡◌, refl, List}

-- The operations that `cow` takes from its traits, and `std::make_obj_using_allocator` of an owned value.
pub record CowTraits {ℓ} (View : Type ℓ) (Owned : Type ℓ) (Alloc : Type ℓ) : Type ℓ where
  pub into_viewed : Owned → View
  pub into_owned : View → Alloc → Owned
  pub get_allocator : Owned → Alloc
  pub copy_using_allocator : Alloc → Owned → Owned

-- What the traits promise: a conversion keeps the contents, and an object has the allocator that it was
-- made with.
pub record IsCowTraits {ℓ} {View Owned Alloc : Type ℓ} (traits : CowTraits View Owned Alloc)
    : Type ℓ where
  pub viewed_owned : (v : View) (a : Alloc) → traits.into_viewed (traits.into_owned v a) ≡ v
  pub allocator_owned : (v : View) (a : Alloc) → traits.get_allocator (traits.into_owned v a) ≡ a
  pub viewed_copy :
      (a : Alloc) (o : Owned)
      → traits.into_viewed (traits.copy_using_allocator a o) ≡ traits.into_viewed o
  pub allocator_copy :
      (a : Alloc) (o : Owned) → traits.get_allocator (traits.copy_using_allocator a o) ≡ a

-- `std::basic_string` and `std::vector`: the elements and the allocator.
pub record Container {ℓ} (T : Type ℓ) (Alloc : Type ℓ) : Type ℓ where
  pub elements : List T
  pub allocator : Alloc

-- `cow_traits<std::basic_string_view>`, `<basic_cstring_view>` and `<std::span>`.
unfoldable pub view_traits {ℓ} : {T Alloc : Type ℓ} → CowTraits (List T) (Container T Alloc) Alloc
view_traits = record {
  into_viewed = λ o. Container.elements o;
  into_owned = λ v a. record { elements = v; allocator = a };
  get_allocator = λ o. Container.allocator o;
  copy_using_allocator = λ a o. record { elements = Container.elements o; allocator = a };
}

view_traits-IsCowTraits {ℓ} : {T Alloc : Type ℓ} → IsCowTraits (view_traits {T = T} {Alloc = Alloc})
unfolding view_traits
view_traits-IsCowTraits = record {
  viewed_owned = λ v a. refl;
  allocator_owned = λ v a. refl;
  viewed_copy = λ a o. refl;
  allocator_copy = λ a o. refl;
}
