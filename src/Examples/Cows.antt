-- ===== src/Examples/Cows.antt =====
-- `cow` of include/libhat/cow.hpp over views, with numbers for allocators.
use libhat.Prelude.{ℕ, ◌≡◌, refl, false, List, [], ◌∷◌}
use libhat.Cow.Traits.{CowTraits, Container, view_traits}
use libhat.Cow.Moves.{IsMove, IsMoved, move_assign, move_assign-IsMoved}
use libhat.Cow.Wrapper.{
  Cow, viewed_impl, owned_impl, owned, ensure_owned, emplace_viewed, emplace_owned,
}

abbrev traits : CowTraits (List ℕ) (Container ℕ ℕ) ℕ
traits = view_traits

-- A view of two elements with allocator 5, and an owned element with allocator 7.
abbrev borrowed : Cow (List ℕ) (Container ℕ ℕ) ℕ
borrowed = viewed_impl (1 ∷ 2 ∷ []) 5

abbrev kept : Cow (List ℕ) (Container ℕ ℕ) ℕ
kept = owned_impl (record { elements = 3 ∷ []; allocator = 7 })

owned_borrowed :
    ensure_owned traits borrowed ≡ owned_impl (record { elements = 1 ∷ 2 ∷ []; allocator = 5 })
unfolding ensure_owned owned view_traits
owned_borrowed = refl

emplaced : emplace_viewed traits kept (4 ∷ []) ≡ viewed_impl (4 ∷ []) 7
unfolding emplace_viewed view_traits
emplaced = refl

emplaced_owned :
    emplace_owned traits borrowed (λ a. record { elements = 9 ∷ []; allocator = a })
    ≡ owned_impl (record { elements = 9 ∷ []; allocator = 5 })
unfolding emplace_owned view_traits
emplaced_owned = refl

abbrev take : ℕ → Container ℕ ℕ → Container ℕ ℕ
take a o = record o { allocator = a }

abbrev moved : Container ℕ ℕ → Container ℕ ℕ
moved o = record o { elements = [] }

traits-IsMove : IsMove traits take moved
unfolding view_traits
traits-IsMove = record {
  viewed_take = λ a o. refl;
  allocator_take = λ a o. refl;
  allocator_moved = λ o. refl;
}

move_assign-IsMoved_example :
    IsMoved traits take moved borrowed kept 5 (move_assign traits take moved false borrowed kept)
move_assign-IsMoved_example =
    move_assign-IsMoved traits take moved traits-IsMove false borrowed kept
