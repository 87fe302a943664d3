-- ===== src/Modules/Visit.antt =====
-- A callback that keeps what it is given sees what a loop goes through.
use libhat.Prelude.{Bool, true, ◌≡◌, sym, ◌∙◌, List, [], ◌∷◌, ◌++◌, map}
use mathlib.Core.List.{append-nil, append_assoc}
use libhat.Modules.Spans.{while_true}

module _ {ℓ} {A : Type ℓ} where
  -- The callback keeps the item and says to go on.
  abbrev pub keep : List A → A → List A × Bool
  keep kept item = (kept ++ item ∷ [], true)

  pub while_true-keep : (kept items : List A) → while_true keep kept items ≡ kept ++ items
  unfolding while_true
  while_true-keep kept [] = sym (append-nil kept)
  while_true-keep kept (item ∷ items) =
      while_true-keep (kept ++ item ∷ []) items ∙ append_assoc kept (item ∷ []) items

  pub while_true-keep-map {κ} :
      {B : Type κ} (f : B → A) (kept : List A) (items : List B)
      → while_true (λ s b. keep s (f b)) kept items ≡ kept ++ map f items
  unfolding while_true
  while_true-keep-map f kept [] = sym (append-nil kept)
  while_true-keep-map f kept (b ∷ items) =
      while_true-keep-map f (kept ++ f b ∷ []) items ∙ append_assoc kept (f b ∷ []) (map f items)
