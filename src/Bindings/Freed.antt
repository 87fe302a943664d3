-- ===== src/Bindings/Freed.antt =====
-- What `libhat_free` of bindings/c/src/libhat.cpp does with a live object.
use libhat.Prelude.{ℕ, ◌==◌, ==_iff, false, ◌≡◌, refl, ◌∙◌, Option, none, some}
use libhat.Prelude.{Bool-cases, inl, inr, fun_ext, ap}
use libhat.Bindings.Objects.{
  Heap, Call, FfiObject, Payload, tombstone_type_id, set_at, exchange_object, exchange,
  destroy_object, libhat_free,
}
use libhat.Bindings.IsHeap.{IsObject, IsPayload, IsHeap, set_at_self}

not_tombstone : (o : FfiObject) → IsObject o → (o.type_id == tombstone_type_id) ≡ false
not_tombstone o good = go (o.payload) good.payload_ok
  where
    go :
        (payload : Payload) → IsPayload o.type_id payload → (o.type_id == tombstone_type_id) ≡ false
    go (Payload.signature sig) h = rw h.0 refl
    go (Payload.module_of base) h = rw h refl

set_at-twice :
    (heap : Heap) (p : ℕ) (o o' : Option FfiObject)
    → set_at (set_at heap p o) p o' ≡ set_at heap p o'
set_at-twice heap p o o' =
    fun_ext (λ q. elim (Bool-cases (q == p)) [ inl e ↦ rw e refl | inr e ↦ rw e refl ])

removed-IsHeap : (heap : Heap) (p : ℕ) → IsHeap heap → IsHeap (set_at heap p none)
removed-IsHeap heap p inv = record { null_free = null; objects = objects }
  where
    null : set_at heap p none 0 ≡ none
    null = elim (Bool-cases (0 == p)) [ inl e ↦ rw e refl | inr e ↦ rw e inv.null_free ]

    objects : (q : ℕ) (o : FfiObject) → set_at heap p none q ≡ some o → IsObject o
    objects q o h = elim (Bool-cases (q == p)) [
      | inl e ↦ absurd (cc (rw e at h))
      | inr e ↦ inv.objects q o (rw e at h)
    ]

-- What `libhat_free` does with a live object: it is removed and the heap stays well formed, a second
-- `libhat_free` reads an object that does not live, and of two frees that race to the exchange the
-- second one ends the program before either destroys the object twice.
pub record IsFreed (heap : Heap) (p : ℕ) : Type 0 where
  pub freed : libhat_free heap p ≡ Call.returned (set_at heap p none) tt
  pub well_formed : IsHeap (set_at heap p none)
  pub again : libhat_free (set_at heap p none) p ≡ Call.undefined
  pub tagged : Heap
  pub exchanged : exchange heap p ≡ Call.returned tagged tt
  pub race : libhat_free tagged p ≡ Call.terminated

-- In a well-formed heap, `libhat_free` of a live object removes it and the heap stays well formed;
-- a second `libhat_free` of it, once the first has returned, reads an object that does not live,
-- which is undefined; and when one `libhat_free` has done its exchange but not yet destroyed the
-- object, another one ends the program.
pub libhat_free-IsFreed :
    (heap : Heap) (p : ℕ) (o : FfiObject) → IsHeap heap → heap p ≡ some o → IsFreed heap p
unfolding libhat_free exchange
libhat_free-IsFreed heap p o inv live = record {
  freed =
      rw not_null
        (ap (destroy_object p) tags ∙ ap (λ h. Call.returned h tt) (set_at-twice heap p _ none));
  well_formed = removed-IsHeap heap p inv;
  again = rw not_null (
      ap (λ x. destroy_object p (exchange_object (set_at heap p none) p x))
        (set_at_self heap p none));
  tagged = tagged_heap;
  exchanged = tags;
  race = rw not_null (
      ap (λ x. destroy_object p (exchange_object tagged_heap p x))
        (set_at_self heap p (some tombstone))
      ∙ rw good.magic_eq refl);
}
  where
    good : IsObject o
    good = inv.objects p o live

    tombstone : FfiObject
    tombstone = record { magic = o.magic; type_id = tombstone_type_id; payload = o.payload }

    not_null : (p == 0) ≡ false
    not_null = elim (Bool-cases (p == 0)) [
      | inl e ↦
          let gone : heap p ≡ none = ap heap ((==_iff p 0).0 e) ∙ inv.null_free in
          absurd (cc (gone, live))
      | inr e ↦ e
    ]

    tagged_heap : Heap
    tagged_heap = set_at heap p (some tombstone)

    tags : exchange_object heap p (heap p) ≡ Call.returned tagged_heap tt
    tags = ap (exchange_object heap p) live ∙ rw (good.magic_eq, not_tombstone o good) refl
