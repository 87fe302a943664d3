-- ===== src/Bindings/IsHeap.antt =====
-- The objects of the C interface are what their tags say, and every call keeps them so.
use libhat.Prelude.{
  ℕ, zero, suc, ◌+◌, ◌<◌, ◌==◌, ==_iff, ==_self, Bool, true, false, ◌||◌, ◌≡◌, ◌≢◌, refl, sym, ◌∙◌,
  List, Option, none, some, All,
}
use libhat.Prelude.{Bool-cases, inl, inr, ap, subst}
use mathlib.Core.Option.{some_inj}
use libhat.Signature.Element.{
  Result, Signature, SignatureError, missing_masked_byte, element_parse_error, empty_signature,
  expected_wildcard, invalid_token_length, IsElement, masked_element, all,
}
use libhat.Signature.Parse.{parse_signature}
use libhat.Signature.Shape.{
  has_full, IsSignature, masked_element-IsElement, parse_signature-IsSignature,
}
use libhat.Bindings.Objects.{
  Heap, Call, FfiObject, Payload, object_magic, signature_type_id, module_type_id, signature_object,
  set_at,
}
use libhat.Bindings.Calls.{
  Status, Out, new_signature, parsed, libhat_parse_signature, create_loop, libhat_create_signature,
}

-- A live object: its tag says what it wraps, and a signature is one that can be scanned with.
abbrev pub IsPayload : ℕ → Payload → Type 0
IsPayload id (Payload.signature sig) = (id ≡ signature_type_id) × IsSignature sig
IsPayload id (Payload.module_of base) = id ≡ module_type_id

pub record IsObject (o : FfiObject) : Type 0 where
  pub magic_eq : o.magic ≡ object_magic
  pub payload_ok : IsPayload o.type_id o.payload

pub record IsHeap (heap : Heap) : Type 0 where
  pub null_free : heap 0 ≡ none
  pub objects : (p : ℕ) (o : FfiObject) → heap p ≡ some o → IsObject o

-- `new` gives an address at which no object lives, and not null.
abbrev pub IsFresh : Heap → ℕ → Type 0
IsFresh heap p = (p ≢ 0) × (heap p ≡ none)

-- The objects of the first heap still live in the second.
abbrev pub Keeps : Heap → Heap → Type 0
Keeps heap heap' = (p : ℕ) (o : FfiObject) → heap p ≡ some o → heap' p ≡ some o

-- A call that makes a signature: on success its output is a live object that wraps a signature which
-- can be scanned with, and on an error the heap is as it was.
abbrev pub IsMade : Heap → Call (Status × Out) → Type 0
IsMade heap (Call.returned heap' (Status.success, Out.written p)) =
    IsHeap heap'
    × Keeps heap heap'
    × (sig : Signature) × (heap' p ≡ some (signature_object sig))
    × IsSignature sig
IsMade heap (Call.returned heap' (Status.success, Out.untouched)) = ⊥
IsMade heap (Call.returned heap' (status, out)) = heap' ≡ heap
IsMade heap _ = ⊥

pub set_at_self : (heap : Heap) (p : ℕ) (o : Option FfiObject) → set_at heap p o p ≡ o
set_at_self heap p o = rw (==_self p) refl

new_signature-IsMade :
    (allocate : Heap → ℕ) (heap : Heap) (sig : Signature)
    → IsFresh heap (allocate heap)
    → IsHeap heap
    → IsSignature sig
    → IsMade heap (new_signature allocate heap sig)
new_signature-IsMade allocate heap sig fresh inv good = (
  record { null_free = null; objects = objects },
  kept,
  sig,
  set_at_self heap (allocate heap) _,
  good,
)
  where
    new : ℕ
    new = allocate heap

    null : set_at heap new (some (signature_object sig)) 0 ≡ none
    null = elim (Bool-cases (0 == new)) [
      | inl e ↦ absurd (fresh.0 (sym ((==_iff 0 new).0 e)))
      | inr e ↦ rw e inv.null_free
    ]

    objects :
        (p : ℕ) (o : FfiObject)
        → set_at heap new (some (signature_object sig)) p ≡ some o
        → IsObject o
    objects p o h = elim (Bool-cases (p == new)) [
      | inl e ↦
          let same : signature_object sig ≡ o = some_inj.0 (rw e at h) in
          subst IsObject same (record { magic_eq = refl; payload_ok = (refl, good) })
      | inr e ↦ inv.objects p o (rw e at h)
    ]

    kept : Keeps heap (set_at heap new (some (signature_object sig)))
    kept p o h = elim (Bool-cases (p == new)) [
      | inl e ↦
          let gone : heap p ≡ none = ap heap ((==_iff p new).0 e) ∙ fresh.1 in absurd (cc (gone, h))
      | inr e ↦ rw e h
    ]

-- In a well-formed heap, with a fresh address from `new`, on every text, a success of
-- `libhat_parse_signature` gives a live signature that can be scanned with and keeps the heap well
-- formed and all its objects, and an error leaves the heap as it was.
libhat_parse_signature-IsMade :
    (allocate : Heap → ℕ) (heap : Heap) (text : List ℕ)
    → IsFresh heap (allocate heap)
    → IsHeap heap
    → IsMade heap (libhat_parse_signature allocate heap text)
unfolding libhat_parse_signature
libhat_parse_signature-IsMade allocate heap text fresh inv = go (parse_signature text) refl
  where
    go :
        (r : Result SignatureError Signature)
        → parse_signature text ≡ r
        → IsMade heap (parsed allocate heap r)
    go (Result.ok sig) e =
        new_signature-IsMade allocate heap sig fresh inv (parse_signature-IsSignature text e)
    go (Result.err missing_masked_byte) e = refl
    go (Result.err element_parse_error) e = refl
    go (Result.err empty_signature) e = refl
    go (Result.err expected_wildcard) e = refl
    go (Result.err invalid_token_length) e = refl

create_loop-All :
    (bytes mask : ℕ → ℕ) (n i : ℕ)
    → ((j : ℕ) → mask j < 256)
    → All IsElement (create_loop bytes mask n i).0
unfolding create_loop
create_loop-All bytes mask zero i h = tt
create_loop-All bytes mask (suc n) i h =
    (masked_element-IsElement (bytes i) (mask i) (h i), create_loop-All bytes mask n (i + 1) h)

create_loop-has_full :
    (bytes mask : ℕ → ℕ) (n i : ℕ)
    → (create_loop bytes mask n i).1 ≡ has_full (create_loop bytes mask n i).0
unfolding create_loop has_full
create_loop-has_full bytes mask zero i = refl
create_loop-has_full bytes mask (suc n) i =
    ap (λ b. all (masked_element (bytes i) (mask i)) || b)
      (create_loop-has_full bytes mask n (i + 1))

-- In a well-formed heap, with masks that are bytes and a fresh address from `new`, a success of
-- `libhat_create_signature` gives a live signature that can be scanned with and keeps the heap
-- well formed and all its objects, and an error leaves the heap as it was.
pub libhat_create_signature-IsMade :
    (allocate : Heap → ℕ) (heap : Heap) (bytes : Option (ℕ → ℕ)) (mask : ℕ → ℕ) (size : ℕ)
    (has_out : Bool)
    → IsFresh heap (allocate heap)
    → IsHeap heap
    → ((i : ℕ) → mask i < 256)
    → IsMade heap (libhat_create_signature allocate heap bytes (some mask) size has_out)
unfolding libhat_create_signature
libhat_create_signature-IsMade allocate heap bytes mask size false fresh inv h = refl
libhat_create_signature-IsMade allocate heap bytes mask zero true fresh inv h = refl
libhat_create_signature-IsMade allocate heap none mask (suc n) true fresh inv h = refl
libhat_create_signature-IsMade allocate heap (some bytes) mask (suc n) true fresh inv h =
    elim (Bool-cases (create_loop bytes mask (suc n) 0).1) [
      | inr e ↦ rw e refl
      | inl e ↦ rw e (
          new_signature-IsMade allocate heap (create_loop bytes mask (suc n) 0).0 fresh inv
            (record {
              elements = create_loop-All bytes mask (suc n) 0 h;
              full = sym (create_loop-has_full bytes mask (suc n) 0) ∙ e;
            }))
    ]
