-- ===== src/Scanner/Valid.antt =====
-- When a scan context can be scanned with, and what that gives.
use libhat.Prelude.{ℕ, zero, suc, ◌+◌, ◌<◌, ◌≡◌, ◌==◌, true, false}
use libhat.Prelude.{[], ◌∷◌, arith, get_or, length, Bool-cases, inl, inr, All, sym, ◌∙◌}
use libhat.Signature.Element.{
  SignatureElement, IsElement, Signature, all, nullopt_element, element_matches,
  element_matches-full,
}
use libhat.Signature.Shape.{IsSignature, has_full}
use libhat.Scanner.Context.{
  Memory, IsBytes, ScanAlignment, ScanContext, first_full, create, equal_at,
}
use libhat.Scanner.Single.{cmp_byte}

-- A context that can be scanned with: the byte compared first is a whole byte of the signature.
pub record IsContext (ctx : ScanContext) : Type 0 where
  pub elements : All IsElement ctx.signature
  pub cmp_inside : ctx.cmp_index < length ctx.signature
  pub cmp_full : all (get_or ctx.signature ctx.cmp_index nullopt_element) ≡ true

-- What stands at `start` matches each element in turn.
equal_at-get_or :
    (mem : Memory) (sig : Signature) (start i : ℕ)
    → equal_at mem sig start ≡ true
    → i < length sig
    → element_matches (get_or sig i nullopt_element) (mem (start + i)) ≡ true
unfolding equal_at
equal_at-get_or mem [] start i h lt = absurd (omega arith)
equal_at-get_or mem (e ∷ sig) start zero h lt =
    let here : start + 0 ≡ start = omega arith in rw here (ground arith)
equal_at-get_or mem (e ∷ sig) start (suc i) h lt =
    let next : start + suc i ≡ start + 1 + i = omega arith in
    rw next (equal_at-get_or mem sig (start + 1) i (ground arith) (omega arith))

-- A place in the signature that holds a whole byte.
abbrev pub IsFull : Signature → ℕ → Type 0
IsFull sig i = (i < length sig) × (all (get_or sig i nullopt_element) ≡ true)

-- Where the signature stands, each of its whole bytes stands in its place.
pub full_byte_needed :
    (mem : Memory) (sig : Signature) (start i : ℕ)
    → IsBytes mem
    → IsFull sig i
    → equal_at mem sig start ≡ true
    → (mem (start + i) == SignatureElement.value (get_or sig i nullopt_element)) ≡ true
full_byte_needed mem sig start i bytes full h =
    sym (element_matches-full _ _ full.1 (bytes _)) ∙ equal_at-get_or mem sig start i h full.0

module _ (mem : Memory) (bytes : IsBytes mem) (ctx : ScanContext) (valid : IsContext ctx) where
  -- Where the signature stands, the byte compared first is there.
  pub cmp_byte_needed :
      (start : ℕ)
      → equal_at mem ctx.signature start ≡ true
      → (mem (start + ctx.cmp_index) == cmp_byte ctx) ≡ true
  cmp_byte_needed start h =
      full_byte_needed mem ctx.signature start ctx.cmp_index bytes
        (valid.cmp_inside, valid.cmp_full) h

  pub cmp_byte_missing :
      (start i : ℕ)
      → i ≡ start + ctx.cmp_index
      → (mem i == cmp_byte ctx) ≡ false
      → equal_at mem ctx.signature start ≡ false
  cmp_byte_missing start i e miss = elim (Bool-cases (equal_at mem ctx.signature start)) [
    | inl h ↦ cc (cmp_byte_needed start h, e)
    | inr h ↦ h
  ]

first_full-all :
    (sig : Signature)
    → has_full sig ≡ true
    → (first_full sig < length sig) × (all (get_or sig (first_full sig) nullopt_element) ≡ true)
unfolding first_full has_full
first_full-all [] h = absurd (cc h)
first_full-all (e ∷ sig) h = elim (Bool-cases (all e)) [
  | inl full ↦ rw full (omega arith, full)
  | inr other ↦
      let (inside, full) = first_full-all sig (ground arith) in rw other (omega arith, full)
]

-- For a well-formed signature with a whole byte, `scan_context::create` gives a context whose
-- compared byte is a whole byte of the signature.
pub create-IsContext :
    (sig : Signature) (alignment : ScanAlignment) (hints : ℕ)
    → IsSignature sig
    → IsContext (create sig alignment hints)
unfolding create
create-IsContext sig alignment hints good =
    let (inside, full) = first_full-all sig good.full in
    record { elements = good.elements; cmp_inside = inside; cmp_full = full }
