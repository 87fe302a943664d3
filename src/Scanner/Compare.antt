-- ===== src/Scanner/Compare.antt =====
-- The two ways in which the vector scanners compare a candidate agree: the masked comparison of whole
-- vectors decides what `std::equal` decides, for a signature that fits a vector.
use libhat.Prelude.{
  ℕ, zero, suc, ◌+◌, ◌≤◌, ◌≡◌, refl, ◌==◌, Bool, true, false, ◌&&◌, List, [], ◌∷◌, map,
}
use libhat.Prelude.{length, tabulate, tabulate_ext, replicate, All, Bool_ext, arith}
use libhat.Prelude.{bit_and, bit_xor, masked_xor, bit_and-zero, ap, ==_iff}
use libhat.Signature.Element.{SignatureElement, IsElement, Signature, element_matches}
use libhat.Scanner.Context.{Memory, ScanAlignment, ScanContext, equal_at}
use libhat.Scanner.Vector.{
  VectorMode, vector_width, load, vector_xor, test_zero, fill, load_signature, candidate_matches,
}

abbrev pub masks : ℕ → Signature → List ℕ
masks width sig = fill (replicate width 0) (map (λ e. SignatureElement.mask e) sig)

abbrev pub values : ℕ → Signature → List ℕ
values width sig = fill (replicate width 0) (map (λ e. SignatureElement.value e) sig)

-- One byte of the comparison.
lane-element_matches :
    (e : SignatureElement) (b : ℕ)
    → IsElement e
    → (bit_and (bit_xor b e.value) e.mask == 0) ≡ element_matches e b
unfolding element_matches
lane-element_matches e b good =
    let law = masked_xor b e.value e.mask good.inside in
    Bool_ext _ _ (λ h. (==_iff _ _).1 (law.0 ((==_iff _ _).0 h)))
      (λ h. (==_iff _ _).1 (law.1 ((==_iff _ _).0 h)))

-- Where no element is left, the mask is 0.
test_zero-rest :
    (width : ℕ) (f : ℕ → ℕ)
    → test_zero (vector_xor (tabulate width f) (replicate width 0)) (replicate width 0) ≡ true
unfolding test_zero vector_xor
test_zero-rest zero f = refl
test_zero-rest (suc n) f = rw (bit_and-zero (bit_xor (f 0) 0)) (test_zero-rest n (λ i. f (suc i)))

pub test_zero-equal_at :
    (width : ℕ) (sig : Signature) (mem : Memory) (start : ℕ)
    → length sig ≤ width
    → All IsElement sig
    → test_zero (vector_xor (load mem width start) (values width sig)) (masks width sig)
      ≡ equal_at mem sig start
unfolding load fill equal_at test_zero vector_xor
test_zero-equal_at width [] mem start le good = test_zero-rest width (λ i. mem (start + i))
test_zero-equal_at zero (e ∷ sig) mem start le good = absurd (omega arith)
test_zero-equal_at (suc n) (e ∷ sig) mem start le good =
    let here : start + 0 ≡ start = omega arith in
    let moved : tabulate n (λ i. mem (start + suc i)) ≡ tabulate n (λ i. mem (start + 1 + i)) =
      tabulate_ext n _ _ (λ i h. ap mem (omega arith)) in
    let head = lane-element_matches e (mem start) good.0 in
    let rest = test_zero-equal_at n sig mem (start + 1) (omega arith) good.1 in
    rw (here, moved) (λ i. head i && rest i)

-- For well-formed elements, and under `veccmp` a signature that fits a vector, the masked
-- comparison of whole vectors decides what `std::equal` decides.
pub candidate_matches-equal_at :
    (mode : VectorMode) (alignment : ScanAlignment) (cmpeq2 veccmp : Bool) (mem : Memory)
    (ctx : ScanContext) (start : ℕ)
    → (veccmp ≡ true → length ctx.signature ≤ vector_width mode)
    → All IsElement ctx.signature
    → candidate_matches mode alignment cmpeq2 veccmp mem ctx start
      ≡ equal_at mem ctx.signature start
unfolding candidate_matches load_signature
candidate_matches-equal_at mode alignment cmpeq2 true mem ctx start fits good =
    test_zero-equal_at (vector_width mode) ctx.signature mem start (fits refl) good
candidate_matches-equal_at mode alignment cmpeq2 false mem ctx start fits good = refl
