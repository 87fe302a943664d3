-- ===== src/Scanner/VectorFirst.antt =====
-- The vector scanners find the first aligned occurrence of the signature, as `find_pattern_single` does.
use libhat.Prelude.{ℕ, suc, ◌+◌, ◌-◌, ◌%◌, ◌<◌, ◌≤◌, ◌≡◌, refl, Bool, true, ◌&&◌}
use libhat.Prelude.{length, arith, Bool-cases, inl, inr, none, ◌∙◌, sym, ap}
use libhat.Scanner.Context.{Memory, IsBytes, ScanAlignment, ScanContext, occurs, Outcome, returned}
use libhat.Scanner.First.{Finds}
use libhat.Scanner.Word.{Word, bit, is_zero}
use libhat.Scanner.Valid.{IsContext, IsFull}
use libhat.Scanner.Vector.{
  VectorMode, vector_width, sse, avx2, avx512, compared_index, candidate_loop, candidate_mask,
  may_skip, candidates, find_pattern_vector,
}
use libhat.Scanner.BlocksFirst.{find_segmented-Finds}
use libhat.Scanner.Candidates.{candidate_loop-Finds}
use libhat.Scanner.Compare.{candidate_matches-equal_at}
use libhat.Scanner.Mask.{occurs-candidate_mask, length-candidate_mask}

vector_width-pos : (mode : VectorMode) → 0 < vector_width mode
vector_width-pos sse = omega arith
vector_width-pos avx2 = omega arith
vector_width-pos avx512 = omega arith

-- What a vector scanner needs: a context to scan with, whole bytes in the places that it compares, and
-- with `veccmp` a signature that fits a vector.
pub record IsVectorContext (mode : VectorMode) (cmpeq2 veccmp : Bool) (ctx : ScanContext)
    : Type 0 where
  pub context : IsContext ctx
  pub full : IsFull ctx.signature (compared_index cmpeq2 ctx)
  pub next_full : cmpeq2 ≡ true → IsFull ctx.signature (compared_index cmpeq2 ctx + 1)
  pub fits : veccmp ≡ true → length ctx.signature ≤ vector_width mode

module _ (mode : VectorMode) (alignment : ScanAlignment) (cmpeq2 veccmp : Bool) (mem : Memory)
    (bytes : IsBytes mem) (ctx : ScanContext) (valid : IsVectorContext mode cmpeq2 veccmp ctx) where
  abbrev index_compared : ℕ
  index_compared = compared_index cmpeq2 ctx

  abbrev width : ℕ
  width = vector_width mode

  abbrev occurs_at : ℕ → Bool
  occurs_at t = occurs mem ctx.signature alignment t

  abbrev Candidates : ℕ → Outcome
  Candidates it =
      candidate_loop mode alignment cmpeq2 veccmp mem ctx it (suc width)
        (candidate_mask mode alignment cmpeq2 veccmp mem ctx it)

  -- One vector: the first occurrence whose compared byte lies in it.
  one_vector-Finds :
      (it : ℕ)
      → it % width ≡ 0
      → index_compared ≤ it
      → Finds occurs_at (it - index_compared) (it + width - index_compared) (Candidates it)
  one_vector-Finds it aligned le =
      let size = length-candidate_mask mode alignment cmpeq2 veccmp mem bytes ctx it in
      let found =
        candidate_loop-Finds mode alignment cmpeq2 veccmp mem ctx occurs_at
          (candidate_mask mode alignment cmpeq2 veccmp mem ctx it) (suc width) it le (omega arith)
          (λ o lt.
            occurs-candidate_mask mode alignment cmpeq2 veccmp mem bytes ctx valid.full
              valid.next_full it o aligned (omega arith) le
            ∙ ap (λ b. bit (candidate_mask mode alignment cmpeq2 veccmp mem ctx it) o && b)
                (sym (
                  candidate_matches-equal_at mode alignment cmpeq2 veccmp mem ctx
                    (it + o - index_compared) valid.fits valid.context.elements))) in
      rw size at found

  candidate_loop-empty :
      (it fuel : ℕ) (mask : Word)
      → is_zero mask ≡ true
      → candidate_loop mode alignment cmpeq2 veccmp mem ctx it (suc fuel) mask ≡ returned none
  unfolding candidate_loop
  candidate_loop-empty it fuel mask h = rw h refl

  candidates-Finds :
      (it : ℕ)
      → it % width ≡ 0
      → index_compared ≤ it
      → Finds occurs_at
          (it - index_compared)
          (it + width - index_compared)
          (candidates mode alignment cmpeq2 veccmp mem ctx it)
  unfolding candidates
  candidates-Finds it aligned le =
      let mask = candidate_mask mode alignment cmpeq2 veccmp mem ctx it in
      let found = one_vector-Finds it aligned le in
      elim (Bool-cases (may_skip mode alignment cmpeq2 veccmp mem ctx && is_zero mask)) [
        | inr other ↦ rw other found
        | inl empty ↦ rw empty (rw (candidate_loop-empty it width mask (ground arith)) at found)
      ]

  -- With a context that suits the scanner (the compared bytes are whole, and with `veccmp` the
  -- signature fits a vector), memory of bytes and a range with room for the signature, every x86
  -- vector scanner returns the first place at the alignment where the signature stands, and null
  -- when there is none.
  pub find_pattern_vector-Finds :
      (begin end : ℕ)
      → begin + length ctx.signature ≤ end
      → Finds occurs_at begin
          (end - length ctx.signature + 1)
          (find_pattern_vector mode alignment cmpeq2 veccmp mem begin end ctx)
  unfolding find_pattern_vector
  find_pattern_vector-Finds begin end room =
      find_segmented-Finds width alignment mem bytes ctx valid.context index_compared
        (candidates mode alignment cmpeq2 veccmp mem ctx) (vector_width-pos mode) candidates-Finds
        veccmp begin end valid.full.0 valid.fits room
