-- ===== src/Scanner/SingleFirst.antt =====
-- `find_pattern_single` finds the first aligned occurrence of the signature, at every alignment.
use libhat.Prelude.{ℕ, ◌+◌, ◌-◌, ◌≤◌, refl}
use libhat.Prelude.{arith, length}
use libhat.Scanner.Context.{Memory, IsBytes, ScanAlignment, x1, x4, x16, ScanContext, occurs}
use libhat.Scanner.First.{Finds}
use libhat.Scanner.Valid.{IsContext}
use libhat.Scanner.Strided.{four, sixteen, find_strided-Finds}
use libhat.Scanner.Bytewise.{byte_loop-Finds}
use libhat.Scanner.Single.{find_pattern_single}

module _ (mem : Memory) (bytes : IsBytes mem) (ctx : ScanContext) (valid : IsContext ctx) where
  -- With a context whose compared byte is whole, memory of bytes and a range with room for the
  -- signature, `find_pattern_single` returns the first place at the alignment where the signature
  -- stands, and null when there is none.
  pub find_pattern_single-Finds :
      (alignment : ScanAlignment) (begin end : ℕ)
      → begin + length ctx.signature ≤ end
      → Finds
          (occurs mem ctx.signature alignment)
          begin
          (end - length ctx.signature + 1)
          (find_pattern_single alignment mem begin end ctx)
  unfolding find_pattern_single occurs
  find_pattern_single-Finds x1 begin end fits =
      byte_loop-Finds mem bytes ctx valid (end - length ctx.signature + 1) _ _ begin refl
        (omega arith) (omega arith)
  find_pattern_single-Finds x4 begin end fits =
      find_strided-Finds mem bytes ctx valid 4 four begin end fits
  find_pattern_single-Finds x16 begin end fits =
      find_strided-Finds mem bytes ctx valid 16 sixteen begin end fits
