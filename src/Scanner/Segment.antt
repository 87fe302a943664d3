-- ===== src/Scanner/Segment.antt =====
-- src/Utils.hpp: `segment_scan`, which cuts a range into a part of whole vectors and the parts before
-- and after it. A span is its first address and the address behind its last byte.
use libhat.Prelude.{ℕ, ◌+◌, ◌-◌, ◌*◌, ◌/◌, ◌%◌, ◌<◌, ◌≤◌, ◌==◌, ltb, leb, ◌≡◌, Bool, true, ◌&&◌}
use libhat.Prelude.{if◌then◌else◌, arith, Bool-cases, inl, inr, ==_iff}
use libhat.Scanner.Context.{align_up}
use native.Mathlib.Nat.{div-add-mod', le_refl, mod-lt, mul-mod_left}

pub record Span : Type 0 where
  pub first : ℕ
  pub last : ℕ

-- `{}`.
abbrev pub empty_span : Span
empty_span = record { first = 0; last = 0 }

abbrev pub span : ℕ → ℕ → Span
span first last = record { first = first; last = last }

pub record Segments : Type 0 where
  pub pre : Span
  pub vec : Span
  pub post : Span

-- The lambda `validateRange`.
abbrev pub validate_range : ℕ → ℕ → ℕ → Span
validate_range size b e = if leb b e && leb size (e - b) then span b e else empty_span

-- Only the part that goes byte by byte.
abbrev pub unsplit : ℕ → ℕ → ℕ → Segments
unsplit size begin end = record {
  pre = validate_range size begin end;
  vec = empty_span;
  post = empty_span;
}

-- How many whole vectors are scanned, of the bytes that are available.
unfoldable pub vector_count : ℕ → ℕ → ℕ → ℕ
vector_count width available required =
    if leb required available then (available - required) / width else 0

-- `sizeof(Vector)` is `width`; a `Vector*` is its address.
unfoldable pub segment_scan : ℕ → Bool → ℕ → ℕ → ℕ → ℕ → Segments
segment_scan width veccmp begin end size cmp_offset =
    let vec_begin = align_up width (begin + cmp_offset) in
    let available = end - vec_begin in
    let required = if veccmp then width else size in
    let vec_end = vec_begin + vector_count width available required * width in
    if ltb end vec_begin
    then unsplit size begin end
    else if vec_begin == vec_end
    then unsplit size begin end
    else record {
      pre = validate_range size begin (vec_begin - cmp_offset + size);
      vec = span vec_begin vec_end;
      post = validate_range size (vec_end - cmp_offset) end;
    }

-- The ways in which a range is cut: not at all, or into `count` vectors that begin at an aligned
-- address, with enough bytes of the range behind the last one, and with the starts of a match shared
-- out between the three parts.
pub data IsSegmented (width required begin end size cmp_offset : ℕ) : Segments → Type 0 where
  whole :
      IsSegmented width required begin end size cmp_offset
        (record { pre = span begin end; vec = empty_span; post = empty_span })
  split :
      (vec_begin count : ℕ)
      → vec_begin % width ≡ 0
      → begin + cmp_offset ≤ vec_begin
      → 0 < count
      → vec_begin + count * width + required ≤ end
      → IsSegmented width required begin end size cmp_offset (record {
        pre = span begin (vec_begin - cmp_offset + size);
        vec = span vec_begin (vec_begin + count * width);
        post = span (vec_begin + count * width - cmp_offset) end;
      })

validate_range_lem : (size b e : ℕ) → b + size ≤ e → validate_range size b e ≡ span b e
validate_range_lem size b e h = ground arith

vector_count-fits :
    (width available required : ℕ)
    → 0 < vector_count width available required
    → vector_count width available required * width + required ≤ available
unfolding vector_count
vector_count-fits width available required h = elim (Bool-cases (leb required available)) [
  | inl room ↦ rw room (ground (arith, div-add-mod' (available - required) width))
  | inr short ↦ absurd (ground arith)
]

-- `align_up` gives a multiple of the width, not below the address.
align_up-mod : (width a : ℕ) → 0 < width → align_up width a % width ≡ 0
unfolding align_up
align_up-mod width a pos = elim (Bool-cases (a % width == 0)) [
  | inl e ↦ let same : a + 0 ≡ a = omega arith in rw (e, same) ((==_iff _ _).0 e)
  | inr e ↦
      let below = mod-lt a pos in
      let multiple : a + (width - a % width) ≡ (a / width + 1) * width =
        omega (arith, div-add-mod' a width, below) in
      rw (e, multiple) (mul-mod_left (a / width + 1) width)
]

align_up-le : (width a : ℕ) → 0 < width → a ≤ align_up width a
unfolding align_up
align_up-le width a pos = omega arith

-- For a positive width, a compared byte inside the signature, a signature that fits the width
-- under `veccmp`, and a range with room for the signature, `segment_scan` leaves the range whole,
-- or cuts it into aligned vectors, with the bytes that a load at a candidate needs behind them,
-- and the parts before and behind that share out the other starts of a match.
pub segment_scan-IsSegmented :
    (width : ℕ) (veccmp : Bool) (begin end size cmp_offset : ℕ)
    → 0 < width
    → cmp_offset < size
    → (veccmp ≡ true → size ≤ width)
    → begin + size ≤ end
    → IsSegmented width
        (if veccmp then width else size)
        begin
        end
        size
        cmp_offset
        (segment_scan width veccmp begin end size cmp_offset)
unfolding segment_scan
segment_scan-IsSegmented width veccmp begin end size cmp_offset pos inside fits room =
    let vec_begin = align_up width (begin + cmp_offset) in
    let required = if veccmp then width else size in
    let count = vector_count width (end - vec_begin) required in
    let enough : size ≤ required = elim (Bool-cases veccmp) [
      | inl e ↦ rw e (fits e)
      | inr e ↦ rw e (le_refl size)
    ] in
    let room' = validate_range_lem size begin end room in
    elim (Bool-cases (ltb end vec_begin)) [
      | inl past ↦ rw (past, room') whole
      | inr ahead ↦ elim (Bool-cases (vec_begin == vec_begin + count * width)) [
        | inl no_vector ↦ rw (ahead, no_vector, room') whole
        | inr some_vector ↦
            let begun = align_up-le width (begin + cmp_offset) pos in
            let positive : 0 < count = grind arith in
            let one : width ≤ count * width = grind arith in
            let ends : vec_begin + count * width + required ≤ end =
              ground (arith, vector_count-fits width (end - vec_begin) required positive) in
            rw
              (
                ahead,
                some_vector,
                validate_range_lem size begin (vec_begin - cmp_offset + size) (omega arith),
                validate_range_lem size (vec_begin + count * width - cmp_offset) end (omega arith),
              )
              (split vec_begin count (align_up-mod width (begin + cmp_offset) pos) begun positive
                ends)
      ]
    ]
