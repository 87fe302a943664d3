-- ===== src/Signature/Access.antt =====
-- include/libhat/result.hpp: the member functions of `hat::result`.
use libhat.Prelude.{Run, Bool, true, false}
use libhat.Signature.Element.{Result}

module _ {ℓ κ} {E : Type ℓ} {T : Type κ} where
  unfoldable pub has_value : Result E T → Bool
  has_value (Result.ok t) = true
  has_value (Result.err e) = false

  -- `value()`: `std::expected` and `std::variant` throw for an error.
  unfoldable pub value : Result E T → Run T
  value (Result.ok t) = Run.done t
  value (Result.err e) = Run.thrown

  -- `error()`: for a value, `std::expected` leaves it undefined, and `std::variant` throws.
  unfoldable pub error : Bool → Result E T → Run E
  error is_expected (Result.err e) = Run.done e
  error true (Result.ok t) = Run.undefined
  error false (Result.ok t) = Run.thrown
