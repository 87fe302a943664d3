-- ===== src/Bindings/Objects.antt =====
-- bindings/c/src/libhat.cpp: the objects that the C interface hands out, and `libhat_free`. A pointer
-- is an address, and null is 0.
use libhat.Prelude.{ℕ, ◌==◌, Bool, not, ◌&&◌, if◌then◌else◌, Option, none, some}
use libhat.Signature.Element.{Signature}

abbrev pub object_magic : ℕ
object_magic = 0x2C360B8A

-- The `type_id` of `tombstone_type`, `libhat_signature` and `libhat_module`.
abbrev pub tombstone_type_id : ℕ
tombstone_type_id = 0xF27EC9D1

abbrev pub signature_type_id : ℕ
signature_type_id = 0xFD19C2B3

abbrev pub module_type_id : ℕ
module_type_id = 0xBAA5FEEC

-- What an object wraps. A `hat::process::module` is known by its address.
pub data Payload : Type 0 where
  signature : Signature → Payload
  module_of : ℕ → Payload

pub record FfiObject : Type 0 where
  pub magic : ℕ
  pub type_id : ℕ
  pub payload : Payload

-- The constructors of `libhat_ffi_wrapper`.
abbrev pub signature_object : Signature → FfiObject
signature_object sig = record {
  magic = object_magic;
  type_id = signature_type_id;
  payload = Payload.signature sig;
}

abbrev pub module_object : ℕ → FfiObject
module_object base = record {
  magic = object_magic;
  type_id = module_type_id;
  payload = Payload.module_of base;
}

-- The objects that live, by address.
abbrev pub Heap : Type 0
Heap = ℕ → Option FfiObject

abbrev pub set_at : Heap → ℕ → Option FfiObject → Heap
set_at heap p o q = if q == p then o else heap q

-- How a call ends. `undefined` is a read of an object that does not live.
pub data Call {ℓ} (A : Type ℓ) : Type ℓ where
  returned : Heap → A → Call A
  terminated : Call A
  undefined : Call A
  diverges : Call A

-- `check_type`, and what it asks `is_type`; `none` where there is no object to read.
abbrev pub is_type : FfiObject → ℕ → Bool
is_type o id = o.magic == object_magic && o.type_id == id

abbrev pub type_of : Option FfiObject → ℕ → Option Bool
type_of none id = none
type_of (some o) id = some (is_type o id)

unfoldable pub check_type : Heap → ℕ → ℕ → Option Bool
check_type heap p id = type_of (heap p) id

-- `p.type.exchange(tombstone)` and the tests around it: the heap after it, or the end of the program.
abbrev pub exchange_object : Heap → ℕ → Option FfiObject → Call (Unit {0})
exchange_object heap p none = Call.undefined
exchange_object heap p (some o) =
    if not (o.magic == object_magic)
    then Call.terminated
    else if o.type_id == tombstone_type_id
    then Call.terminated
    else Call.returned
        (set_at heap p
          (some (record { magic = o.magic; type_id = tombstone_type_id; payload = o.payload })))
        tt

unfoldable pub exchange : Heap → ℕ → Call (Unit {0})
exchange heap p = exchange_object heap p (heap p)

-- `p.destroy(p)`.
abbrev pub destroy_object : ℕ → Call (Unit {0}) → Call (Unit {0})
destroy_object p (Call.returned heap u) = Call.returned (set_at heap p none) u
destroy_object p call = call

unfoldable pub libhat_free : Heap → ℕ → Call (Unit {0})
libhat_free heap p =
    let freed = destroy_object p (exchange heap p) in
    if p == 0 then Call.returned heap tt else freed
