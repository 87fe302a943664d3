-- ===== src/Signature.antt =====
-- include/libhat/signature.hpp, include/libhat/strconv.hpp and include/libhat/result.hpp: elements,
-- signatures, their text form and the conversions from bytes.
pub mod Element
pub mod ParseInt
pub mod Number
pub mod SignedNumber
pub mod Parse
pub mod Print
pub mod Shape
pub mod Printable
pub mod RoundTrip
pub mod Capacity
pub mod Bytes
pub mod Access
