-- ===== src/Convert.antt =====
-- src/internal/convert.c: integers and code points to and from bytes. Pointers and floating point
-- are not modelled.
pub mod Radix
pub mod Decimal
pub mod Utf8
pub mod Utf16
pub mod RoundTrip
pub mod Times
