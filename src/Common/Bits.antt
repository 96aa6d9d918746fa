-- ===== src/Common/Bits.antt =====
-- The C operators `&`, `|`, `^` on words: the law of the lowest digit, of each digit, of fields
-- packed by shifts, and of masks. The native operations have no laws at variables but their
-- definition by recursion on binary digits with a count of digits to go.
mod Digits
mod Words
pub use Digits.{bit, bit-bit_and, bit-bit_or, bit-bit_xor, bit-le-one, bit_ext, bit-lt}
pub use Digits.{bit_and_step, bit_or_step, bit_xor_step}
pub use Words.{bit_and_mask, bit_or_fields, bit_and_high, bit_or-lt, bit_and-lt, bit_xor-lt}
pub use Words.{bit-pow, bit-complement, bit_or-zero}
