-- ===== src/Convert/Utf8/RoundTrip.antt =====
-- The UTF-8 encoder followed by the decoder (src/internal/convert.c).
use windows_libc.Common.{
  ℕ, ◌/◌, ◌^◌, ◌≤◌, ◌<◌, bit_and, ◌≡◌, ◌⊎◌, some, List, ◌∷◌, ◌++◌, arith, length,
}
use windows_libc.Convert.Utf8.{
  utf8_octets, utf8_encode, utf8_decode, lead2, lead3, lead4, continuation, decode_from, decode2,
  decode3, decode4,
}
use windows_libc.Convert.Utf8.Laws.{
  lead2-eq, lead3-eq, lead4-eq, continuation-eq, is_continuation-eq, has_lead2-eq, has_lead3-eq,
  has_lead4-eq, code2-eq, code3-eq, code4-eq,
}
use windows_libc.Common.Bits.{bit_and_mask}

-- A Unicode scalar value: a code point that is no surrogate.
pub record IsScalar (cp : ℕ) : Type 0 where
  pub in_range : cp ≤ 0x10ffff
  pub no_surrogate : (cp < 0xd800) ⊎ (0xdfff < cp)

one_byte :
    (cp : ℕ) (rest : List ℕ) (size : ℕ)
    → cp ≤ 0x7f
    → 1 ≤ size
    → utf8_decode (bit_and cp 0x7f ∷ rest) size ≡ some (1, cp)
unfolding utf8_decode decode_from
one_byte cp rest size h s = ground (arith, bit_and_mask 7 cp)

two_bytes :
    (cp : ℕ) (rest : List ℕ) (size : ℕ)
    → 0x80 ≤ cp
    → cp ≤ 0x7ff
    → 2 ≤ size
    → utf8_decode (lead2 (cp / 2 ^ 6) ∷ continuation cp ∷ rest) size ≡ some (2, cp)
unfolding utf8_decode decode_from decode2
two_bytes cp rest size l h s =
    let a = lead2 (cp / 2 ^ 6) in
    let b = continuation cp in
    ground (
      arith,
      lead2-eq (cp / 2 ^ 6),
      continuation-eq cp,
      has_lead2-eq a,
      is_continuation-eq b,
      code2-eq a (a ∷ b ∷ rest),
    )

three_bytes :
    (cp : ℕ) (rest : List ℕ) (size : ℕ)
    → 0x800 ≤ cp
    → cp ≤ 0xffff
    → (cp < 0xd800) ⊎ (0xdfff < cp)
    → 3 ≤ size
    → utf8_decode (lead3 (cp / 2 ^ 12) ∷ continuation (cp / 2 ^ 6) ∷ continuation cp ∷ rest) size
      ≡ some (3, cp)
unfolding utf8_decode decode_from decode3
three_bytes cp rest size l h n s =
    let a = lead3 (cp / 2 ^ 12) in
    let b = continuation (cp / 2 ^ 6) in
    let c = continuation cp in
    ground (
      arith,
      lead3-eq (cp / 2 ^ 12),
      continuation-eq (cp / 2 ^ 6),
      continuation-eq cp,
      has_lead2-eq a,
      has_lead3-eq a,
      is_continuation-eq b,
      is_continuation-eq c,
      code3-eq a (a ∷ b ∷ c ∷ rest),
    )

pub four_bytes :
    (cp : ℕ) (rest : List ℕ) (size : ℕ)
    → 0x10000 ≤ cp
    → cp ≤ 0x1fffff
    → 4 ≤ size
    → utf8_decode
        (lead4 (cp / 2 ^ 18)
          ∷ continuation (cp / 2 ^ 12)
          ∷ continuation (cp / 2 ^ 6)
          ∷ continuation cp
          ∷ rest)
        size
      ≡ some (4, cp)
unfolding utf8_decode decode_from decode4
four_bytes cp rest size l h s =
    let a = lead4 (cp / 2 ^ 18) in
    let b = continuation (cp / 2 ^ 12) in
    let c = continuation (cp / 2 ^ 6) in
    let d = continuation cp in
    ground (
      arith,
      lead4-eq (cp / 2 ^ 18),
      continuation-eq (cp / 2 ^ 12),
      continuation-eq (cp / 2 ^ 6),
      continuation-eq cp,
      has_lead2-eq a,
      has_lead3-eq a,
      has_lead4-eq a,
      is_continuation-eq b,
      is_continuation-eq c,
      is_continuation-eq d,
      code4-eq a (a ∷ b ∷ c ∷ d ∷ rest),
    )

-- Every Unicode scalar value is encoded in `utf8_octets` bytes, and the decoder returns that count
-- and the value from these bytes, whatever follows, where the size that it is given covers them.
pub utf8_decode-encode :
    (cp : ℕ) (rest : List ℕ) (size : ℕ)
    → IsScalar cp
    → utf8_octets cp ≤ size
    → (length (utf8_encode cp) ≡ utf8_octets cp)
      × (utf8_decode (utf8_encode cp ++ rest) size ≡ some (utf8_octets cp, cp))
unfolding utf8_encode utf8_octets
utf8_decode-encode cp rest size s h = ground (
  arith,
  s.in_range,
  s.no_surrogate,
  one_byte cp rest size,
  two_bytes cp rest size,
  three_bytes cp rest size,
  four_bytes cp rest size,
)
