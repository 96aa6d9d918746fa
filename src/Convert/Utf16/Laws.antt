-- ===== src/Convert/Utf16/Laws.antt =====
-- UTF-16: encoding followed by decoding, and what the decoder accepts.
use windows_libc.Common.{
  ℕ, ◌+◌, ◌-◌, ◌*◌, ◌/◌, ◌%◌, ◌^◌, ◌≤◌, ◌<◌, bit_and, bit_or, ◌≡◌, ◌⊎◌, inl, inr, some, List, [],
  ◌∷◌, ◌++◌, arith, ◌==◌, Bool-cases, length, get_or, take,
}
use windows_libc.Common.Bits.{bit_and_mask, bit_or_fields}
use windows_libc.Convert.Utf8.RoundTrip.{IsScalar}
use windows_libc.Convert.Utf16.{utf16_octets, utf16_encode, utf16_decode, pair_code}

pair_code-eq : (h l : ℕ) → pair_code h l ≡ h % 1024 * 1024 + l % 1024 + 0x10000
unfolding pair_code
pair_code-eq h l =
    ground (arith, bit_and_mask 10 h, bit_and_mask 10 l, bit_or_fields 10 (h % 1024) (l % 1024))

high-eq : (x : ℕ) → bit_or 0xd800 (bit_and x 0x3ff) ≡ 0xd800 + x % 1024
high-eq x = ground (arith, bit_and_mask 10 x, bit_or_fields 10 54 (x % 1024))

low-eq : (x : ℕ) → bit_or 0xdc00 (bit_and x 0x3ff) ≡ 0xdc00 + x % 1024
low-eq x = ground (arith, bit_and_mask 10 x, bit_or_fields 10 55 (x % 1024))

-- Every Unicode scalar value is encoded in `utf16_octets` bytes, and the decoder returns that count
-- and the value from these units, whatever follows, where the size that it is given covers them.
pub utf16_decode-encode :
    (cp : ℕ) (rest : List ℕ) (size : ℕ)
    → IsScalar cp
    → utf16_octets cp ≤ size
    → (2 * length (utf16_encode cp) ≡ utf16_octets cp)
      × (utf16_decode (utf16_encode cp ++ rest) size ≡ some (utf16_octets cp, cp))
unfolding utf16_encode utf16_decode utf16_octets
utf16_decode-encode cp rest size s h =
    let v = cp - 0x10000 in
    let high = bit_or 0xd800 (bit_and (v / 2 ^ 10) 0x3ff) in
    let low = bit_or 0xdc00 (bit_and v 0x3ff) in
    ground
      (arith, s.in_range, s.no_surrogate, high-eq (v / 2 ^ 10), low-eq v, pair_code-eq high low)

abbrev Decoded : List ℕ → ℕ → ℕ → ℕ → Type 0
Decoded xs size n cp =
    (n ≤ size) × IsScalar cp × (n ≡ utf16_octets cp) × (take (n / 2) xs ≡ utf16_encode cp)

one_unit :
    (a : ℕ) (xs : List ℕ) (size : ℕ)
    → 2 ≤ size
    → a < 2 ^ 16
    → (a < 0xd800) ⊎ (0xdfff < a)
    → Decoded (a ∷ xs) size 2 a
unfolding utf16_encode utf16_octets
one_unit a xs size s h n =
    (s, record { in_range = omega arith; no_surrogate = n }, ground arith, ground arith)

two_units :
    (a b : ℕ) (xs : List ℕ) (size : ℕ)
    → 4 ≤ size
    → 0xd800 ≤ a
    → a ≤ 0xdbff
    → 0xdc00 ≤ b
    → b ≤ 0xdfff
    → Decoded (a ∷ b ∷ xs) size 4 (pair_code a b)
unfolding utf16_encode utf16_octets
two_units a b xs size s h h' l l' =
    let v = pair_code a b - 0x10000 in
    (
      s,
      record {
        in_range = ground (arith, pair_code-eq a b);
        no_surrogate = ground (arith, pair_code-eq a b);
      },
      ground (arith, pair_code-eq a b),
      ground (arith, pair_code-eq a b, high-eq (v / 2 ^ 10), low-eq v),
    )

Decoded-as :
    (xs : List ℕ) (size : ℕ) {m n c cp : ℕ}
    → m ≡ n
    → c ≡ cp
    → Decoded xs size m c
    → Decoded xs size n cp
Decoded-as xs size e f d = rw (← e, ← f) d

-- What the decoder returns from 16-bit units that cover the size: a count of 2 or 4 within the
-- size, a Unicode scalar value, and the units counted are exactly those that the encoder writes for
-- it.
pub utf16_decode_sound :
    (xs : List ℕ) (size : ℕ) {n cp : ℕ}
    → size ≤ 2 * length xs
    → ((k : ℕ) → get_or xs k 0 < 2 ^ 16)
    → utf16_decode xs size ≡ some (n, cp)
    → (n ≤ size) × IsScalar cp × (n ≡ utf16_octets cp) × (take (n / 2) xs ≡ utf16_encode cp)
unfolding utf16_decode
utf16_decode_sound [] size fits units e = absurd (ground arith)
utf16_decode_sound (a ∷ []) size fits units e =
    Decoded-as _ _ (ground arith) (ground arith)
      (one_unit a [] size (ground arith) (units 0) (ground arith))
utf16_decode_sound (a ∷ b ∷ xs) size {n} fits units e = elim (Bool-cases (n == 2)) [
  | inl two ↦
      Decoded-as _ _ (ground arith) (ground arith)
        (one_unit a (b ∷ xs) size (ground arith) (units 0) (ground arith))
  | inr four ↦ Decoded-as _ _ (ground arith) (ground arith) (
      two_units a b xs size (ground arith) (ground arith) (ground arith) (ground arith)
        (ground arith))
]
