-- ===== src/Tests/Text.antt =====
-- The conversions (src/internal/convert.c) and buffers (src/internal/buffer.c) at concrete inputs.
use windows_libc.Common.{
  ℕ, zero, suc, ◌^◌, ◌≤◌, ◌<◌, ◌≡◌, refl, ◌⊎◌, inl, Bool, true, false, none, some, List, [], ◌∷◌,
  ◌++◌, arith, length, get_or, take,
}
use windows_libc.Buffer.{Buffer, writen, memory_buffer_write}
use windows_libc.Buffer.View.{Reads}
use windows_libc.Buffer.Write.{IsValid, Written, writen-Written}
use windows_libc.Convert.Decimal.{int_to_dec, int_from_dec}
use windows_libc.Convert.Radix.{hex_nibble, oct_value, bin_value, uint_to_bin}
use windows_libc.Convert.Radix.Bases.{uint_to_bin_overrun}
use windows_libc.Convert.RoundTrip.{IsReadBack, int_to_dec-IsReadBack}
use windows_libc.Convert.Utf8.{
  utf8_octets, utf8_encode, utf8_decode, decode_from, has_lead2, has_lead3, decode3,
  is_continuation, code3, payload,
}
use windows_libc.Convert.Utf8.RoundTrip.{IsScalar, utf8_decode-encode}
use windows_libc.Convert.Utf8.Sound.{utf8_decode_sound}
use windows_libc.Convert.Utf16.{utf16_octets, utf16_decode, pair_code}

-- A space, at which every number ends.
abbrev space : List ℕ
space = b' ' ∷ []

abbrev before : List ℕ
before = b'a' ∷ []

space_hex : hex_nibble b' ' ≡ none
unfolding hex_nibble
space_hex = refl

space_oct : oct_value b' ' ≡ none
unfolding oct_value
space_oct = refl

space_bin : bin_value b' ' ≡ none
unfolding bin_value
space_bin = refl

uint_to_bin_overrun_example : uint_to_bin (2 ^ 40) ≡ none
uint_to_bin_overrun_example = uint_to_bin_overrun (2 ^ 40) (omega arith) (omega arith)

int_to_dec-IsReadBack_example :
    IsReadBack (λ b. int_from_dec b 0x50) (2 ^ 63) 27 before space (int_to_dec (2 ^ 63) 0x50)
int_to_dec-IsReadBack_example =
    int_to_dec-IsReadBack (2 ^ 63) 0x50 before space (omega arith) (omega arith) (refl, omega arith)

abbrev text : Buffer
text = record { bytes = b'7' ∷ b'f' ∷ b'x' ∷ []; pos = 0; size = 3; error = false }

text-Reads : Reads text (b'7' ∷ b'f' ∷ b'x' ∷ [])
text-Reads = record { no_error = refl; whole = refl; left = refl }

text-IsValid : IsValid text
text-IsValid = record { no_error = refl; whole = refl; within = omega arith; small = omega arith }

abbrev works : ℕ → Bool
works n = true

writen-Written_example :
    Written text
      (1 ∷ 2 ∷ 3 ∷ 4 ∷ [])
      (writen (some (memory_buffer_write works)) text (1 ∷ 2 ∷ 3 ∷ 4 ∷ []))
writen-Written_example = writen-Written works (1 ∷ 2 ∷ 3 ∷ 4 ∷ []) text-IsValid (omega arith)

euro-IsScalar : IsScalar 0x20ac
euro-IsScalar = record { in_range = omega arith; no_surrogate = inl (omega arith) }

euro_octets : utf8_octets 0x20ac ≡ 3
unfolding utf8_octets
euro_octets = refl

utf8_decode-encode_example :
    (length (utf8_encode 0x20ac) ≡ utf8_octets 0x20ac)
    × (utf8_decode (utf8_encode 0x20ac ++ space) 4 ≡ some (utf8_octets 0x20ac, 0x20ac))
utf8_decode-encode_example =
    utf8_decode-encode 0x20ac space 4 euro-IsScalar (omega (arith, euro_octets))

abbrev euro : List ℕ
euro = 0xe2 ∷ 0x82 ∷ 0xac ∷ []

euro_bytes : (k : ℕ) → get_or euro k 0 < 256
euro_bytes zero = omega arith
euro_bytes (suc zero) = omega arith
euro_bytes (suc (suc zero)) = omega arith
euro_bytes (suc (suc (suc k))) = omega arith

euro_decoded : utf8_decode euro 3 ≡ some (3, 0x20ac)
unfolding utf8_decode decode_from has_lead2 has_lead3 decode3 is_continuation code3 payload
euro_decoded = refl

utf8_decode_sound_example :
    (3 ≤ 3)
    × (0x20ac < 0x200000)
    × ((0x20ac < 0xd800) ⊎ (0xdfff < 0x20ac))
    × ((0x10ffff < 0x20ac) ⊎ (take 3 euro ≡ utf8_encode 0x20ac))
utf8_decode_sound_example = utf8_decode_sound euro 3 (omega arith) euro_bytes euro_decoded

euro_units : utf16_octets 0x20ac ≡ 2
unfolding utf16_octets
euro_units = refl

abbrev clef : List ℕ
clef = 0xd834 ∷ 0xdd1e ∷ []

clef_units : (k : ℕ) → get_or clef k 0 < 2 ^ 16
clef_units zero = omega arith
clef_units (suc zero) = omega arith
clef_units (suc (suc k)) = omega arith

clef_decoded : utf16_decode clef 4 ≡ some (4, 0x1d11e)
unfolding utf16_decode pair_code
clef_decoded = refl
