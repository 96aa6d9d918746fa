-- ===== src/Convert/Utf8.antt =====
-- UTF-8 (src/internal/convert.c): `utf8_octets`, `utf8_encode` and `utf8_decode`. The bytes that the
-- encoder writes are a list, `[]` where it returns 0. The decoder returns the count of bytes and the
-- code point; `none` is its 0, after which what `*codepoint` holds is not modelled.
pub mod Laws
pub mod RoundTrip
pub mod Sound
use windows_libc.Common.{
  ℕ, zero, suc, ◌+◌, ◌-◌, ◌*◌, ◌/◌, ◌%◌, ◌^◌, ◌≤◌, ◌<◌, min, max, bit_and, bit_or, bit_xor, ◌≡◌,
  refl, sym, ap, ◌∙◌, ◌≢◌, ◌↔◌, ◌⊎◌, inl, inr, Bool, true, false, ◌&&◌, ◌||◌, not, Option, none,
  some, List, [], ◌∷◌, ◌++◌, map, append-nil, append_assoc, reverse, reverse_snoc, length-reverse,
  arith, ltb, leb, ◌==◌, if◌then◌else◌, Bool-cases, Option-cases, length, get_elem?, set, get_or,
  take, drop, replicate, length-append, length-set, length-take, length-drop, length-replicate,
  take-append, drop-append, take-take-append, take-set, drop-cons, drop-nil, get_elem?-set_self,
  get_elem?-set_ne, ==_iff, &&_true, ltb→lt, lt→ltb, leb→le, u8, u16, u32, u64,
}

unfoldable pub utf8_octets : ℕ → ℕ
utf8_octets cp =
    if leb cp 0x7f
    then 1
    else if leb 0x80 cp && leb cp 0x7ff
    then 2
    else if leb 0x800 cp && leb cp 0xffff
    then 3
    else if leb 0x10000 cp && leb cp 0x10ffff
    then 4
    else 0

-- A lead byte and a continuation byte: a tag over a field of the code point.
unfoldable pub lead2 : ℕ → ℕ
lead2 x = bit_or 0xc0 (bit_and x 0x1f)

unfoldable pub lead3 : ℕ → ℕ
lead3 x = bit_or 0xe0 (bit_and x 0x0f)

unfoldable pub lead4 : ℕ → ℕ
lead4 x = bit_or 0xf0 (bit_and x 0x07)

unfoldable pub continuation : ℕ → ℕ
continuation x = bit_or 0x80 (bit_and x 0x3f)

unfoldable pub utf8_encode : ℕ → List ℕ
utf8_encode cp =
    if leb cp 0x7f
    then bit_and cp 0x7f ∷ []
    else if leb 0x80 cp && leb cp 0x7ff
    then lead2 (cp / 2 ^ 6) ∷ continuation cp ∷ []
    else if leb 0x800 cp && leb cp 0xffff
    then lead3 (cp / 2 ^ 12) ∷ continuation (cp / 2 ^ 6) ∷ continuation cp ∷ []
    else if leb 0x10000 cp && leb cp 0x10ffff
    then lead4 (cp / 2 ^ 18)
      ∷ continuation (cp / 2 ^ 12)
      ∷ continuation (cp / 2 ^ 6)
      ∷ continuation cp
      ∷ []
    else []

-- `(byte & 0xC0) == 0x80`.
unfoldable pub is_continuation : ℕ → Bool
is_continuation byte = bit_and byte 0xc0 == 0x80

unfoldable pub payload : ℕ → ℕ
payload byte = bit_and byte 0x3f

abbrev pub at : List ℕ → ℕ → ℕ
at xs i = get_or xs i 0

unfoldable pub code2 : ℕ → List ℕ → ℕ
code2 byte xs = bit_or (bit_and byte 0x1f * 2 ^ 6) (payload (at xs 1))

unfoldable pub code3 : ℕ → List ℕ → ℕ
code3 byte xs =
    bit_or (bit_or (bit_and byte 0x0f * 2 ^ 12) (payload (at xs 1) * 2 ^ 6)) (payload (at xs 2))

unfoldable pub code4 : ℕ → List ℕ → ℕ
code4 byte xs =
    bit_or
      (bit_or (bit_or (bit_and byte 0x07 * 2 ^ 18) (payload (at xs 1) * 2 ^ 12))
        (payload (at xs 2) * 2 ^ 6))
      (payload (at xs 3))

unfoldable pub decode2 : ℕ → List ℕ → ℕ → Option (ℕ × ℕ)
decode2 byte xs size =
    if ltb size 2
    then none
    else if not (is_continuation (at xs 1))
    then none
    else if ltb (code2 byte xs) 0x80
    then none
    else some (2, code2 byte xs)

unfoldable pub decode3 : ℕ → List ℕ → ℕ → Option (ℕ × ℕ)
decode3 byte xs size =
    if ltb size 3
    then none
    else if not (is_continuation (at xs 1))
    then none
    else if not (is_continuation (at xs 2))
    then none
    else if leb 0xd800 (code3 byte xs) && leb (code3 byte xs) 0xdfff
    then none
    else if ltb (code3 byte xs) 0x800
    then none
    else some (3, code3 byte xs)

unfoldable pub decode4 : ℕ → List ℕ → ℕ → Option (ℕ × ℕ)
decode4 byte xs size =
    if ltb size 4
    then none
    else if not (is_continuation (at xs 1))
    then none
    else if not (is_continuation (at xs 2))
    then none
    else if not (is_continuation (at xs 3))
    then none
    else if ltb (code4 byte xs) 0x10000
    then none
    else some (4, code4 byte xs)

unfoldable pub has_lead2 : ℕ → Bool
has_lead2 byte = bit_and byte 0xe0 == 0xc0

unfoldable pub has_lead3 : ℕ → Bool
has_lead3 byte = bit_and byte 0xf0 == 0xe0

unfoldable pub has_lead4 : ℕ → Bool
has_lead4 byte = bit_and byte 0xf8 == 0xf0

unfoldable pub decode_from : ℕ → List ℕ → ℕ → Option (ℕ × ℕ)
decode_from byte xs size =
    if leb byte 0x7f
    then some (1, byte)
    else if has_lead2 byte
    then decode2 byte xs size
    else if has_lead3 byte
    then decode3 byte xs size
    else if has_lead4 byte
    then decode4 byte xs size
    else none

unfoldable pub utf8_decode : List ℕ → ℕ → Option (ℕ × ℕ)
utf8_decode xs size = if size == 0 then none else decode_from (at xs 0) xs size
