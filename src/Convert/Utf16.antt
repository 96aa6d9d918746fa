-- ===== src/Convert/Utf16.antt =====
-- UTF-16 (src/internal/convert.c): `utf16_octets`, `utf16_encode` and `utf16_decode`. The text is a
-- list of 16-bit units, two bytes each; the encoder's is `[]` where it returns 0. The decoder returns
-- the count of bytes and the code point; `none` is its 0.
pub mod Laws
use windows_libc.Common.{
  ℕ, zero, suc, ◌+◌, ◌-◌, ◌*◌, ◌/◌, ◌%◌, ◌^◌, ◌≤◌, ◌<◌, min, max, bit_and, bit_or, bit_xor, ◌≡◌,
  refl, sym, ap, ◌∙◌, ◌≢◌, ◌↔◌, ◌⊎◌, inl, inr, Bool, true, false, ◌&&◌, ◌||◌, not, Option, none,
  some, List, [], ◌∷◌, ◌++◌, map, append-nil, append_assoc, reverse, reverse_snoc, length-reverse,
  arith, ltb, leb, ◌==◌, if◌then◌else◌, Bool-cases, Option-cases, length, get_elem?, set, get_or,
  take, drop, replicate, length-append, length-set, length-take, length-drop, length-replicate,
  take-append, drop-append, take-take-append, take-set, drop-cons, drop-nil, get_elem?-set_self,
  get_elem?-set_ne, ==_iff, &&_true, ltb→lt, lt→ltb, leb→le, u8, u16, u32, u64,
}

unfoldable pub utf16_octets : ℕ → ℕ
utf16_octets cp = if leb cp 0xffff then 2 else if leb cp 0x10ffff then 4 else 0

unfoldable pub utf16_encode : ℕ → List ℕ
utf16_encode cp =
    let v = cp - 0x10000 in
    if ltb 0x10ffff cp
    then []
    else if leb cp 0xffff
    then u16 cp ∷ []
    else bit_or 0xd800 (bit_and (v / 2 ^ 10) 0x3ff) ∷ bit_or 0xdc00 (bit_and v 0x3ff) ∷ []

unfoldable pub pair_code : ℕ → ℕ → ℕ
pair_code high low = bit_or (bit_and high 0x3ff * 2 ^ 10) (bit_and low 0x3ff) + 0x10000

unfoldable pub utf16_decode : List ℕ → ℕ → Option (ℕ × ℕ)
utf16_decode xs size =
    let high = get_or xs 0 0 in
    let low = get_or xs 1 0 in
    if ltb size 2
    then none
    else if ltb high 0xd800 || ltb 0xdfff high
    then some (2, high)
    else if leb 0xd800 high && leb high 0xdbff
    then (if ltb size 4
        then none
        else if leb 0xdc00 low && leb low 0xdfff
        then some (4, pair_code high low)
        else none)
    else none
