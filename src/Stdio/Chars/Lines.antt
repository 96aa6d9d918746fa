-- ===== src/Stdio/Chars/Lines.antt =====
-- `common_fgets` on the bytes ahead of a stream.
use windows_libc.Common.{
  ℕ, zero, suc, ◌-◌, ◌<◌, ◌≡◌, refl, sym, ap, ◌∙◌, inl, inr, Bool, true, false, ◌&&◌, Option, some,
  List, [], ◌∷◌, ◌++◌, arith, ltb, ◌==◌, Bool-cases, &&_true, ltb→lt, u8,
}
use windows_libc.Common.Int.{negsuc}
use windows_libc.Stdio.{Device, Stream, clear, minus, minus_of_le}
use windows_libc.Stdio.Read.Loops.{Reads}
use windows_libc.Stdio.Read.Ahead.{ahead}
use windows_libc.Stdio.Read.Refine.{IsReadable}
use windows_libc.Stdio.Chars.{char_of, to_byte, is_eof, eof, fgetc, put_before, gets, fgets}
use windows_libc.Stdio.Chars.Refine.{fgetc-Next, fgetc_end}

to_byte-char_of : (b : ℕ) → b < 256 → to_byte (char_of b) ≡ b
unfolding to_byte char_of
to_byte-char_of b small = elim (Bool-cases (ltb b 128)) [
  | inl low ↦ simp low (ground (arith, u8))
  | inr high ↦ simp high (ground (arith, u8))
]

is_eof-negsuc : (n : ℕ) → 0 < n → is_eof (negsuc n) ≡ false
unfolding is_eof
is_eof-negsuc zero h = absurd (omega arith)
is_eof-negsuc (suc n) h = refl

is_eof-char_of : (b : ℕ) → b < 255 → is_eof (char_of b) ≡ false
unfolding is_eof char_of
is_eof-char_of b small = elim (Bool-cases (ltb b 128)) [
  | inl low ↦ simp low refl
  | inr high ↦ simp high (is_eof-negsuc (255 - b) (omega arith))
]

-- The line at the front of some bytes: up to its newline, and at most `n` bytes.
unfoldable pub first_line : ℕ → List ℕ → List ℕ
first_line zero bs = []
first_line (suc n) [] = []
first_line (suc n) (b ∷ bs) = b ∷ (elim (b == 10) [ true ↦ [] | false ↦ first_line n bs ])

-- Every byte is below 255.
unfoldable pub is_text : List ℕ → Bool
is_text [] = true
is_text (b ∷ bs) = ltb b 255 && is_text bs

module _ {S : Type 0} (dev : Device S) (left : S → List ℕ) (law : Reads dev left) where
  gets_end :
      (heap : Option (List ℕ)) (junk n : ℕ) (s s' : Stream S)
      → fgetc dev heap junk s ≡ some (eof, s')
      → gets dev heap junk (suc n) s ≡ some ([], s')
  unfolding gets to_byte char_of is_eof
  gets_end heap junk n s s' e = rw (e, gets) refl

  module _ (heap : Option (List ℕ)) (junk n b : ℕ) (s s' : Stream S)
      (e : fgetc dev heap junk s ≡ some (char_of b, s')) (small : b < 255) where
    byte : to_byte (char_of b) ≡ b
    byte = to_byte-char_of b (omega arith)

    not_eof : is_eof (char_of (to_byte (char_of b))) ≡ false
    not_eof = ap (λ x. is_eof (char_of x)) byte ∙ is_eof-char_of b small

    gets_newline : (b == 10) ≡ true → gets dev heap junk (suc n) s ≡ some (b ∷ [], s')
    unfolding gets
    gets_newline line =
        let line' : (to_byte (char_of b) == 10) ≡ true = ap (λ x. x == 10) byte ∙ line in
        rw (e, not_eof, line', gets) (ap (λ x. some (x ∷ [], s')) byte)

    gets_more :
        (b == 10) ≡ false → gets dev heap junk (suc n) s ≡ put_before b (gets dev heap junk n s')
    unfolding gets
    gets_more line =
        let line' : (to_byte (char_of b) == 10) ≡ false = ap (λ x. x == 10) byte ∙ line in
        rw (e, not_eof, line', gets) (ap (λ x. put_before x (gets dev heap junk n s')) byte)

  gets-Line :
      (heap : Option (List ℕ)) (junk n : ℕ) (bs : List ℕ) (s : Stream S)
      → IsReadable s
      → ahead left s ≡ bs
      → is_text (first_line n bs) ≡ true
      → (s' : Stream S) × (gets dev heap junk n s ≡ some (first_line n bs, s'))
        × (ahead left s ≡ first_line n bs ++ ahead left s')
  unfolding first_line is_text gets
  gets-Line heap junk zero bs s r next text = (s, refl, refl)
  gets-Line heap junk (suc n) [] s r next text =
      let (s', returned, flag, over) = fgetc_end dev left law heap junk s r next in
      (s', gets_end heap junk n s s' returned, next ∙ sym over)
  gets-Line heap junk (suc n) (b ∷ bs) s r next text =
      let (s1, returned, rest, r1) = fgetc-Next dev left law heap junk b bs s r next in
      let small : b < 255 = ltb→lt _ _ ((&&_true _ _ text).0) in
      elim (Bool-cases (b == 10)) [
        | inl line ↦ (
          s1,
          gets_newline heap junk n b s s1 returned small line ∙ rw (line, first_line) refl,
          rw (line, first_line) (next ∙ ap (λ ys. b ∷ ys) (sym rest)),
        )
        | inr other ↦
            let line : first_line (suc n) (b ∷ bs) ≡ b ∷ first_line n bs =
              rw (other, first_line) refl in
            let text' : is_text (first_line n bs) ≡ true =
              (&&_true _ _ (ap is_text (sym line) ∙ text)).1 in
            let (s2, more, split) = gets-Line heap junk n bs s1 r1 rest text' in
            (
              s2,
              gets_more heap junk n b s s1 returned small other
                  ∙ ap (put_before b) more
                  ∙ ap (λ ys. some (ys, s2)) (sym line),
              next
                  ∙ ap (λ ys. b ∷ ys) (sym rest ∙ split)
                  ∙ ap (λ ys. ys ++ ahead left s2) (sym line),
            )
      ]

  -- `common_fgets` with room for a byte or more on a buffered stream that can be read, was not
  -- written to last, met no error and has its buffer, over a descriptor that reads without errors,
  -- where the line ahead has no byte of 255 or more: it returns, the string is the first line
  -- ahead, cut to the room less one, and the stream goes on behind it.
  pub fgets-Line :
      (heap : Option (List ℕ)) (junk count : ℕ) (s : Stream S)
      → IsReadable s
      → 0 < count
      → is_text (first_line (count - 1) (ahead left s)) ≡ true
      → (s' : Stream S) × (fgets dev heap junk count s
          ≡ some (first_line (count - 1) (ahead left s), s'))
        × (ahead left s ≡ first_line (count - 1) (ahead left s) ++ ahead left s')
  unfolding fgets
  fgets-Line heap junk count s r positive text =
      rw (minus_of_le count 1 (omega arith))
        (gets-Line heap junk (count - 1) (ahead left s) s r refl text)

  -- `common_fgets` with room for two bytes or more on a buffered stream that can be read, was not
  -- written to last, met no error and has its buffer, over a descriptor that reads without errors,
  -- where a byte 255 is next: it takes the byte from the stream and gives an empty string, as at
  -- the end of the file, but no flag is set.
  pub fgets_at_255 :
      (heap : Option (List ℕ)) (junk count : ℕ) (bs : List ℕ) (s : Stream S)
      → IsReadable s
      → 1 < count
      → ahead left s ≡ 255 ∷ bs
      → (s' : Stream S) × (fgets dev heap junk count s ≡ some ([], s'))
        × (ahead left s' ≡ bs)
        × (s'.error ≡ clear)
  unfolding fgets char_of
  fgets_at_255 heap junk count bs s r room next =
      let (s', returned, rest, r') = fgetc-Next dev left law heap junk 255 bs s r next in
      let n : minus count 1 ≡ suc (count - 2) = minus_of_le count 1 (omega arith) ∙ omega arith in
      (s', rw n (gets_end heap junk (count - 2) s s' returned), rest, r'.fine)
