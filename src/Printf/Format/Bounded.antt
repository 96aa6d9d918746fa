-- ===== src/Printf/Format/Bounded.antt =====
-- Literal text through `wlibc_vsnprintf` and through a buffer that cannot grow (src/stdio/printf.c).
use windows_libc.Common.{
  ℕ, zero, suc, ◌+◌, ◌^◌, ◌≤◌, ◌<◌, ◌≡◌, refl, sym, ap, ◌∙◌, ◌≢◌, Bool, true, false, none, some,
  List, [], ◌∷◌, ◌++◌, append_assoc, arith, ltb, leb, ◌==◌, if◌then◌else◌, length, set, take, drop,
  length-take, u32,
}
use windows_libc.Buffer.{Buffer}
use windows_libc.Buffer.Fixed.{At, set-append, writebyte_fits, writebyte_full}
use windows_libc.Printf.{perform}
use windows_libc.Printf.Format.{
  PrintState, Answer, answered, undefined, unfinished, stores_of, printf_loop, printf_internal,
  terminated, vsnprintf, capped,
}
use windows_libc.Varargs.{variadic_args_init}

-- A text without conversions.
abbrev pub Literal : List ℕ → Type 0
Literal [] = Unit
Literal (c ∷ cs) = (c ≢ b'%') × Literal cs

-- A text over an array: what does not fit is left out.
over : List ℕ → List ℕ → List ℕ
over [] text = []
over (r ∷ rest) [] = r ∷ rest
over (r ∷ rest) (x ∷ text) = x ∷ over rest text

over_none : (rest : List ℕ) → over rest [] ≡ rest
unfolding over
over_none [] = refl
over_none (r ∷ rest) = refl

-- An answer with this count and this array.
abbrev Shows : ℕ → List ℕ → Answer → Type 0
Shows n bytes undefined = ⊥
Shows n bytes unfinished = ⊥
Shows n bytes (answered none s) = ⊥
Shows n bytes (answered (some m) s) = (m ≡ n) × (s.buffer.bytes ≡ bytes)

-- The state behind a byte of literal text.
abbrev after : PrintState → Buffer → PrintState
after s b = record s { buffer = b; result = u32 (s.result + 1); stored = s.stored ++ [] }

module _ (float_hex : Bool → ℕ → List ℕ) (text_at : ℕ → ℕ → List ℕ) (alloc : ℕ → Bool)
    (source : ℕ → ℕ) where
  printf_loop-Shows :
      (text : List ℕ) (fuel : ℕ) (s : PrintState) (before rest : List ℕ)
      → length text < fuel
      → Literal text
      → At s.buffer before rest
      → s.result < 2 ^ 32
      → Shows
          (u32 (s.result + length text))
          (before ++ over rest text)
          (printf_loop none float_hex text_at alloc source fuel text s)
  unfolding printf_loop over perform stores_of
  printf_loop-Shows text zero s before rest f l a k = absurd (omega arith)
  printf_loop-Shows [] (suc fuel) s before rest f l a k =
      (omega arith, a.array ∙ ap (λ xs. before ++ xs) (sym (over_none rest)))
  printf_loop-Shows (c ∷ text) (suc fuel) s before [] f l a k =
      let other : (c == b'%') ≡ false = ground (arith, l.0) in
      let full = writebyte_full s.buffer before c a in
      let count : u32 (u32 (s.result + 1) + length text) ≡ u32 (s.result + suc (length text)) =
        omega arith in
      rw (other, full, ← count)
        (printf_loop-Shows text fuel (after s s.buffer) before [] (omega arith) l.1 a (omega arith))
  printf_loop-Shows (c ∷ text) (suc fuel) s before (r ∷ rest) f l a k =
      let other : (c == b'%') ≡ false = ground (arith, l.0) in
      let (b, fits, a') = writebyte_fits s.buffer before rest r c a in
      let count : u32 (u32 (s.result + 1) + length text) ≡ u32 (s.result + suc (length text)) =
        omega arith in
      rw (other, fits, ← count, ← append_assoc before (c ∷ []) (over rest text))
        (printf_loop-Shows text fuel (after s b) (before ++ c ∷ []) rest (omega arith) l.1 a'
          (omega arith))

over_fits :
    (rest text : List ℕ)
    → length text ≤ length rest
    → over rest text ≡ text ++ drop (length text) rest
unfolding over
over_fits [] [] h = refl
over_fits [] (x ∷ text) h = absurd (omega arith)
over_fits (r ∷ rest) [] h = refl
over_fits (r ∷ rest) (x ∷ text) h = ap (λ xs. x ∷ xs) (over_fits rest text (omega arith))

over_cuts :
    (rest text : List ℕ) → length rest ≤ length text → over rest text ≡ take (length rest) text
unfolding over
over_cuts [] text h = refl
over_cuts (r ∷ rest) [] h = absurd (omega arith)
over_cuts (r ∷ rest) (x ∷ text) h = ap (λ xs. x ∷ xs) (over_cuts rest text (omega arith))

drop_one : (n : ℕ) (xs : List ℕ) → n < length xs → (r : ℕ) × (drop n xs ≡ r ∷ drop (suc n) xs)
drop_one n [] h = absurd (omega arith)
drop_one zero (x ∷ xs) h = (x, refl)
drop_one (suc n) (x ∷ xs) h = drop_one n xs (omega arith)

-- What `wlibc_vsnprintf` does with such an answer.
terminated-Shows :
    (size n : ℕ) (bytes : List ℕ) (o : Answer)
    → size < 2 ^ 31
    → n < 2 ^ 31
    → Shows n bytes o
    → terminated size o ≡ some (some n, if ltb n size then set bytes n 0 else bytes)
terminated-Shows size n bytes (answered (some m) s) h k (e, f) =
    let low : leb (2 ^ 31) m ≡ false = ground arith in
    let small : ltb size (2 ^ 31) ≡ true = ground arith in rw (low, small, e, f) refl
terminated-Shows size n bytes (answered none s) h k e = absurd e
terminated-Shows size n bytes undefined h k e = absurd e
terminated-Shows size n bytes unfinished h k e = absurd e

module _ (float_hex : Bool → ℕ → List ℕ) (text_at : ℕ → ℕ → List ℕ) (alloc : ℕ → Bool)
    (source : ℕ → ℕ) (bytes format : List ℕ) (room : 0 < length bytes)
    (small : length bytes < 2 ^ 31) (literal : Literal (capped format)) where
  vsnprintf_literal :
      vsnprintf float_hex text_at alloc source bytes (length bytes) format
      ≡ some (
        some (length (capped format)),
        if ltb (length (capped format)) (length bytes)
            then set (over bytes (capped format)) (length (capped format)) 0
            else over bytes (capped format),
      )
  unfolding vsnprintf printf_internal
  vsnprintf_literal =
      let short : length (capped format) < 2 ^ 31 = omega (arith, length-take 65536 format) in
      let some_room : (length bytes == 0) ≡ false = ground arith in
      let width : u32 (length bytes) ≡ length bytes = omega arith in
      let count : u32 (0 + length (capped format)) ≡ length (capped format) = omega arith in
      let shown =
        printf_loop-Shows float_hex text_at alloc source (capped format)
          (length (capped format) + 1)
          (record {
            args = variadic_args_init;
            result = 0;
            buffer = record { bytes = bytes; pos = 0; size = length bytes; error = false };
            stored = [];
          })
          [] bytes (omega arith) literal
          (record { no_error = refl; array = refl; place = refl; sized = omega arith })
          (omega arith) in
      rw (some_room, width)
        (terminated-Shows (length bytes) (length (capped format)) (over bytes (capped format)) _
          small short (rw count at shown))

  -- The format is read up to 65536 bytes. Where these have no `%` and are fewer than the array has, which
  -- is below 2 ^ 31 bytes: the array has them and a NUL, and behind that what it had; the answer is the
  -- number of the bytes that were read.
  pub vsnprintf_fits :
      length (capped format) < length bytes
      → vsnprintf float_hex text_at alloc source bytes (length bytes) format
        ≡ some (
          some (length (capped format)),
          capped format ++ (0 ∷ drop (length (capped format) + 1) bytes),
        )
  vsnprintf_fits less =
      let inside : ltb (length (capped format)) (length bytes) ≡ true = ground arith in
      let next : length (capped format) + 1 ≡ suc (length (capped format)) = omega arith in
      let (r, e) = drop_one (length (capped format)) bytes less in
      vsnprintf_literal
      ∙ rw (
        inside,
        over_fits bytes (capped format) (omega arith),
        e,
        next,
        set-append (capped format) (drop (suc (length (capped format))) bytes) r 0,
      )

  -- The format is read up to 65536 bytes. Where these have no `%` and are at least as many as the array
  -- has, which are one or more and fewer than 2 ^ 31: the array is full of the first of them, with no NUL
  -- behind them, and the answer is the number of the bytes that were read.
  pub vsnprintf_cut :
      length bytes ≤ length (capped format)
      → vsnprintf float_hex text_at alloc source bytes (length bytes) format
        ≡ some (some (length (capped format)), take (length bytes) (capped format))
  vsnprintf_cut more =
      let full : ltb (length (capped format)) (length bytes) ≡ false = ground arith in
      vsnprintf_literal ∙ rw (full, over_cuts bytes (capped format) more)
