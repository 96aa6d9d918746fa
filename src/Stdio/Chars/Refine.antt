-- ===== src/Stdio/Chars/Refine.antt =====
-- `common_fgetc` on the bytes ahead of a stream.
use windows_libc.Common.{
  ℕ, zero, suc, ◌+◌, ◌-◌, ◌≤◌, ◌<◌, ◌≡◌, refl, sym, ap, ◌∙◌, inl, inr, Bool, true, false, ◌&&◌, not,
  Option, some, List, [], ◌∷◌, arith, ◌==◌, Bool-cases, length, get_or, drop, length-append,
  length-take, length-drop,
}
use windows_libc.Stdio.{
  BufMode, Device, Stream, clear, io_eof, op_read, minus, minus_of_le, bytes_at, was_read,
  was_write,
}
use windows_libc.Stdio.Read.{fread}
use windows_libc.Stdio.Read.Loops.{Reads}
use windows_libc.Stdio.Read.Ahead.{HasWindow, ready, ahead, Got, held-Got}
use windows_libc.Stdio.Read.Refine.{IsReadable, fread-Got}
use windows_libc.Stdio.Chars.{char_of, eof, got_char, fgetc}

bytes_at_one : (xs : List ℕ) (i junk : ℕ) → i < length xs → bytes_at xs i 1 ≡ get_or xs i junk ∷ []
bytes_at_one [] i junk h = absurd (omega arith)
bytes_at_one (x ∷ xs) zero junk h = refl
bytes_at_one (x ∷ xs) (suc i) junk h = bytes_at_one xs i junk (omega arith)

module _ {S : Type 0} (dev : Device S) (left : S → List ℕ) (law : Reads dev left) where
  -- A read of one byte with a byte ahead.
  one-Got :
      (b : ℕ) (bs : List ℕ) (s : Stream S) (xs : List ℕ) (s' : Stream S)
      → Got left 1 s xs s'
      → ahead left s ≡ b ∷ bs
      → (xs ≡ b ∷ []) × (ahead left s' ≡ bs) × (s'.error ≡ s.error)
  one-Got b bs s [] s' got next = elim got.complete [
    | inl (one, quiet) ↦ absurd (omega arith)
    | inr (short, over, flag) ↦ absurd (omega (arith, ap length (sym next ∙ got.next ∙ over)))
  ]
  one-Got b bs s (x ∷ []) s' got next = elim got.complete [
    | inl (one, quiet) ↦
        let same : b ∷ bs ≡ x ∷ ahead left s' = sym next ∙ got.next in (cc, cc, quiet)
    | inr (short, over, flag) ↦ absurd (omega arith)
  ]
  one-Got b bs s (x ∷ (y ∷ ys)) s' got next = elim got.complete [
    | inl (one, quiet) ↦ absurd (omega arith)
    | inr (short, over, flag) ↦ absurd (omega arith)
  ]

  Got-IsReadable :
      (s : Stream S) (size : ℕ) (xs : List ℕ) (s' : Stream S)
      → IsReadable s
      → Got left size s xs s'
      → s'.error ≡ s.error
      → IsReadable s'
  Got-IsReadable s size xs s' r got quiet = record {
    window = got.window;
    fine = quiet ∙ r.fine;
    readable = ap (λ (m : BufMode). m.wronly) got.mode ∙ r.readable;
    kind = ap (λ (m : BufMode). m.unbuffered) got.mode ∙ r.kind;
    block = ap (λ (m : BufMode). m.allocated) got.mode ∙ r.block;
    order = ap was_write got.order ∙ r.order;
  }

  -- The test of `fgetc` for a byte in the buffer.
  abbrev is_held : Stream S → Bool
  is_held s =
      not s.buf_mode.unbuffered
      && (was_read s.prev_op && (not (s.start == s.end) && not (s.pos == s.end)))

  fgetc_held :
      (heap : Option (List ℕ)) (junk : ℕ) (s : Stream S)
      → is_held s ≡ true
      → fgetc dev heap junk s
        ≡ some (char_of (get_or s.buffer (minus s.pos s.start) junk), record s { pos = s.pos + 1 })
  unfolding fgetc
  fgetc_held heap junk s held = rw held refl

  fgetc_through :
      (heap : Option (List ℕ)) (junk : ℕ) (s : Stream S)
      → is_held s ≡ false
      → fgetc dev heap junk s ≡ got_char junk (fread dev heap 1 1 s)
  unfolding fgetc
  fgetc_through heap junk s held = rw held refl

  held_some : (s : Stream S) → is_held s ≡ true → HasWindow s → 1 ≤ s.end - s.pos
  held_some s held w = ground (arith, w.to_end)

  got_char_one :
      (junk b : ℕ) (r : Option (List ℕ × ℕ × Stream S)) (xs : List ℕ) (n : ℕ) (s' : Stream S)
      → r ≡ some (xs, n, s')
      → xs ≡ b ∷ []
      → s'.error ≡ clear
      → got_char junk r ≡ some (char_of b, s')
  unfolding got_char
  got_char_one junk b r xs n s' e one fine = rw (e, one, fine, got_char) refl

  got_char_none :
      (junk : ℕ) (r : Option (List ℕ × ℕ × Stream S)) (xs : List ℕ) (n : ℕ) (s' : Stream S)
      → r ≡ some (xs, n, s')
      → s'.error ≡ io_eof
      → got_char junk r ≡ some (eof, s')
  unfolding got_char
  got_char_none junk r xs n s' e flag = rw (e, flag, got_char) refl

  -- `common_fgetc` on a buffered stream that can be read, was not written to last, met no error and
  -- has its buffer, over a descriptor that reads without errors, with a byte ahead: it gives that
  -- byte as a `char`, and the stream goes on behind it.
  pub fgetc-Next :
      (heap : Option (List ℕ)) (junk b : ℕ) (bs : List ℕ) (s : Stream S)
      → IsReadable s
      → ahead left s ≡ b ∷ bs
      → (s' : Stream S) × (fgetc dev heap junk s ≡ some (char_of b, s'))
        × (ahead left s' ≡ bs)
        × IsReadable s'
  fgetc-Next heap junk b bs s r next = elim (Bool-cases (is_held s)) [
    | inl held ↦
        let w = r.window in
        let one : 1 ≤ s.end - s.pos = held_some s held w in
        let got = held-Got dev left law 1 s w one in
        let s' = record s { pos = s.pos + 1 } in
        let (first, rest, quiet) =
          one-Got b bs s (bytes_at s.buffer (s.pos - s.start) 1) s' got next in
        let c : get_or s.buffer (s.pos - s.start) junk ∷ [] ≡ b ∷ [] =
          sym (
            bytes_at_one s.buffer (s.pos - s.start) junk
              (omega (arith, one, w.whole, w.held, w.from_start)))
          ∙ first in
        (
          s',
          fgetc_held heap junk s held
              ∙ rw (minus_of_le s.pos s.start w.from_start)
                  (ap (λ xs. some (char_of (get_or xs 0 junk), s')) c),
          rest,
          Got-IsReadable s 1 _ s' r got quiet,
        )
    | inr through ↦
        let reading = record s { prev_op = op_read } in
        let (xs, s', returned, got) =
          fread-Got dev left law heap 1 1 s r (omega arith) (omega arith) in
        let (first, rest, quiet) = one-Got b bs reading xs s' got next in
        let r' : IsReadable reading = record {
          window = record {
            room = r.window.room;
            whole = r.window.whole;
            from_start = r.window.from_start;
            to_end = r.window.to_end;
            held = r.window.held;
          };
          fine = r.fine;
          readable = r.readable;
          kind = r.kind;
          block = r.block;
          order = refl;
        } in
        (
          s',
          fgetc_through heap junk s through
              ∙ got_char_one junk b _ xs _ s' returned first (quiet ∙ r.fine),
          rest,
          Got-IsReadable reading 1 xs s' r' got quiet,
        )
  ]

  -- `common_fgetc` on a buffered stream that can be read, was not written to last, met no error and
  -- has its buffer, over a descriptor that reads without errors, at the end of its file: it gives
  -- EOF and sets the flag.
  pub fgetc_end :
      (heap : Option (List ℕ)) (junk : ℕ) (s : Stream S)
      → IsReadable s
      → ahead left s ≡ []
      → (s' : Stream S) × (fgetc dev heap junk s ≡ some (eof, s'))
        × (s'.error ≡ io_eof)
        × (ahead left s' ≡ [])
  fgetc_end heap junk s r over = elim (Bool-cases (is_held s)) [
    | inl held ↦
        let w = r.window in
        absurd (
          omega (
            arith,
            held_some s held w,
            ap length over,
            length-append (ready s) (left s.device),
            length-take (s.end - s.pos) (drop (s.pos - s.start) s.buffer),
            length-drop (s.pos - s.start) s.buffer,
            w.whole,
            w.held,
            w.from_start,
            w.to_end,
          ))
    | inr through ↦
        let (xs, s', returned, got) =
          fread-Got dev left law heap 1 1 s r (omega arith) (omega arith) in
        elim got.complete [
          | inl (one, quiet) ↦ absurd (
              omega (arith, one, ap length (sym over ∙ got.next), length-append xs (ahead left s')))
          | inr (short, over', flag) ↦ (
            s',
            fgetc_through heap junk s through ∙ got_char_none junk _ xs _ s' returned flag,
            flag,
            over',
          )
        ]
  ]
