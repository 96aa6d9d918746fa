-- ===== src/Printf/Format/Counts.antt =====
-- What `wlibc_printf_internal` of src/stdio/printf.c answers, against what stands in the buffer.
use windows_libc.Common.{
  Option, length-take, ℕ, zero, suc, ◌+◌, ◌^◌, ◌<◌, ◌≡◌, ◌⊎◌, refl, inl, inr, Bool, true, false,
  none, some, List, [], ◌∷◌, arith, ◌==◌, Bool-cases, length, u32,
}
use mathlib.Core.Path.{subst}
use windows_libc.Buffer.{Buffer}
use windows_libc.Buffer.Advance.{Started}
use windows_libc.Printf.{PrintConfig, Printed, bytes_of, perform}
use windows_libc.Buffer.Write.{IsValid, content}
use windows_libc.Printf.Format.Perform.{
  perform_failed, Moves, memory, perform-Moves, Keeps, perform-Keeps,
}
use windows_libc.Printf.Pad.Count.{amount, Counts}
use windows_libc.Printf.Print.Count.{CountsAll, print_arg-Counts}
use windows_libc.Printf.Spec.{is_unknown, parse_print_specifier}
use windows_libc.Printf.Format.{
  PrintState, Answer, answered, undefined, unfinished, performed, run_printed, byte_printed,
  unless_error, printed_arg, specified, percent, printf_loop, printf_internal, capped,
}
use windows_libc.Varargs.{VariadicArgs}

empty-IsValid : IsValid (record { bytes = []; pos = 0; size = 0; error = false })
empty-IsValid = record { no_error = refl; whole = refl; within = omega arith; small = omega arith }

-- While the buffer has no error, the count is the position, cut to 32 bits, and the buffer is well formed as
-- long as the position is below 2 ^ 62.
record IsCounted (s : PrintState) : Type 0 where
  no_error : s.buffer.error ≡ false
  started : Started s.buffer
  counted : s.result ≡ u32 s.buffer.pos
  valid : s.buffer.pos < 2 ^ 62 → IsValid s.buffer

-- So it is in an answer, unless the buffer has an error.
abbrev Tells : Answer → Type 0
Tells undefined = Unit
Tells unfinished = Unit
Tells (answered none s) = s.buffer.error ≡ true
Tells (answered (some n) s) =
    s.buffer.error ≡ false → (n ≡ u32 s.buffer.pos) × (s.buffer.pos < 2 ^ 62 → IsValid s.buffer)

-- With the error flag set it stays set.
abbrev Fails : Answer → Type 0
Fails undefined = Unit
Fails unfinished = Unit
Fails (answered n s) = s.buffer.error ≡ true

Fails-Tells : (o : Answer) → Fails o → Tells o
Fails-Tells undefined f = tt
Fails-Tells unfinished f = tt
Fails-Tells (answered none s) f = f
Fails-Tells (answered (some n) s) f = λ e. cc

-- A way on: from a counted state to an answer that tells the count, from a failed buffer to a failed one.
record IsSound (go : PrintState → Answer) : Type 0 where
  tells : (s : PrintState) → IsCounted s → Tells (go s)
  fails : (s : PrintState) → s.buffer.error ≡ true → Fails (go s)

ends-IsSound : IsSound (λ s. answered (some s.result) s)
ends-IsSound = record { tells = λ s c e. (c.counted, c.valid); fails = λ s e. e }

unless_error-IsSound : {go : PrintState → Answer} → IsSound go → IsSound (unless_error go)
unfolding unless_error
unless_error-IsSound g = record {
  tells = λ s c. simp c.no_error (g.tells s c);
  fails = λ s e. simp e refl;
}

module _ (alloc : ℕ → Bool) (frees : alloc 0 ≡ false) (float_hex : Bool → ℕ → List ℕ)
    (text_at : ℕ → ℕ → List ℕ) (source : ℕ → ℕ) where
  run_printed-Tells :
      {go : PrintState → Answer} (s : PrintState) (p : Printed)
      → IsSound go
      → Counts p
      → IsCounted s
      → Tells (run_printed (memory alloc frees) go s p)
  run_printed-Tells {go} s p g k c =
      moved (perform (memory alloc frees) p.effects s.buffer)
        (perform-Moves alloc frees p.effects s.buffer c.no_error c.started)
        (λ small. perform-Keeps alloc frees p.effects s.buffer (c.valid (omega arith)) small)
    where
      still :
          (b : Buffer)
          → b.error ≡ false
          → b.pos ≡ s.buffer.pos + amount p.effects
          → (s.buffer.pos + amount p.effects < 2 ^ 62 → Keeps alloc frees (some b))
          → b.pos < 2 ^ 62
          → IsValid b
      still b e at v small = either (v (omega arith))
        where
          either : (b.error ≡ true) ⊎ IsValid b → IsValid b
          either (inl failed) = cc
          either (inr valid) = valid

      moved :
          (o : Option Buffer)
          → Moves s.buffer (amount p.effects) o
          → (s.buffer.pos + amount p.effects < 2 ^ 62 → Keeps alloc frees o)
          → Tells (performed go s p o)
      moved none m v = tt
      moved (some b) (inl failed) v = Fails-Tells _ (g.fails _ failed)
      moved (some b) (inr (e, at, start)) v = g.tells _ (record {
        no_error = e;
        started = start;
        counted = omega (arith, at, k, c.counted);
        valid = still b e at v;
      })

  run_printed-Fails :
      {go : PrintState → Answer} (s : PrintState) (p : Printed)
      → IsSound go
      → s.buffer.error ≡ true
      → Fails (run_printed (memory alloc frees) go s p)
  run_printed-Fails s p g e =
      rw (perform_failed (memory alloc frees) p.effects s.buffer e) (g.fails _ e)

  run_printed-IsSound :
      {go : PrintState → Answer} (p : Printed)
      → IsSound go
      → Counts p
      → IsSound (λ s. run_printed (memory alloc frees) go s p)
  run_printed-IsSound p g k = record {
    tells = λ s c. run_printed-Tells s p g k c;
    fails = λ s e. run_printed-Fails s p g e;
  }

  byte-IsSound :
      {go : PrintState → Answer} (c : ℕ)
      → IsSound go
      → IsSound (λ s. run_printed (memory alloc frees) go s (byte_printed c))
  byte-IsSound c g = run_printed-IsSound (byte_printed c) g (unfold bytes_of in omega arith)

  printed_arg-IsSound :
      {go : PrintState → Answer} (o : Option Printed)
      → IsSound go
      → CountsAll o
      → IsSound (λ s. printed_arg (memory alloc frees) float_hex text_at go s o)
  printed_arg-IsSound none g k = record { tells = λ s c. tt; fails = λ s e. tt }
  printed_arg-IsSound (some p) g k = run_printed-IsSound p (unless_error-IsSound g) k

  -- Behind a specification, whatever it says. The arguments do not touch the buffer.
  specified-Tells :
      {go : List ℕ → PrintState → Answer} (text : List ℕ) (s : PrintState)
      (o : Option (PrintConfig × List ℕ × VariadicArgs))
      → ((t : List ℕ) → IsSound (go t))
      → IsCounted s
      → Tells (specified (memory alloc frees) float_hex text_at go text s o)
  specified-Tells text s none g c = tt
  specified-Tells {go} text s (some (config, rest, a)) g c =
      let c' : IsCounted (record s { args = a }) = record {
        no_error = c.no_error;
        started = c.started;
        counted = c.counted;
        valid = c.valid;
      } in
      elim (Bool-cases (is_unknown config.type)) [
        | inl unknown ↦ rw unknown ((byte-IsSound b'%' (g text)).tells _ c')
        | inr known ↦ rw known (
            (printed_arg-IsSound _ (g rest)
                (print_arg-Counts float_hex text_at (record config { result = s.result }))).tells
              _ c')
      ]

  specified-Fails :
      {go : List ℕ → PrintState → Answer} (text : List ℕ) (s : PrintState)
      (o : Option (PrintConfig × List ℕ × VariadicArgs))
      → ((t : List ℕ) → IsSound (go t))
      → s.buffer.error ≡ true
      → Fails (specified (memory alloc frees) float_hex text_at go text s o)
  specified-Fails text s none g e = tt
  specified-Fails {go} text s (some (config, rest, a)) g e =
      elim (Bool-cases (is_unknown config.type)) [
        | inl unknown ↦ rw unknown ((byte-IsSound b'%' (g text)).fails _ e)
        | inr known ↦ rw known (
            (printed_arg-IsSound _ (g rest)
                (print_arg-Counts float_hex text_at (record config { result = s.result }))).fails
              _ e)
      ]

  abbrev loop : ℕ → List ℕ → PrintState → Answer
  loop = printf_loop (memory alloc frees) float_hex text_at alloc source

  percent-IsSound :
      {go : List ℕ → PrintState → Answer} (text : List ℕ)
      → ((t : List ℕ) → IsSound (go t))
      → IsSound (percent (memory alloc frees) float_hex text_at alloc source go text)
  unfolding percent
  percent-IsSound [] g = byte-IsSound b'%' ends-IsSound
  percent-IsSound (c ∷ text) g = elim (Bool-cases (c == b'%')) [
    | inl escaped ↦
        let one = byte-IsSound b'%' (g text) in
        record {
          tells = λ s k. rw escaped (one.tells s k);
          fails = λ s e. rw escaped (one.fails s e);
        }
    | inr other ↦ record {
      tells = λ s k.
          rw other (
            specified-Tells (c ∷ text) s (parse_print_specifier alloc source (c ∷ text) s.args) g
              k);
      fails = λ s e.
          rw other (
            specified-Fails (c ∷ text) s (parse_print_specifier alloc source (c ∷ text) s.args) g
              e);
    }
  ]

  loop-IsSound : (fuel : ℕ) (text : List ℕ) → IsSound (loop fuel text)
  unfolding printf_loop
  loop-IsSound zero text = record { tells = λ s c. tt; fails = λ s e. tt }
  loop-IsSound (suc fuel) [] = ends-IsSound
  loop-IsSound (suc fuel) (c ∷ text) = elim (Bool-cases (c == b'%')) [
    | inl mark ↦
        let special = percent-IsSound text (loop-IsSound fuel) in
        record {
          tells = λ s k. rw mark (special.tells s k);
          fails = λ s e. rw mark (special.fails s e);
        }
    | inr plain ↦
        let one = byte-IsSound c (loop-IsSound fuel text) in
        record { tells = λ s k. rw plain (one.tells s k); fails = λ s e. rw plain (one.fails s e) }
  ]

  printf_internal-Tells :
      (format : List ℕ)
      → Tells (
          printf_internal
            (memory alloc frees)
            float_hex
            text_at
            alloc
            source
            format
            (record { bytes = []; pos = 0; size = 0; error = false }))
  unfolding printf_internal
  printf_internal-Tells format =
      (loop-IsSound (length (capped format) + 1) (capped format)).tells _ (record {
        no_error = refl;
        started = λ e. refl;
        counted = omega arith;
        valid = λ h. empty-IsValid;
      })

  -- Into a growing buffer that is empty at first, where `realloc` to no bytes gives NULL: with an answer that is not
  -- -1, where the buffer has no error and its position is below 2 ^ 62, the buffer is well formed and the answer is
  -- the number of the bytes that were written to it, cut to 32 bits.
  pub printf_internal_counted :
      (format : List ℕ) (n : ℕ) (s : PrintState)
      → printf_internal
          (memory alloc frees)
          float_hex
          text_at
          alloc
          source
          format
          (record { bytes = []; pos = 0; size = 0; error = false })
        ≡ answered (some n) s
      → s.buffer.error ≡ false
      → s.buffer.pos < 2 ^ 62
      → IsValid s.buffer × (n ≡ u32 (length (content s.buffer)))
  printf_internal_counted format n s printed fine few =
      let told : Tells (answered (some n) s) = subst Tells printed (printf_internal-Tells format) in
      let (count, valid) = told fine in
      let v = valid few in
      let whole : length (content s.buffer) ≡ s.buffer.pos =
        omega (arith, length-take s.buffer.pos s.buffer.bytes, v.whole, v.within) in
      (v, omega (arith, count, whole))

  -- With the answer -1 the buffer has an error.
  pub printf_internal_failed :
      (format : List ℕ) (s : PrintState)
      → printf_internal
          (memory alloc frees)
          float_hex
          text_at
          alloc
          source
          format
          (record { bytes = []; pos = 0; size = 0; error = false })
        ≡ answered none s
      → s.buffer.error ≡ true
  printf_internal_failed format s printed = subst Tells printed (printf_internal-Tells format)
