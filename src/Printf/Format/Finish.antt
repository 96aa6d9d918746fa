-- ===== src/Printf/Format/Finish.antt =====
-- The loop of `wlibc_printf_internal` (src/stdio/printf.c) and its fuel.
use windows_libc.Common.{
  ℕ, zero, suc, ◌+◌, ◌≤◌, ◌<◌, ◌≢◌, inl, inr, Bool, Option, none, some, List, [], ◌∷◌, arith, ◌==◌,
  Bool-cases, length,
}
use windows_libc.Buffer.{Buffer, Writer}
use windows_libc.Printf.{PrintConfig, Printed, perform}
use windows_libc.Printf.Spec.{is_unknown}
use windows_libc.Printf.Spec.Rest.{Leaves, parse_print_specifier-Leaves}
use windows_libc.Printf.Format.{
  PrintState, Answer, answered, undefined, unfinished, performed, byte_printed, unless_error,
  printed_arg, specified, percent, printf_loop, printf_internal, capped,
}
use windows_libc.Varargs.{VariadicArgs}

-- The loop has not run out of its rounds.
abbrev Finished : Answer → Type 0
Finished unfinished = ⊥
Finished undefined = Unit
Finished (answered n s) = Unit

-- A way on that never runs out.
record Finishes (go : PrintState → Answer) : Type 0 where
  finishes : (s : PrintState) → Finished (go s)

performed-Finished :
    {go : PrintState → Answer} (s : PrintState) (p : Printed) (o : Option Buffer)
    → Finishes go
    → Finished (performed go s p o)
performed-Finished s p none h = tt
performed-Finished s p (some b) h = h.finishes _

unless_error-Finishes : {go : PrintState → Answer} → Finishes go → Finishes (unless_error go)
unfolding unless_error
unless_error-Finishes h = record {
  finishes = λ s. elim (Bool-cases s.buffer.error) [
    | inl failed ↦ rw failed tt
    | inr fine ↦ simp fine (h.finishes s)
  ];
}

Finished-ne : (o : Answer) → Finished o → o ≢ unfinished
Finished-ne (answered n s) f e = cc
Finished-ne undefined f e = cc
Finished-ne unfinished f e = f

module _ (write : Option Writer) (float_hex : Bool → ℕ → List ℕ) (text_at : ℕ → ℕ → List ℕ) where
  printed_arg-Finished :
      {go : PrintState → Answer} (s : PrintState) (o : Option Printed)
      → Finishes go
      → Finished (printed_arg write float_hex text_at go s o)
  printed_arg-Finished s none h = tt
  printed_arg-Finished s (some p) h = performed-Finished s p _ (unless_error-Finishes h)

  specified-Finished :
      {go : List ℕ → PrintState → Answer} (text : List ℕ) (s : PrintState)
      (o : Option (PrintConfig × List ℕ × VariadicArgs))
      → ((t : List ℕ) → length t ≤ length text → Finishes (go t))
      → Leaves (length text) o
      → Finished (specified write float_hex text_at go text s o)
  specified-Finished text s none h l = tt
  specified-Finished text s (some (config, rest, a)) h l =
      elim (Bool-cases (is_unknown config.type)) [
        | inl unknown ↦ rw unknown (
            performed-Finished (record s { args = a }) (byte_printed b'%') _ (h text (omega arith)))
        | inr known ↦ rw known (printed_arg-Finished (record s { args = a }) _ (h rest l))
      ]

  module _ (alloc : ℕ → Bool) (source : ℕ → ℕ) where
    percent-Finishes :
        {go : List ℕ → PrintState → Answer} (text : List ℕ)
        → ((t : List ℕ) → length t ≤ length text → Finishes (go t))
        → Finishes (percent write float_hex text_at alloc source go text)
    unfolding percent
    percent-Finishes [] h = record {
      finishes = λ s.
          performed-Finished {go = λ t. answered (some t.result) t} s (byte_printed b'%')
            (perform write (byte_printed b'%').effects s.buffer)
            (record { finishes = λ t. tt {0} });
    }
    percent-Finishes (c ∷ text) h = record {
      finishes = λ s. elim (Bool-cases (c == b'%')) [
        | inl escaped ↦
            rw escaped (performed-Finished s (byte_printed b'%') _ (h text (omega arith)))
        | inr other ↦ rw other (
            specified-Finished (c ∷ text) s _ h
              (parse_print_specifier-Leaves alloc source (c ∷ text) s.args))
      ];
    }

    loop-Finishes :
        (fuel : ℕ) (text : List ℕ)
        → length text < fuel
        → Finishes (printf_loop write float_hex text_at alloc source fuel text)
    unfolding printf_loop
    loop-Finishes zero text h = absurd (omega arith)
    loop-Finishes (suc fuel) [] h = record { finishes = λ s. tt }
    loop-Finishes (suc fuel) (c ∷ text) h =
        let again : (t : List ℕ)
            → length t ≤ length text
            → Finishes (printf_loop write float_hex text_at alloc source fuel t) =
          λ t l. loop-Finishes fuel t (omega arith) in
        record {
          finishes = λ s. elim (Bool-cases (c == b'%')) [
            | inl mark ↦ rw mark ((percent-Finishes text again).finishes s)
            | inr plain ↦
                rw plain (performed-Finished s (byte_printed c) _ (again text (omega arith)))
          ];
        }

    -- For every format, whatever the arguments are and the buffer does, the loop over the format ends within one round
    -- more than the format has bytes that are read.
    pub printf_internal_ends :
        (format : List ℕ) (b : Buffer)
        → printf_internal write float_hex text_at alloc source format b ≢ unfinished
    unfolding printf_internal
    printf_internal_ends format b =
        Finished-ne _
          ((loop-Finishes (length (capped format) + 1) (capped format) (omega arith)).finishes _)
