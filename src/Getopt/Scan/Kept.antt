-- ===== src/Getopt/Scan/Kept.antt =====
-- What the options of `wlibc_common_getopt` leave as it is: the arguments, and the kind of the argument
-- that is read.
use windows_libc.Common.{
  ℕ, ◌+◌, ◌≡◌, refl, ◌∙◌, inl, inr, Bool, ◌||◌, Option, none, some, List, ◌==◌, Bool-cases,
  Option-cases,
}
use windows_libc.Getopt.{
  HasArg, no_argument, required_argument, optional_argument, other_argument, LongOption, Message,
  no_parameter, needs_parameter, unrecognized_long, Getopt, char_at, report,
}
use windows_libc.Getopt.Long.{
  return_val, parameter, required_done, optional_done, take_long, found_long, long_option,
}
use windows_libc.Getopt.Short
use windows_libc.Getopt.Short.{
  mandatory_done, next_argument, take_next, take_parameter, take_short, next_letter, short_option,
}

abbrev pub is_processing : Getopt → Bool
is_processing s = s.processing_long || s.processing_short

-- The arguments and the kind stay.
pub record Kept (s s' : Getopt) : Type 0 where
  pub argv : s'.argv ≡ s.argv
  pub kind : is_processing s' ≡ is_processing s

plain : {s s' : Getopt} → s'.argv ≡ s.argv → is_processing s' ≡ is_processing s → Kept s s'
plain a k = record { argv = a; kind = k }

Kept-trans : {s s' s'' : Getopt} → Kept s s' → Kept s' s'' → Kept s s''
Kept-trans k l = plain (l.argv ∙ k.argv) (l.kind ∙ k.kind)

report-Kept : (m : Message) (s : Getopt) → Kept s (report m s)
unfolding report
report-Kept m s = elim (Bool-cases s.opterr) [
  | inl on ↦ simp on (plain refl refl)
  | inr off ↦ simp off (plain refl refl)
]

return_val-Kept : (o : LongOption) (s : Getopt) → Kept s (return_val o s).1
unfolding return_val
return_val-Kept o s = elim (Option-cases o.flag) [
  | inl absent ↦ rw (absent, return_val) (plain refl refl)
  | inr (place, present) ↦ rw (present, return_val) (plain refl refl)
]

-- The options set other fields, then return.
val-Kept : (o : LongOption) (s s' : Getopt) → Kept s s' → Kept s (return_val o s').1
val-Kept o s s' k = Kept-trans k (return_val-Kept o s')

required-Kept :
    (text : List ℕ) (o : LongOption) (p : Option (List ℕ)) (s : Getopt)
    → Kept s (required_done text o p s).1
unfolding required_done
required-Kept text o none s = report-Kept (needs_parameter text) s
required-Kept text o (some argument) s = val-Kept o s _ (plain refl refl)

optional-Kept : (o : LongOption) (p : Option (List ℕ)) (s : Getopt) → Kept s (optional_done o p s).1
unfolding optional_done
optional-Kept o none s = val-Kept o s _ (plain refl refl)
optional-Kept o (some argument) s = val-Kept o s _ (plain refl refl)

take_long-Kept :
    (text : List ℕ) (o : LongOption) (h : HasArg) (value : Option (List ℕ)) (s : Getopt)
    → Kept s (take_long text o h value s).1
unfolding take_long
take_long-Kept text o no_argument none s = val-Kept o s _ (plain refl refl)
take_long-Kept text o no_argument (some value) s = report-Kept (no_parameter text) s
take_long-Kept text o required_argument none s = required-Kept text o (parameter s) s
take_long-Kept text o required_argument (some value) s = val-Kept o s _ (plain refl refl)
take_long-Kept text o optional_argument none s = optional-Kept o (parameter s) s
take_long-Kept text o optional_argument (some value) s = val-Kept o s _ (plain refl refl)
take_long-Kept text o other_argument value s = return_val-Kept o s

found_long-Kept :
    (with_index : Bool) (text : List ℕ) (found : Option (ℕ × LongOption)) (s : Getopt)
    → Kept s (found_long with_index text found s).1
unfolding found_long
found_long-Kept with_index text none s = report-Kept (unrecognized_long text) s
found_long-Kept with_index text (some (j, o)) s =
    Kept-trans (plain refl refl) (take_long-Kept text o o.has_arg _ _)

pub long_option-Kept :
    (longopts : Option (List LongOption)) (with_index : Bool) (argument : List ℕ) (s : Getopt)
    → Kept s (long_option longopts with_index argument s).1
unfolding long_option
long_option-Kept none with_index argument s = plain refl refl
long_option-Kept (some os) with_index argument s = found_long-Kept with_index _ _ s

-- The state that a parameter leaves.
abbrev or_self : Getopt → Option Getopt → Getopt
or_self s none = s
or_self s (some s') = s'

module _ (argument : List ℕ) (s : Getopt) where
  take_next-Kept : (next : Option (List ℕ)) → Kept s (or_self s (take_next next s))
  unfolding take_next
  take_next-Kept none = plain refl refl
  take_next-Kept (some next) = plain refl refl

  take_parameter-Kept : Kept s (or_self s (take_parameter argument s))
  unfolding take_parameter
  take_parameter-Kept = elim (Bool-cases (s.index == 0)) [
    | inr attached ↦ simp attached (plain refl refl)
    | inl apart ↦ simp apart (take_next-Kept (next_argument s))
  ]

  parameter-Kept :
      (option : ℕ) (p : Option Getopt)
      → Kept s (or_self s p)
      → Kept s (Short.optional_done option p s).1
  unfolding Short.optional_done
  parameter-Kept option none k = plain refl refl
  parameter-Kept option (some s') k = k

  mandatory-Kept :
      (option : ℕ) (p : Option Getopt) → Kept s (or_self s p) → Kept s (mandatory_done option p s).1
  unfolding mandatory_done
  mandatory-Kept option none k = Kept-trans (report-Kept _ s) (plain refl refl)
  mandatory-Kept option (some s') k = k

  take_short-Kept :
      (option : ℕ) (found : Option (List ℕ)) → Kept s (take_short argument option found s).1
  unfolding take_short
  take_short-Kept option none = Kept-trans (report-Kept _ s) (plain refl refl)
  take_short-Kept option (some found) = elim (Bool-cases (char_at found 1 == 58)) [
    | inr flag ↦ simp flag (plain refl refl)
    | inl colon ↦ elim (Bool-cases (char_at found 2 == 58)) [
      | inl two ↦
          simp (colon, two) (parameter-Kept option (take_parameter argument s) take_parameter-Kept)
      | inr one ↦
          simp (colon, one) (mandatory-Kept option (take_parameter argument s) take_parameter-Kept)
    ]
  ]

  next_letter-Kept : Kept s (next_letter argument s)
  unfolding next_letter
  next_letter-Kept = elim (Bool-cases (char_at argument (s.index + 1) == 0)) [
    | inl last ↦ simp last (plain refl refl)
    | inr more ↦ simp more (plain refl refl)
  ]

pub short_option-Kept :
    (optstring argument : List ℕ) (s : Getopt) → Kept s (short_option optstring argument s).1
unfolding short_option
short_option-Kept optstring argument s = elim (Bool-cases (char_at optstring 0 == 0)) [
  | inl nothing ↦ simp nothing (plain refl refl)
  | inr some_options ↦ simp some_options (
      Kept-trans (next_letter-Kept argument s)
        (take_short-Kept argument (next_letter argument s) _ _))
]
