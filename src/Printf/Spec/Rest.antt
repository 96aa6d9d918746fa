-- ===== src/Printf/Spec/Rest.antt =====
-- The specifications of src/stdio/printf.c leave no more of the text than they were given.
use windows_libc.Common.{
  ℕ, ◌+◌, ◌-◌, ◌*◌, ◌≤◌, inl, inr, Bool, ◌&&◌, not, Option, none, some, List, [], ◌∷◌, arith, ◌==◌,
  Bool-cases, Option-cases, length, length-drop, u32,
}
use windows_libc.Convert.Decimal.{is_digit}
use windows_libc.Printf.{PrintFlags, PrintConfig}
use windows_libc.Varargs.{VariadicArgs, Fetched, variadic_args_get}
use windows_libc.Printf.Spec.{
  peek, skip, number_loop, parse_index, no_flags, add_flag, parse_flags, parse_star, parse_field,
  parse_precision, parse_modifier, Specifier, read_specifier, fetch_field, bind_fetched, is_unknown,
  fetch_all, parse_print_specifier,
}

number_loop-le : (text : List ℕ) (index : ℕ) → length (number_loop index text).1 ≤ length text
unfolding number_loop
number_loop-le [] index = omega arith
number_loop-le (c ∷ cs) index = elim (Bool-cases (is_digit c)) [
  | inl digit ↦ rw digit (omega (arith, number_loop-le cs (u32 (u32 (index * 10) + (c - b'0')))))
  | inr other ↦ rw other (omega arith)
]

skip-le : (text : List ℕ) → length (skip text) ≤ length text
skip-le text = omega (arith, length-drop 1 text)

parse_index-le : (text : List ℕ) → length (parse_index text).1 ≤ length text
unfolding parse_index
parse_index-le text =
    elim (Bool-cases (not ((number_loop 0 text).0 == 0) && peek (number_loop 0 text).1 == b'$')) [
      | inl given ↦ rw given (omega (arith, skip-le (number_loop 0 text).1, number_loop-le text 0))
      | inr left_out ↦ rw left_out (omega arith)
    ]

parse_flags-le : (text : List ℕ) (f : PrintFlags) → length (parse_flags f text).1 ≤ length text
unfolding parse_flags
parse_flags-le [] f = omega arith
parse_flags-le (c ∷ cs) f = elim (Option-cases (add_flag c f)) [
  | inl stop ↦ rw (stop, parse_flags) (omega arith)
  | inr (g, e) ↦ rw (e, parse_flags) (omega (arith, parse_flags-le cs g))
]

parse_star-le : (text : List ℕ) → length (parse_star text).1 ≤ length text
unfolding parse_star
parse_star-le text = elim (Bool-cases (peek (number_loop 0 text).1 == b'$')) [
  | inl given ↦ rw given (omega (arith, skip-le (number_loop 0 text).1, number_loop-le text 0))
  | inr left_out ↦ rw left_out (number_loop-le text 0)
]

parse_field-le : (text : List ℕ) → length (parse_field text).2 ≤ length text
unfolding parse_field
parse_field-le text = elim (Bool-cases (peek text == b'*')) [
  | inl star ↦ rw star (omega (arith, parse_star-le (skip text), skip-le text))
  | inr plain ↦ rw plain (number_loop-le text 0)
]

parse_precision-le :
    (f : PrintFlags) (text : List ℕ) → length (parse_precision f text).3 ≤ length text
unfolding parse_precision
parse_precision-le f text = elim (Bool-cases (peek text == b'.')) [
  | inl dot ↦ rw dot (omega (arith, parse_field-le (skip text), skip-le text))
  | inr left_out ↦ rw left_out (omega arith)
]

parse_modifier-le : (text : List ℕ) → length (parse_modifier text).1 ≤ length text
unfolding parse_modifier
parse_modifier-le text = ground (arith, skip-le text, skip-le (skip text))

read_specifier-le : (text : List ℕ) → length (read_specifier text).rest ≤ length text
unfolding read_specifier
read_specifier-le text =
    let text1 = (parse_index text).1 in
    let flags = parse_flags no_flags text1 in
    let text3 = (parse_field flags.1).2 in
    omega (
      arith,
      parse_index-le text,
      parse_flags-le text1 no_flags,
      parse_field-le flags.1,
      parse_precision-le flags.0 text3,
      parse_modifier-le (parse_precision flags.0 text3).3,
    )

-- No more than `n` bytes are left.
abbrev pub Leaves : ℕ → Option (PrintConfig × List ℕ × VariadicArgs) → Type 0
Leaves n none = Unit
Leaves n (some (config, rest, a)) = length rest ≤ n

bind_fetched-Leaves :
    (n : ℕ) (o : Fetched) (go : ℕ → VariadicArgs → Option (PrintConfig × List ℕ × VariadicArgs))
    → ((v : ℕ) (a : VariadicArgs) → Leaves n (go v a))
    → Leaves n (bind_fetched o go)
bind_fetched-Leaves n none go h = tt
bind_fetched-Leaves n (some (v, a)) go h = h v a

le_trans : {a b c : ℕ} → a ≤ b → b ≤ c → a ≤ c
le_trans p q = omega arith

fetch_all-Leaves :
    (get : VariadicArgs → ℕ → Fetched) (s : Specifier) (a : VariadicArgs) (n : ℕ)
    → length s.rest ≤ n
    → Leaves n (fetch_all get s a)
unfolding fetch_all
fetch_all-Leaves get s a n h =
    bind_fetched-Leaves n (fetch_field get s.width_index s.config.width a) _ (λ w a'.
      bind_fetched-Leaves n (fetch_field get s.precision_index s.config.precision a') _ (λ p a''.
        bind_fetched-Leaves n (get a'' s.arg_index) _ (λ v b. le_trans (skip-le s.rest) h)))

pub parse_print_specifier-Leaves :
    (alloc : ℕ → Bool) (source : ℕ → ℕ) (text : List ℕ) (a : VariadicArgs)
    → Leaves (length text) (parse_print_specifier alloc source text a)
unfolding parse_print_specifier
parse_print_specifier-Leaves alloc source text a =
    let s = read_specifier text in
    let shorter = read_specifier-le text in
    elim (Bool-cases (is_unknown s.config.type)) [
      | inl unknown ↦ rw unknown shorter
      | inr known ↦
          rw known (fetch_all-Leaves (variadic_args_get alloc source) s a (length text) shorter)
    ]
