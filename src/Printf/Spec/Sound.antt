-- ===== src/Printf/Spec/Sound.antt =====
-- What `parse_print_specifier` of src/stdio/printf.c leaves in `config`.
use windows_libc.Common.{
  ℕ, ◌+◌, ◌-◌, ◌*◌, ◌^◌, ◌<◌, ◌≡◌, refl, sym, ◌∙◌, inl, inr, Bool, true, false, Option, none, some,
  List, [], ◌∷◌, arith, not, ◌&&◌, ◌==◌, Bool-cases, Option-cases, u32,
}
use mathlib.Core.Path.{subst}
use windows_libc.Convert.Decimal.{is_digit}
use windows_libc.Printf.{PrintFlags, PrintConfig}
use windows_libc.Varargs.{VariadicArgs, Fetched, variadic_args_get}
use windows_libc.Printf.Spec.{
  peek, skip, number_loop, parse_index, no_flags, add_flag, parse_flags, no_index, parse_field,
  parse_precision, settle, Specifier, read_specifier, fetch_field, bind_fetched, is_unknown,
  fetch_all, parse_print_specifier,
}

-- The flags agree with each other and with the numbers.
pub record IsSettled (config : PrintConfig) : Type 0 where
  pub zeros_right : (config.flags.zero_padded && config.flags.left_justify) ≡ false
  pub zeros_alone : (config.flags.zero_padded && not (config.precision == 0)) ≡ false
  pub space_alone : (config.flags.empty_space && config.flags.force_sign) ≡ false
  pub width_fits : config.width < 2 ^ 32
  pub precision_fits : config.precision < 2 ^ 32

number_loop-lt : (text : List ℕ) (index : ℕ) → index < 2 ^ 32 → (number_loop index text).0 < 2 ^ 32
unfolding number_loop
number_loop-lt [] index h = h
number_loop-lt (c ∷ cs) index h = elim (Bool-cases (is_digit c)) [
  | inl digit ↦ rw digit (number_loop-lt cs (u32 (u32 (index * 10) + (c - b'0'))) (omega arith))
  | inr other ↦ rw other h
]

parse_field-lt : (text : List ℕ) → (parse_field text).0 < 2 ^ 32
unfolding parse_field
parse_field-lt text = elim (Bool-cases (peek text == b'*')) [
  | inl star ↦ rw star (omega arith)
  | inr plain ↦ rw plain (number_loop-lt text 0 (omega arith))
]

add_flag-precise :
    (c : ℕ) (f : PrintFlags) {g : PrintFlags} → add_flag c f ≡ some g → g.precise ≡ f.precise
unfolding add_flag
add_flag-precise c f e = ground arith

parse_flags-precise : (text : List ℕ) (f : PrintFlags) → (parse_flags f text).0.precise ≡ f.precise
unfolding parse_flags
parse_flags-precise [] f = refl
parse_flags-precise (c ∷ cs) f = elim (Option-cases (add_flag c f)) [
  | inl stop ↦ rw (stop, parse_flags) refl
  | inr (g, e) ↦ rw (e, parse_flags) (parse_flags-precise cs g ∙ add_flag-precise c f e)
]

-- A precision is there with its flag.
abbrev Precise : PrintFlags × ℕ × ℕ × List ℕ → Type 0
Precise p = (p.1 < 2 ^ 32) × (p.0.precise ≡ false → (p.1 ≡ 0) × (p.2 ≡ no_index))

parse_precision-Precise : (f : PrintFlags) (text : List ℕ) → Precise (parse_precision f text)
unfolding parse_precision
parse_precision-Precise f text = elim (Bool-cases (peek text == b'.')) [
  | inl dot ↦ rw dot (parse_field-lt (skip text), λ e. cc)
  | inr none_given ↦ rw none_given (omega arith, λ e. (refl, refl))
]

-- What the text says of the numbers.
record IsRead (s : Specifier) : Type 0 where
  width_fits : s.config.width < 2 ^ 32
  precision_fits : s.config.precision < 2 ^ 32
  no_precision :
      s.config.flags.precise ≡ false → (s.config.precision ≡ 0) × (s.precision_index ≡ no_index)

read_specifier-IsRead : (text : List ℕ) → IsRead (read_specifier text)
unfolding read_specifier
read_specifier-IsRead text =
    let flags = parse_flags no_flags (parse_index text).1 in
    let field = parse_field flags.1 in
    let precision = parse_precision-Precise flags.0 field.2 in
    record {
      width_fits = parse_field-lt flags.1;
      precision_fits = precision.0;
      no_precision = precision.1;
    }

-- The flags behind the three tests.
and_not : (z l p : Bool) → ((z && not l && not p) && l) ≡ false
and_not true true p = refl
and_not true false true = refl
and_not true false false = refl
and_not false l p = refl

no_zeros_left : (f : PrintFlags) → ((settle f).zero_padded && (settle f).left_justify) ≡ false
unfolding settle
no_zeros_left f = and_not f.zero_padded f.left_justify f.precise

no_space_sign : (f : PrintFlags) → ((settle f).empty_space && (settle f).force_sign) ≡ false
unfolding settle
no_space_sign f = ground arith

precise_cases :
    (z l p : Bool) (n : ℕ) → (p ≡ false → n ≡ 0) → ((z && not l && not p) && not (n == 0)) ≡ false
precise_cases true true p n h = refl
precise_cases true false true n h = refl
precise_cases true false false n h = rw (h refl) refl
precise_cases false l p n h = refl

no_zeros_precise :
    (f : PrintFlags) (n : ℕ)
    → (f.precise ≡ false → n ≡ 0)
    → ((settle f).zero_padded && not (n == 0)) ≡ false
unfolding settle
no_zeros_precise f n h = precise_cases f.zero_padded f.left_justify f.precise n h

settled :
    (s : Specifier) (w p v : ℕ)
    → (s.config.flags.precise ≡ false → p ≡ 0)
    → IsSettled (record s.config {
      flags = settle s.config.flags;
      width = u32 w;
      precision = u32 p;
      datum = v;
    })
unfolding settle
settled s w p v h = record {
  zeros_right = no_zeros_left s.config.flags;
  zeros_alone = no_zeros_precise s.config.flags (u32 p) (λ e. let z = h e in omega arith);
  space_alone = no_space_sign s.config.flags;
  width_fits = omega arith;
  precision_fits = omega arith;
}

unknown-IsSettled :
    (s : Specifier) → IsRead s → IsSettled (record s.config { flags = settle s.config.flags })
unfolding settle
unknown-IsSettled s k = record {
  zeros_right = no_zeros_left s.config.flags;
  zeros_alone = no_zeros_precise s.config.flags s.config.precision (λ e. (k.no_precision e).0);
  space_alone = no_space_sign s.config.flags;
  width_fits = k.width_fits;
  precision_fits = k.precision_fits;
}

-- A field that stands in the text is that number.
fetch_field_text :
    (get : VariadicArgs → ℕ → Fetched) (index value : ℕ) (a : VariadicArgs)
    → index ≡ no_index
    → fetch_field get index value a ≡ some (value, a)
unfolding fetch_field
fetch_field_text get index value a e = ground arith

-- The configuration of an answer is settled.
abbrev Settles : Option (PrintConfig × List ℕ × VariadicArgs) → Type 0
Settles none = Unit
Settles (some (config, rest, a)) = IsSettled config

bind_fetched-Settles :
    (o : Fetched) (go : ℕ → VariadicArgs → Option (PrintConfig × List ℕ × VariadicArgs))
    → ((v : ℕ) (a : VariadicArgs) → o ≡ some (v, a) → Settles (go v a))
    → Settles (bind_fetched o go)
bind_fetched-Settles none go h = tt
bind_fetched-Settles (some (v, a)) go h = h v a refl

fetch_all-Settles :
    (get : VariadicArgs → ℕ → Fetched) (s : Specifier) (a : VariadicArgs)
    → IsRead s
    → Settles (fetch_all get s a)
unfolding fetch_all
fetch_all-Settles get s a k =
    bind_fetched-Settles (fetch_field get s.width_index s.config.width a) _ (λ w a' ew.
      bind_fetched-Settles (fetch_field get s.precision_index s.config.precision a') _ (λ p a'' ep.
        bind_fetched-Settles (get a'' s.arg_index) _ (λ v b ev. settled s w p v (λ e.
          let (z, i) = k.no_precision e in
          let given : ◌≡◌ {A = Fetched} (some (p, a'')) (some (s.config.precision, a')) =
            sym ep ∙ fetch_field_text get s.precision_index s.config.precision a' i in
          let same : p ≡ s.config.precision = cc in same ∙ z))))

parse_print_specifier-Settles :
    (alloc : ℕ → Bool) (source : ℕ → ℕ) (text : List ℕ) (a : VariadicArgs)
    → Settles (parse_print_specifier alloc source text a)
unfolding parse_print_specifier
parse_print_specifier-Settles alloc source text a =
    let s = read_specifier text in
    let k = read_specifier-IsRead text in
    elim (Bool-cases (is_unknown s.config.type)) [
      | inl unknown ↦ rw unknown (unknown-IsSettled s k)
      | inr known ↦ rw known (fetch_all-Settles (variadic_args_get alloc source) s a k)
    ]

-- Whatever the text says and the arguments are, in the configuration that the parser leaves: zeros fill the
-- width only where the number is not put on the left and where the precision is 0, a space stands
-- for the sign only where `+` does not ask for one, and width and precision have 32 bits.
pub parse_print_specifier-IsSettled :
    (alloc : ℕ → Bool) (source : ℕ → ℕ) (text : List ℕ) (a : VariadicArgs) (config : PrintConfig)
    (rest : List ℕ) (b : VariadicArgs)
    → parse_print_specifier alloc source text a ≡ some (config, rest, b)
    → IsSettled config
parse_print_specifier-IsSettled alloc source text a config rest b e =
    subst Settles e (parse_print_specifier-Settles alloc source text a)
