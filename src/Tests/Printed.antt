-- ===== src/Tests/Printed.antt =====
-- The formatted output of src/stdio/printf.c and the arguments of include/internal/varargs.h at concrete inputs.
use windows_libc.Common.{
  Option, ℕ, ◌+◌, ◌-◌, ◌*◌, ◌/◌, ◌<◌, ◌≡◌, refl, ◌≢◌, Bool, true, false, not, none, some, List, [],
  ◌∷◌, arith, ◌==◌, length,
}
use windows_libc.Buffer.{Buffer, writebyte, writen}
use windows_libc.Convert.Decimal.{int_to_dec}
use windows_libc.Printf.{mod_none, int_number, PrintConfig, bytes_of, perform}
use windows_libc.Printf.Pad.{take_sign, group_period, print_int_formatted}
use windows_libc.Printf.Pad.Layout.{layout, Prints}
use windows_libc.Printf.Pad.Numbers.{IsPlain, print_int_formatted-Prints, whole_groups}
use windows_libc.Printf.Print.{print_arg}
use windows_libc.Printf.Spec.{no_flags, parse_print_specifier}
use windows_libc.Printf.Spec.Sound.{IsSettled, parse_print_specifier-IsSettled}
use windows_libc.Printf.Format.{unfinished, unless_error, printf_internal, vsnprintf}
use windows_libc.Printf.Format.Finish.{printf_internal_ends}
use windows_libc.Printf.Format.Bounded.{vsnprintf_fits, vsnprintf_cut}
use windows_libc.Varargs.{VariadicArgs, variadic_args_init, variadic_args_get}
use windows_libc.Varargs.Next.{Gives}
use windows_libc.Varargs.Refine.{variadic_args_get-Gives, variadic_args_init-Keeps}

abbrev given : ℕ → Bool
given n = not (n == 0)

abbrev always : ℕ → Bool
always n = true

abbrev numbers : ℕ → ℕ
numbers n = n + 40

abbrev no_float : Bool → ℕ → List ℕ
no_float upper v = []

abbrev no_text : ℕ → ℕ → List ℕ
no_text size address = []

abbrev plain_config : PrintConfig
plain_config = record {
  type = int_number;
  modifier = mod_none;
  flags = no_flags;
  width = 0;
  precision = 0;
  result = 0;
  datum = 0;
}

abbrev wide : PrintConfig
wide = record plain_config { flags = record no_flags { zero_padded = true }; width = 8 }

wide-IsPlain : IsPlain wide
wide-IsPlain = record {
  width_small = omega arith;
  precision_small = omega arith;
  zeros = λ e. refl;
}

abbrev minus_42 : List ℕ
minus_42 = b'-' ∷ b'4' ∷ b'2' ∷ []

print_int_formatted-Prints_example : Prints (print_int_formatted wide minus_42) (
    layout false true 8 0
      (take_sign false minus_42).0
      (take_sign false minus_42).1
      (group_period false (length (take_sign false minus_42).1)))
print_int_formatted-Prints_example =
    print_int_formatted-Prints wide minus_42 wide-IsPlain (omega arith)
      (unfold take_sign in omega arith)

padded_minus :
    bytes_of (print_int_formatted wide minus_42).effects
    ≡ b'-' ∷ b'0' ∷ b'0' ∷ b'0' ∷ b'0' ∷ b'0' ∷ b'4' ∷ b'2' ∷ []
unfolding print_int_formatted bytes_of
padded_minus = refl

abbrev grouped : PrintConfig
grouped = record plain_config {
  flags = record no_flags { group = true; precise = true };
  precision = 6;
}

abbrev digits_23456 : List ℕ
digits_23456 = b'2' ∷ b'3' ∷ b',' ∷ b'4' ∷ b'5' ∷ b'6' ∷ []

whole_groups_example :
    (bytes_of (print_int_formatted grouped (b'1' ∷ digits_23456)).effects
      ≡ b'0' ∷ b'1' ∷ digits_23456)
    × (0 < (4 * 1 + 2) / 3 - 1)
whole_groups_example =
    whole_groups grouped b'1' digits_23456 1 (omega arith) (omega arith) refl refl refl refl refl
      refl (omega arith) (omega arith)

-- `%-08.*3$d`.
abbrev specification : List ℕ
specification = b'-' ∷ b'0' ∷ b'8' ∷ b'.' ∷ b'*' ∷ b'3' ∷ b'$' ∷ b'd' ∷ []

abbrev Parsed : Type 0
Parsed = Option (PrintConfig × List ℕ × VariadicArgs)

abbrev config_of : Parsed → PrintConfig
config_of none = plain_config
config_of (some (config, rest, a)) = config

abbrev args_of : Parsed → VariadicArgs
args_of none = variadic_args_init
args_of (some (config, rest, a)) = a

abbrev parsed : Parsed
parsed = parse_print_specifier always numbers specification variadic_args_init

parsed_whole : parsed ≡ some (config_of parsed, [], args_of parsed)
unfolding parse_print_specifier variadic_args_get variadic_args_init
parsed_whole = refl

parse_print_specifier-IsSettled_example : IsSettled (config_of parsed)
parse_print_specifier-IsSettled_example =
    parse_print_specifier-IsSettled always numbers specification variadic_args_init
      (config_of parsed) [] (args_of parsed) parsed_whole

-- The width 8, the precision from the third argument, which is 42, and the first argument.
parsed_fields :
    ((config_of parsed).width ≡ 8)
    × ((config_of parsed).precision ≡ 42)
    × ((config_of parsed).datum ≡ 40)
    × ((config_of parsed).flags.zero_padded ≡ false)
unfolding parse_print_specifier variadic_args_get variadic_args_init
parsed_fields = (refl, refl, refl, refl)

variadic_args_get-Gives_example :
    Gives numbers variadic_args_init (variadic_args_get always numbers variadic_args_init 70) 69 0
unfolding variadic_args_init
variadic_args_get-Gives_example =
    variadic_args_get-Gives always numbers (λ n. refl) variadic_args_init
      (variadic_args_init-Keeps numbers) 70 (omega arith) (omega arith)

abbrev hi : List ℕ
hi = b'h' ∷ b'i' ∷ b'%' ∷ b'd' ∷ []

abbrev empty_buffer : Buffer
empty_buffer = record { bytes = []; pos = 0; size = 0; error = false }

printf_internal_ends_example :
    printf_internal none no_float no_text given numbers hi empty_buffer ≢ unfinished
printf_internal_ends_example =
    printf_internal_ends none no_float no_text given numbers hi empty_buffer

abbrev array : List ℕ
array = 7 ∷ 7 ∷ 7 ∷ 7 ∷ []

abbrev ok : List ℕ
ok = b'o' ∷ b'k' ∷ []

abbrev hello : List ℕ
hello = b'h' ∷ b'e' ∷ b'l' ∷ b'l' ∷ b'o' ∷ []

vsnprintf_fits_example :
    vsnprintf no_float no_text given numbers array 4 ok ≡ some (some 2, b'o' ∷ b'k' ∷ 0 ∷ 7 ∷ [])
vsnprintf_fits_example =
    vsnprintf_fits no_float no_text given numbers array ok (omega arith) (omega arith)
      (omega arith, (omega arith, tt)) (omega arith)

vsnprintf_cut_example :
    vsnprintf no_float no_text given numbers array 4 hello
    ≡ some (some 5, b'h' ∷ b'e' ∷ b'l' ∷ b'l' ∷ [])
vsnprintf_cut_example =
    vsnprintf_cut no_float no_text given numbers array hello (omega arith) (omega arith)
      (omega arith, (omega arith, (omega arith, (omega arith, (omega arith, tt))))) (omega arith)

-- `%d` of 1000 does not fit in two bytes behind `ok`: it is dropped as a whole.
number_dropped :
    vsnprintf no_float no_text given (λ n. 1000) array 4 (b'o' ∷ b'%' ∷ b'd' ∷ [])
    ≡ some (some 5, b'o' ∷ 7 ∷ 7 ∷ 7 ∷ [])
unfolding vsnprintf perform writebyte writen parse_print_specifier print_arg variadic_args_get
    int_to_dec print_int_formatted unless_error
number_dropped = refl
