-- ===== src/Getopt/Short.antt =====
-- The short options of `wlibc_common_getopt` (src/getopt/getopt.c).
use windows_libc.Common.{
  ℕ, ◌+◌, ◌&&◌, not, Option, none, some, List, [], ◌∷◌, ltb, ◌==◌, if◌then◌else◌, get_elem?, drop,
}
use windows_libc.Common.Int.{ℤ, pos, negsuc}
use windows_libc.Stdio.Chars.{char_of}
use windows_libc.Getopt.{requires_argument, unrecognized_short, Getopt, char_at, report}

-- `strchr`: the rest of the string from the first such byte on.
unfoldable pub strchr : List ℕ → ℕ → Option (List ℕ)
strchr [] c = if c == 0 then some [] else none
strchr (x ∷ xs) c = if x == c then some (x ∷ xs) else strchr xs c

-- The next argument, where a short option may take it.
unfoldable pub next_argument : Getopt → Option (List ℕ)
next_argument s = if ltb s.optind s.exchange then get_elem? s.argv s.optind else none

unfoldable pub take_next : Option (List ℕ) → Getopt → Option Getopt
take_next none s = none
take_next (some next) s = some (record s { optarg = some next; optind = s.optind + 1 })

-- The parameter of an option: the rest of its argument, else the next one. `none` is a missing one.
unfoldable pub take_parameter : List ℕ → Getopt → Option Getopt
take_parameter argument s =
    if not (s.index == 0)
    then some (record s { optarg = some (drop s.index argument); optind = s.optind + 1; index = 0 })
    else take_next (next_argument s) s

-- An option whose parameter may be missing, and one whose parameter must be there.
unfoldable pub optional_done : ℕ → Option Getopt → Getopt → ℤ × Getopt
optional_done option none s = (char_of option, record s { optarg = none })
optional_done option (some s') s = (char_of option, s')

unfoldable pub mandatory_done : ℕ → Option Getopt → Getopt → ℤ × Getopt
mandatory_done option none s =
    (pos s.error_return, record (report (requires_argument option) s) { optarg = none })
mandatory_done option (some s') s = (char_of option, s')

-- `found` is the rest of `optstring` from the option on, and `s` the state behind its letter.
unfoldable pub take_short : List ℕ → ℕ → Option (List ℕ) → Getopt → ℤ × Getopt
take_short argument option none s = (
  pos s.error_return,
  record (report (unrecognized_short option) s) { optarg = none; optopt = char_of option },
)
take_short argument option (some found) s =
    if (char_at found 1 == 58) && (char_at found 2 == 58)
    then optional_done option (take_parameter argument s) s
    else if char_at found 1 == 58
    then mandatory_done option (take_parameter argument s) s
    else (char_of option, record s { optarg = none })

-- The state behind a letter of an argument.
unfoldable pub next_letter : List ℕ → Getopt → Getopt
next_letter argument s =
    if char_at argument (s.index + 1) == 0
    then record s { optind = s.optind + 1; index = 0 }
    else record s { index = s.index + 1 }

unfoldable pub short_option : List ℕ → List ℕ → Getopt → ℤ × Getopt
short_option optstring argument s =
    let option = char_at argument s.index in
    let start = if s.skip_first_char_option then drop 1 optstring else optstring in
    if char_at optstring 0 == 0
    then (negsuc 0, s)
    else take_short argument option (strchr start option) (next_letter argument s)
