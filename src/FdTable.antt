-- ===== src/FdTable.antt =====
-- The table of file descriptors (src/fcntl/internal.c, include/internal/fcntl.h). A handle is a
-- number of 64 bits, 0 being NULL. The table's size is the length of its list. The functions run
-- under the lock of the table, so each is one step. Where a function is called with a descriptor
-- that it indexes unchecked, the descriptor is a natural number. What the kernel and the heap answer
-- is an argument: whether an allocation succeeds, what new memory holds, the status of `NtClose`.
pub mod View
pub mod Refine
pub mod Lookup
pub mod Sequence
use windows_libc.Common.{
  ℕ, zero, suc, ◌+◌, ◌-◌, ◌*◌, ◌/◌, ◌%◌, ◌^◌, ◌≤◌, ◌<◌, min, max, bit_and, bit_or, bit_xor, ◌≡◌,
  refl, sym, ap, ◌∙◌, ◌≢◌, ◌↔◌, ◌⊎◌, inl, inr, Bool, true, false, ◌&&◌, ◌||◌, not, Option, none,
  some, List, [], ◌∷◌, ◌++◌, map, append-nil, append_assoc, reverse, reverse_snoc, length-reverse,
  arith, ltb, leb, ◌==◌, if◌then◌else◌, Bool-cases, Option-cases, length, get_elem?, set, get_or,
  take, drop, replicate, length-append, length-set, length-take, length-drop, length-replicate,
  take-append, drop-append, take-take-append, take-set, drop-cons, drop-nil, get_elem?-set_self,
  get_elem?-set_ne, ==_iff, &&_true, ltb→lt, lt→ltb, leb→le, u8, u16, u32, u64,
}
use windows_libc.Common.Errno.{Errno}
use windows_libc.Common.Int.{ℤ, pos, negsuc}
use windows_libc.ErrorMap.{map_ntstatus_to_errno, Status}

pub data HandleType : Type 0 where
  invalid_handle null_handle console_handle file_handle directory_handle pipe_handle : HandleType

pub record FdInfo : Type 0 where
  pub handle : ℕ
  pub type : HandleType
  pub flags : ℕ
  pub sequence : ℕ

-- The table, the counter of sequence numbers, the handles of the process parameters, and `errno`.
pub record FdState : Type 0 where
  pub table : List FdInfo
  pub sequence : ℕ
  pub standard_input : ℕ
  pub standard_output : ℕ
  pub standard_error : ℕ
  pub errno : Errno

-- `INVALID_HANDLE_VALUE`, the pointer -1.
abbrev pub invalid_handle_value : ℕ
invalid_handle_value = 2 ^ 64 - 1

-- The `switch (index)` that keeps the process parameters in step.
abbrev pub set_standard : ℕ → ℕ → FdState → FdState
set_standard index h s =
    if index == 0
    then record s { standard_input = h }
    else if index == 1
    then record s { standard_output = h }
    else if index == 2
    then record s { standard_error = h }
    else s

-- `++_wlibc_fd_sequence`, an `unsigned int`.
abbrev pub next_sequence : FdState → ℕ
next_sequence s = u32 (s.sequence + 1)

unfoldable pub internal_insert_fd : ℕ → ℕ → HandleType → ℕ → FdState → FdState
internal_insert_fd index h type flags s =
    let entry : FdInfo = record {
      handle = h;
      type = type;
      flags = flags;
      sequence = next_sequence s;
    } in
    set_standard index h (record s { table = set s.table index entry; sequence = next_sequence s })

-- The loop over the table that stops at the first entry with a NULL handle.
unfoldable pub find_free : List FdInfo → ℕ → Option ℕ
find_free [] i = none
find_free (e ∷ t) i = let rest = find_free t (i + 1) in if e.handle == 0 then some i else rest

-- New entries: only the handle is written, the rest is what the memory held.
unfoldable pub blank : FdInfo → FdInfo
blank e = record e { handle = 0 }

unfoldable pub blanks : (ℕ → FdInfo) → ℕ → ℕ → List FdInfo
unfolding blank
blanks memory from zero = []
blanks memory from (suc n) = blank (memory from) ∷ blanks memory (from + 1) n

-- `none` is the -1 of the function.
abbrev pub Outcome : Type 0
Outcome = Option ℕ × FdState

abbrev pub fails : Errno → FdState → Outcome
fails e s = (none, record s { errno = e })

-- The entry at the old size is written by the insertion; the table has twice the size.
unfoldable pub register_grown : Bool → (ℕ → FdInfo) → ℕ → HandleType → ℕ → FdState → Outcome
register_grown allocated memory h type flags s =
    let size = length s.table in
    let grown : FdState = record s { table = s.table ++ blanks memory size size } in
    if allocated
    then (some size, internal_insert_fd size h type flags grown)
    else fails Errno.enomem s

-- The two branches after the search.
unfoldable pub register_at : Option ℕ → Bool → (ℕ → FdInfo) → ℕ → HandleType → ℕ → FdState → Outcome
register_at none allocated memory h type flags s = register_grown allocated memory h type flags s
register_at (some index) allocated memory h type flags s =
    (some index, internal_insert_fd index h type flags s)

unfoldable pub register_to_fd_table : Bool → (ℕ → FdInfo) → ℕ → HandleType → ℕ → FdState → Outcome
register_to_fd_table allocated memory h type flags s =
    register_at (find_free s.table 0) allocated memory h type flags s

-- Grows to twice the requested descriptor, which is an `int` that is not negative. `none` is the undefined
-- behaviour where twice the descriptor is no `int`, or the size of the table is none.
unfoldable pub insert_into_fd_table :
    Bool → (ℕ → FdInfo) → ℕ → ℕ → HandleType → ℕ → FdState → Option Outcome
insert_into_fd_table allocated memory fd h type flags s =
    let size = length s.table in
    let grown : FdState = record s { table = s.table ++ blanks memory size (fd * 2 - size) } in
    if leb (2 ^ 31) size
    then none
    else if not (leb size fd)
    then some (some fd, internal_insert_fd fd h type flags s)
    else if leb (2 ^ 31) (fd * 2)
    then none
    else if allocated
    then some (some fd, internal_insert_fd fd h type flags grown)
    else some (fails Errno.enomem s)

-- The loop over the table that stops at the first entry with the handle.
unfoldable pub find_handle : ℕ → List FdInfo → ℕ → Option ℕ
find_handle h [] i = none
find_handle h (e ∷ t) i =
    let rest = find_handle h t (i + 1) in
    if not (e.handle == invalid_handle_value) && e.handle == h then some i else rest

-- A change of the entry at an index.
unfoldable pub modify : List FdInfo → ℕ → (FdInfo → FdInfo) → List FdInfo
modify [] i f = []
modify (e ∷ t) zero f = f e ∷ t
modify (e ∷ t) (suc i) f = e ∷ modify t i f

unfoldable pub unregister_at : Option ℕ → FdState → FdState
unregister_at none s = s
unregister_at (some i) s = record s { table = modify s.table i blank }

unfoldable pub unregister_from_fd_table : ℕ → FdState → FdState
unregister_from_fd_table h s = unregister_at (find_handle h s.table 0) s

unfoldable pub found_fd : Option ℕ → FdState → Outcome
found_fd none s = fails Errno.ebadf s
found_fd (some i) s = (some i, s)

unfoldable pub get_fd : ℕ → FdState → Outcome
get_fd h s = found_fd (find_handle h s.table 0) s

unfoldable pub retire : FdInfo → FdInfo
retire e = record e { handle = 0; type = HandleType.invalid_handle }

-- `close_status` is what `NtClose` answers for the handle of the entry; `some 0` is the 0 that the
-- function returns.
unfoldable pub close_fd : Status → ℕ → FdState → Outcome
close_fd close_status fd s = elim close_status [
  | Status.success ↦ (some 0, record s { table = modify s.table fd retire })
  | failure ↦ (none, record s { errno = map_ntstatus_to_errno failure s.errno })
]

-- `_wlibc_fd_table[fd]`; a descriptor that is not in the table reads undefined memory, `none`.
unfoldable pub entry_at : FdState → ℕ → Option FdInfo
entry_at s fd = get_elem? s.table fd

pub get_fd_handle : FdState → ℕ → Option ℕ
get_fd_handle s fd = elim (entry_at s fd) [ none ↦ none | some e ↦ some e.handle ]

pub get_fd_flags : FdState → ℕ → Option ℕ
get_fd_flags s fd = elim (entry_at s fd) [ none ↦ none | some e ↦ some e.flags ]

-- `validate_fd` and, for a valid descriptor, the entry that `get_fdinfo` copies. `none` is the
-- invalid one, for which `get_fdinfo` gives the type `INVALID_HANDLE` and a NULL handle.
abbrev pub valid_entry : Option FdInfo → Option FdInfo
valid_entry none = none
valid_entry (some e) = if e.handle == 0 then none else some e

unfoldable pub fd_entry : FdState → ℤ → Option FdInfo
unfolding entry_at
fd_entry s (negsuc n) = none
fd_entry s (pos fd) = if leb (length s.table) fd then none else valid_entry (entry_at s fd)

pub validate_fd : FdState → ℤ → Bool
unfolding fd_entry
validate_fd s fd = elim (fd_entry s fd) [ none ↦ false | some e ↦ true ]

pub get_fd_type : FdState → ℤ → HandleType
unfolding fd_entry
get_fd_type s fd = elim (fd_entry s fd) [ none ↦ HandleType.invalid_handle | some e ↦ e.type ]

-- What `get_fdinfo` writes: the entry, or a NULL handle of the invalid type. The other fields of the
-- caller's record keep what they were.
unfoldable pub get_fdinfo : FdState → ℤ → FdInfo → FdInfo
unfolding fd_entry
get_fdinfo s fd info = elim (fd_entry s fd) [
  | none ↦ record info { handle = 0; type = HandleType.invalid_handle }
  | some e ↦ e
]

abbrev pub at_entry : FdState → ℕ → (FdInfo → FdInfo) → FdState
at_entry s fd f = record s { table = modify s.table fd f }

pub set_fd_handle : ℕ → ℕ → FdState → FdState
set_fd_handle fd h s = at_entry s fd (λ e. record e { handle = h })

pub set_fd_flags : ℕ → ℕ → FdState → FdState
set_fd_flags fd flags s = at_entry s fd (λ e. record e { flags = flags })

pub set_fd_type : ℕ → HandleType → FdState → FdState
set_fd_type fd type s = at_entry s fd (λ e. record e { type = type })

pub add_fd_flags : ℕ → ℕ → FdState → FdState
add_fd_flags fd flags s = at_entry s fd (λ e. record e { flags = bit_or e.flags flags })
