-- ===== src/FdTable/Refine.antt =====
-- The table as a map: what each operation does to the open descriptors.
use windows_libc.Common.{
  ℕ, ◌^◌, ◌-◌, ◌*◌, ◌≤◌, ◌<◌, ◌≡◌, refl, ap, ◌∙◌, ◌≢◌, ◌⊎◌, inl, inr, Bool, true, false, none, some,
  ◌++◌, arith, leb, Bool-cases, Option-cases, length, set, length-append, leb→le,
}
use windows_libc.Common.Errno.{Errno}
use windows_libc.FdTable.{
  HandleType, FdInfo, FdState, find_free, blanks, internal_insert_fd, set_standard, next_sequence,
  Outcome, register_grown, register_at, register_to_fd_table, insert_into_fd_table,
}
use windows_libc.FdTable.View.{
  view, update, open_at-set, open_at-blanks, length-blanks, open_at-beyond, IsFirstFree,
  find_free-some, find_free-none,
}

-- The entry that an insertion writes.
abbrev pub new_entry : ℕ → HandleType → ℕ → FdState → FdInfo
new_entry h type flags s = record {
  handle = h;
  type = type;
  flags = flags;
  sequence = next_sequence s;
}

set_standard-table : (i h : ℕ) (s : FdState) → (set_standard i h s).table ≡ s.table
set_standard-table i h s = ground arith

insertion-table :
    (i h : ℕ) (type : HandleType) (flags : ℕ) (s : FdState)
    → (internal_insert_fd i h type flags s).table ≡ set s.table i (new_entry h type flags s)
unfolding internal_insert_fd
insertion-table i h type flags s = set_standard-table i h _

insertion-counter :
    (i h : ℕ) (type : HandleType) (flags : ℕ) (s : FdState)
    → (internal_insert_fd i h type flags s).sequence ≡ next_sequence s
unfolding internal_insert_fd
insertion-counter i h type flags s = ground arith

insertion-view :
    (i h : ℕ) (type : HandleType) (flags : ℕ) (s : FdState) (j : ℕ)
    → h ≢ 0
    → i < length s.table
    → view (internal_insert_fd i h type flags s) j
      ≡ update (view s) i (some (new_entry h type flags s)) j
unfolding view
insertion-view i h type flags s j nonzero inside =
    simp
      (insertion-table i h type flags s, open_at-set s.table i (new_entry h type flags s) j inside)
      (ground arith)

-- A descriptor that was not open and is the lowest such one now names the new entry, and every other
-- descriptor names what it did.
pub record Registers (h : ℕ) (type : HandleType) (flags : ℕ) (s : FdState) (r : Outcome)
    : Type 0 where
  pub fd : ℕ
  pub returned : r.0 ≡ some fd
  pub fresh : view s fd ≡ none
  pub lowest : (j : ℕ) → j < fd → view s j ≢ none
  pub counted : r.1.sequence ≡ next_sequence s
  pub after : (j : ℕ) → view r.1 j ≡ update (view s) fd (some (new_entry h type flags s)) j

register_free :
    (i h : ℕ) (type : HandleType) (flags : ℕ) (s : FdState)
    → h ≢ 0
    → IsFirstFree s.table i
    → Registers h type flags s (some i, internal_insert_fd i h type flags s)
register_free i h type flags s nonzero first = record {
  fd = i;
  returned = refl;
  fresh = unfold view in first.free;
  lowest = λ j l. unfold view in first.lower j l;
  counted = insertion-counter i h type flags s;
  after = λ j. insertion-view i h type flags s j nonzero first.inside;
}

grown_view :
    (s : FdState) (memory : ℕ → FdInfo) (n j : ℕ)
    → view (record s { table = s.table ++ blanks memory (length s.table) n }) j ≡ view s j
unfolding view
grown_view s memory n j = open_at-blanks s.table memory (length s.table) n j

module _ (memory : ℕ → FdInfo) (h : ℕ) (type : HandleType) (flags : ℕ) (s : FdState)
    (nonzero : h ≢ 0) where
  register_grown-Registers :
      0 < length s.table
      → find_free s.table 0 ≡ none
      → Registers h type flags s (register_grown true memory h type flags s)
  unfolding register_grown
  register_grown-Registers some_room full = record {
    fd = length s.table;
    returned = refl;
    fresh = unfold view in open_at-beyond s.table (length s.table) (omega arith);
    lowest = λ j l. unfold view in find_free-none s.table 0 full j l;
    counted = insertion-counter (length s.table) h type flags _;
    after = λ j.
        insertion-view (length s.table) h type flags _ j nonzero (
          omega (
            arith,
            length-append s.table (blanks memory (length s.table) (length s.table)),
            length-blanks memory (length s.table) (length s.table),
          ))
        ∙ simp (grown_view s memory (length s.table) j) refl;
  }

  register_found :
      (allocated : Bool) {i : ℕ}
      → find_free s.table 0 ≡ some i
      → register_to_fd_table allocated memory h type flags s
        ≡ (some i, internal_insert_fd i h type flags s)
  unfolding register_to_fd_table register_at
  register_found allocated found = ap (λ o. register_at o allocated memory h type flags s) found

  register_full :
      (allocated : Bool)
      → find_free s.table 0 ≡ none
      → register_to_fd_table allocated memory h type flags s
        ≡ register_grown allocated memory h type flags s
  unfolding register_to_fd_table register_at
  register_full allocated full = ap (λ o. register_at o allocated memory h type flags s) full

  -- Registering a handle other than NULL in a table that is not empty opens the lowest descriptor
  -- that is not open and changes no other; only when every entry of the table is open and the
  -- allocation fails does it return -1, set `errno` to ENOMEM and change nothing else.
  pub register_to_fd_table-Registers :
      (allocated : Bool)
      → 0 < length s.table
      → Registers h type flags s (register_to_fd_table allocated memory h type flags s)
        ⊎ ((allocated ≡ false)
            × ((j : ℕ) → j < length s.table → view s j ≢ none)
            × (register_to_fd_table allocated memory h type flags s
                ≡ (none, record s { errno = Errno.enomem })))
  register_to_fd_table-Registers allocated some_room = elim (Option-cases (find_free s.table 0)) [
    | inr (i, found) ↦
        let (m, at, first) = find_free-some s.table 0 {k = i} found in
        let same : i ≡ m = omega arith in
        inl (
          rw (register_found allocated found)
            (register_free i h type flags s nonzero (rw same first)))
    | inl full ↦ elim (Bool-cases allocated) [
      | inl yes_room ↦
          inl
            (rw (register_full allocated full, yes_room) (register_grown-Registers some_room full))
      | inr failed ↦ inr (
        failed,
        (λ j l. unfold view in find_free-none s.table 0 full j l),
        rw (register_full allocated full, failed) (unfold register_grown in refl),
      )
    ]
  ]

  -- Inserting a handle other than NULL at a descriptor below 2 ^ 30, into a table with at least one and
  -- fewer than 2 ^ 31 entries, returns that descriptor, which now names the new entry, and changes no
  -- other; only when the descriptor is not in the table and the allocation fails does it return -1, set
  -- `errno` to ENOMEM and change nothing else.
  pub insert_into_fd_table-update :
      (allocated : Bool) (fd : ℕ)
      → 0 < length s.table
      → length s.table < 2 ^ 31
      → fd < 2 ^ 30
      → ((s' : FdState) × (insert_into_fd_table allocated memory fd h type flags s
            ≡ some (some fd, s'))
          × ((j : ℕ) → view s' j ≡ update (view s) fd (some (new_entry h type flags s)) j))
        ⊎ ((allocated ≡ false)
            × (length s.table ≤ fd)
            × (insert_into_fd_table allocated memory fd h type flags s
                ≡ some (none, record s { errno = Errno.enomem })))
  unfolding insert_into_fd_table
  insert_into_fd_table-update allocated fd some_room size low =
      let counted : leb (2 ^ 31) (length s.table) ≡ false = ground arith in
      let doubled : leb (2 ^ 31) (fd * 2) ≡ false = ground arith in
      elim (Bool-cases (leb (length s.table) fd)) [
        | inr inside ↦ inl (
          internal_insert_fd fd h type flags s,
          simp (counted, inside) refl,
          λ j. insertion-view fd h type flags s j nonzero (ground arith),
        )
        | inl beyond ↦ elim (Bool-cases allocated) [
          | inr failed ↦
              inr (failed, leb→le _ _ beyond, simp (counted, beyond, doubled, failed) refl)
          | inl yes_room ↦
              let more = blanks memory (length s.table) (fd * 2 - length s.table) in
              inl (
                internal_insert_fd fd h type flags (record s { table = s.table ++ more }),
                simp (counted, beyond, doubled, yes_room) refl,
                λ j.
                    insertion-view fd h type flags _ j nonzero (
                      ground (
                        arith,
                        length-append s.table more,
                        length-blanks memory (length s.table) (fd * 2 - length s.table),
                      ))
                    ∙ simp (grown_view s memory (fd * 2 - length s.table) j) refl,
              )
        ]
      ]
