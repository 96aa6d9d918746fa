-- ===== src/FdTable/Lookup.antt =====
-- Looking a handle up in the table, and closing what it names.
use windows_libc.Common.{
  ℕ, ◌<◌, ◌≡◌, refl, ap, ◌∙◌, ◌≢◌, ◌⊎◌, inl, inr, Bool, none, some, List, arith, ◌==◌, Bool-cases,
  Option-cases, length, get_elem?,
}
use windows_libc.Common.Errno.{Errno}
use windows_libc.ErrorMap.{map_ntstatus_to_errno, Status}
use windows_libc.FdTable.{
  HandleType, FdInfo, FdState, find_handle, blank, modify, valid_entry, invalid_handle_value,
  Outcome, unregister_at, found_fd, register_to_fd_table, unregister_from_fd_table, get_fd, retire,
  close_fd,
}
use windows_libc.FdTable.View.{
  open_at, view, update, get_elem?-modify, IsFirstHandle, find_handle-some, find_handle-none,
}
use windows_libc.FdTable.Refine.{Registers, register_to_fd_table-Registers}

open_at-modify :
    (t : List FdInfo) (i : ℕ) (f : FdInfo → FdInfo) (j : ℕ)
    → ((e : FdInfo) → valid_entry (some (f e)) ≡ none)
    → open_at (modify t i f) j ≡ update (open_at t) i none j
open_at-modify t i f j clears = elim (Bool-cases (i == j)) [
  | inr other ↦ rw (get_elem?-modify t i f j, other) refl
  | inl same ↦ elim (Option-cases (get_elem? t j)) [
    | inl q ↦ rw (get_elem?-modify t i f j, same, q) refl
    | inr (e, q) ↦ rw (get_elem?-modify t i f j, same, q) (clears e)
  ]
]

open_entry :
    {h : ℕ} (t : List FdInfo) (j : ℕ) (e : FdInfo)
    → h ≢ 0
    → get_elem? t j ≡ some e
    → e.handle ≡ h
    → open_at t j ≡ some e
open_entry t j e nonzero q same = rw q (ground arith)

raw_entry : (t : List FdInfo) (j : ℕ) (e : FdInfo) → open_at t j ≡ some e → get_elem? t j ≡ some e
raw_entry t j e q = elim (Option-cases (get_elem? t j)) [
  | inl r ↦ ground arith
  | inr (d, r) ↦ ground arith
]

-- The lowest descriptor that names a handle.
pub record Names (h : ℕ) (s : FdState) (fd : ℕ) : Type 0 where
  pub entry : FdInfo
  pub there : view s fd ≡ some entry
  pub same : entry.handle ≡ h
  pub lowest : (j : ℕ) (e : FdInfo) → j < fd → view s j ≡ some e → e.handle ≢ h

module _ (h : ℕ) (s : FdState) (nonzero : h ≢ 0) (real : h ≢ invalid_handle_value) where
  found-Names : {m : ℕ} → IsFirstHandle h s.table m → Names h s m
  unfolding view
  found-Names {m} first = record {
    entry = first.entry;
    there = open_entry {h = h} s.table m first.entry nonzero first.there first.same;
    same = first.same;
    lowest = λ j e l q. first.lower j e l (raw_entry s.table j e q);
  }

  find_handle-Names : {i : ℕ} → find_handle h s.table 0 ≡ some i → Names h s i
  find_handle-Names {i} found =
      let (m, at, first) = find_handle-some h s.table 0 {k = i} found real in
      let same : i ≡ m = omega arith in rw same (found-Names first)

  -- For a handle other than NULL and INVALID_HANDLE_VALUE, `get_fd` returns the lowest descriptor that
  -- names the handle and changes nothing, or, where no descriptor names it, returns -1 and sets `errno`
  -- to EBADF.
  pub get_fd-Names :
      ((fd : ℕ) × (get_fd h s ≡ (some fd, s)) × Names h s fd)
      ⊎ ((get_fd h s ≡ (none, record s { errno = Errno.ebadf }))
          × ((j : ℕ) (e : FdInfo) → view s j ≡ some e → e.handle ≢ h))
  unfolding get_fd found_fd
  get_fd-Names = elim (Option-cases (find_handle h s.table 0)) [
    | inr (i, found) ↦ inl (i, ap (λ o. found_fd o s) found, find_handle-Names found)
    | inl missing ↦ inr (
      ap (λ o. found_fd o s) missing,
      λ j e q.
          find_handle-none h s.table 0 missing real j e (raw_entry s.table j e (unfold view in q)),
    )
  ]

  unregister_found :
      {i : ℕ}
      → find_handle h s.table 0 ≡ some i
      → unregister_from_fd_table h s ≡ record s { table = modify s.table i blank }
  unfolding unregister_from_fd_table unregister_at
  unregister_found found = ap (λ o. unregister_at o s) found

  unregister_missing : find_handle h s.table 0 ≡ none → unregister_from_fd_table h s ≡ s
  unfolding unregister_from_fd_table unregister_at
  unregister_missing missing = ap (λ o. unregister_at o s) missing

  -- For a handle other than NULL and INVALID_HANDLE_VALUE, `unregister_from_fd_table` closes the lowest
  -- descriptor that names the handle and changes no other, or, where no descriptor names it, changes
  -- nothing.
  pub unregister_from_fd_table-Names :
      ((fd : ℕ) × Names h s fd
        × ((j : ℕ) → view (unregister_from_fd_table h s) j ≡ update (view s) fd none j))
      ⊎ ((unregister_from_fd_table h s ≡ s)
          × ((j : ℕ) (e : FdInfo) → view s j ≡ some e → e.handle ≢ h))
  unregister_from_fd_table-Names = elim (Option-cases (find_handle h s.table 0)) [
    | inr (i, found) ↦ inl (
      i,
      find_handle-Names found,
      λ j.
          rw (unregister_found found)
            (unfold view in unfold blank in open_at-modify s.table i blank j (λ e. refl)),
    )
    | inl missing ↦ inr (
      unregister_missing missing,
      λ j e q.
          find_handle-none h s.table 0 missing real j e (raw_entry s.table j e (unfold view in q)),
    )
  ]

close_fd-success :
    (fd : ℕ) (s : FdState) (j : ℕ)
    → view (close_fd Status.success fd s).1 j ≡ update (view s) fd none j
unfolding view close_fd retire
close_fd-success fd s j = open_at-modify s.table fd retire j (λ e. refl)

-- When `close_fd` returns 0 the descriptor names nothing and every other names what it did; when it
-- returns -1 every descriptor names what it did and `errno` is what the status of `NtClose` maps to. It
-- returns 0 exactly for STATUS_SUCCESS.
pub close_fd-update :
    (status : Status) (fd : ℕ) (s : FdState)
    → (((close_fd status fd s).0 ≡ some 0)
        × (status ≡ Status.success)
        × ((j : ℕ) → view (close_fd status fd s).1 j ≡ update (view s) fd none j))
      ⊎ (((close_fd status fd s).0 ≡ none)
          × (status ≢ Status.success)
          × (((j : ℕ) → view (close_fd status fd s).1 j ≡ view s j)
              × ((close_fd status fd s).1.errno ≡ map_ntstatus_to_errno status s.errno)))
unfolding close_fd view
close_fd-update Status.success fd s =
    inl (refl, refl, λ j. unfold retire in open_at-modify s.table fd retire j (λ e. refl))
close_fd-update failure fd s = inr (refl, (λ q. absurd (cc)), ((λ j. refl), refl))

close_fd-Registers :
    {h : ℕ} {type : HandleType} {flags : ℕ} {s : FdState} {r : Outcome}
    (opened : Registers h type flags s r) (j : ℕ)
    → view (close_fd Status.success opened.fd r.1).1 j ≡ view s j
close_fd-Registers opened j = elim (Bool-cases (opened.fd == j)) [
  | inl same ↦ close_fd-success opened.fd _ j ∙ ground (arith, opened.fresh)
  | inr different ↦ close_fd-success opened.fd _ j ∙ ground (arith, opened.after j)
]

-- Closing, with an `NtClose` that succeeds, the descriptor that a registration of a handle other than
-- NULL in a table that is not empty returned gives back the map there was before, at every descriptor.
pub close_fd-register :
    (allocated : Bool) (memory : ℕ → FdInfo) (h : ℕ) (type : HandleType) (flags : ℕ) (s : FdState)
    (fd j : ℕ)
    → h ≢ 0
    → 0 < length s.table
    → (register_to_fd_table allocated memory h type flags s).0 ≡ some fd
    → view (close_fd Status.success fd (register_to_fd_table allocated memory h type flags s).1).1 j
      ≡ view s j
close_fd-register allocated memory h type flags s fd j nonzero some_room returned =
    elim (register_to_fd_table-Registers memory h type flags s nonzero allocated some_room) [
      | inl opened ↦
          let same : opened.fd ≡ fd = ground (arith, opened.returned, returned) in
          rw same at (close_fd-Registers opened j)
      | inr failed ↦ absurd (ground (arith, failed.2, returned))
    ]
