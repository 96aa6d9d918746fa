-- ===== src/FdTable/Sequence.antt =====
-- The sequence numbers of the open entries, by which the caches of paths tell whether a descriptor
-- was used again (src/fcntl/internal.c).
use windows_libc.Common.{
  ℕ, ◌+◌, ◌^◌, ◌≤◌, ◌<◌, ◌≡◌, sym, ap, ◌∙◌, ◌≢◌, ◌⊎◌, inl, inr, Bool, some, arith, ◌==◌, Bool-cases,
  length,
}
use windows_libc.FdTable.{HandleType, FdInfo, FdState, Outcome, register_to_fd_table}
use windows_libc.FdTable.View.{view}
use windows_libc.FdTable.Refine.{new_entry, Registers, register_to_fd_table-Registers}

-- No open entry is ahead of the counter, and no two have the same number.
pub record IsSequenced (s : FdState) : Type 0 where
  pub bounded : (i : ℕ) (e : FdInfo) → view s i ≡ some e → e.sequence ≤ s.sequence
  pub distinct :
      (i j : ℕ) (e d : FdInfo)
      → view s i ≡ some e
      → view s j ≡ some d
      → e.sequence ≡ d.sequence
      → i ≡ j

module _ {h : ℕ} {type : HandleType} {flags : ℕ} {s : FdState} {r : Outcome}
    (opened : Registers h type flags s r) (room : s.sequence + 1 < 2 ^ 32) where
  counter : r.1.sequence ≡ s.sequence + 1
  counter = ground (arith, opened.counted)

  opened_before :
      (i : ℕ) (e : FdInfo)
      → view r.1 i ≡ some e
      → ((i ≡ opened.fd) × (e.sequence ≡ s.sequence + 1)) ⊎ (view s i ≡ some e)
  opened_before i e q = elim (Bool-cases (opened.fd == i)) [
    | inl same ↦
        let written : new_entry h type flags s ≡ e = ground (arith, opened.after i) in
        inl (ground arith, sym (ap (λ d. d.sequence) written) ∙ ground arith)
    | inr different ↦ inr (ground (arith, opened.after i))
  ]

  Registers-IsSequenced : IsSequenced s → IsSequenced r.1
  Registers-IsSequenced ordered = record { bounded = within; distinct = unlike }
    where
      within : (i : ℕ) (e : FdInfo) → view r.1 i ≡ some e → e.sequence ≤ r.1.sequence
      within i e q = elim (opened_before i e q) [
        | inl (at, new) ↦ omega (arith, counter)
        | inr old ↦ omega (arith, counter, ordered.bounded i e old)
      ]

      unlike :
          (i j : ℕ) (e d : FdInfo)
          → view r.1 i ≡ some e
          → view r.1 j ≡ some d
          → e.sequence ≡ d.sequence
          → i ≡ j
      unlike i j e d p q same = elim (opened_before i e p) [
        | inl (at, new) ↦ elim (opened_before j d q) [
          | inl (at2, new2) ↦ omega arith
          | inr old ↦ omega (arith, ordered.bounded j d old)
        ]
        | inr before ↦ elim (opened_before j d q) [
          | inl (at2, new2) ↦ omega (arith, ordered.bounded i e before)
          | inr old ↦ ordered.distinct i j e d before old same
        ]
      ]

-- As long as the counter does not wrap around, registering a handle other than NULL in a table that is
-- not empty keeps the sequence numbers of the open entries different from each other and within the
-- counter, also when it fails.
pub register_to_fd_table-IsSequenced :
    (allocated : Bool) (memory : ℕ → FdInfo) (h : ℕ) (type : HandleType) (flags : ℕ) (s : FdState)
    → h ≢ 0
    → 0 < length s.table
    → s.sequence + 1 < 2 ^ 32
    → IsSequenced s
    → IsSequenced (register_to_fd_table allocated memory h type flags s).1
register_to_fd_table-IsSequenced allocated memory h type flags s nonzero some_room room ordered =
    elim (register_to_fd_table-Registers memory h type flags s nonzero allocated some_room) [
      | inl opened ↦ Registers-IsSequenced opened room ordered
      | inr failed ↦ rw failed.2 (record {
        bounded = λ i e q. ordered.bounded i e (unfold view in q);
        distinct =
            λ i j e d p q same. ordered.distinct i j e d (unfold view in p) (unfold view in q) same;
      })
    ]
