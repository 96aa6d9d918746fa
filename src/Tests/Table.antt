-- ===== src/Tests/Table.antt =====
-- The table of descriptors (src/fcntl/internal.c) at concrete states.
use windows_libc.Common.{
  ℕ, zero, suc, ◌+◌, ◌≤◌, ◌<◌, ◌≡◌, refl, ◌≢◌, ◌⊎◌, true, false, none, some, [], ◌∷◌, arith, length,
}
use windows_libc.Common.Errno.{Errno}
use windows_libc.ErrorMap.{map_ntstatus_to_errno, map_ntstatus_never_too_long, Status}
use windows_libc.FdTable.{
  HandleType, FdInfo, FdState, register_at, find_free, register_to_fd_table, insert_into_fd_table,
  close_fd, invalid_handle_value,
}
use windows_libc.FdTable.View.{view, update}
use windows_libc.FdTable.Refine.{
  new_entry, Registers, register_to_fd_table-Registers, insert_into_fd_table-update,
}
use windows_libc.FdTable.Lookup.{close_fd-register}
use windows_libc.FdTable.Sequence.{IsSequenced, register_to_fd_table-IsSequenced}

abbrev garbage : ℕ → FdInfo
garbage i = record { handle = 99; type = HandleType.pipe_handle; flags = 3; sequence = 1 }

abbrev entry : ℕ → ℕ → FdInfo
entry h n = record { handle = h; type = HandleType.file_handle; flags = 2; sequence = n }

-- Descriptors 0 and 2 are open, descriptor 1 is not.
abbrev three : FdState
three = record {
  table = entry 11 1 ∷ entry 0 2 ∷ entry 13 3 ∷ [];
  sequence = 3;
  standard_input = 11;
  standard_output = 0;
  standard_error = 13;
  errno = Errno.eperm;
}

abbrev fresh : ℕ
fresh = 15

abbrev held : ℕ
held = 13

nonzero : fresh ≢ 0
nonzero = omega arith

register_to_fd_table-Registers_example :
    Registers fresh HandleType.pipe_handle 0 three
      (register_to_fd_table true garbage fresh HandleType.pipe_handle 0 three)
    ⊎ ((true ≡ false)
        × ((j : ℕ) → j < length three.table → view three j ≢ none)
        × (register_to_fd_table true garbage fresh HandleType.pipe_handle 0 three
            ≡ (none, record three { errno = Errno.enomem })))
register_to_fd_table-Registers_example =
    register_to_fd_table-Registers garbage fresh HandleType.pipe_handle 0 three nonzero true
      (omega arith)

insert_into_fd_table-update_example :
    ((s' : FdState) × (insert_into_fd_table true garbage 9 fresh HandleType.pipe_handle 0 three
        ≡ some (some 9, s'))
      × ((j : ℕ)
          → view s' j
            ≡ update (view three) 9 (some (new_entry fresh HandleType.pipe_handle 0 three)) j))
    ⊎ ((true ≡ false)
        × (length three.table ≤ 9)
        × (insert_into_fd_table true garbage 9 fresh HandleType.pipe_handle 0 three
            ≡ some (none, record three { errno = Errno.enomem })))
insert_into_fd_table-update_example =
    insert_into_fd_table-update garbage fresh HandleType.pipe_handle 0 three nonzero true 9
      (omega arith) (omega arith) (omega arith)

held_nonzero : held ≢ 0
held_nonzero = omega arith

held_real : held ≢ invalid_handle_value
held_real = omega arith

registered_one : (register_to_fd_table true garbage fresh HandleType.pipe_handle 0 three).0 ≡ some 1
unfolding register_to_fd_table register_at find_free
registered_one = refl

close_fd-register_example :
    view
      (close_fd Status.success 1
        (register_to_fd_table true garbage fresh HandleType.pipe_handle 0 three).1).1
      2
    ≡ view three 2
close_fd-register_example =
    close_fd-register true garbage fresh HandleType.pipe_handle 0 three 1 2 nonzero (omega arith)
      registered_one

three-IsSequenced : IsSequenced three
three-IsSequenced = record { bounded = within; distinct = unlike }
  where
    within : (i : ℕ) (e : FdInfo) → view three i ≡ some e → e.sequence ≤ 3
    within zero e q = unfold view in ground arith
    within (suc zero) e q = unfold view in ground arith
    within (suc (suc zero)) e q = unfold view in ground arith
    within (suc (suc (suc i))) e q = unfold view in ground arith

    numbered : (i : ℕ) (e : FdInfo) → view three i ≡ some e → e.sequence ≡ i + 1
    numbered zero e q = unfold view in ground arith
    numbered (suc zero) e q = unfold view in ground arith
    numbered (suc (suc zero)) e q = unfold view in ground arith
    numbered (suc (suc (suc i))) e q = unfold view in ground arith

    unlike :
        (i j : ℕ) (e d : FdInfo)
        → view three i ≡ some e
        → view three j ≡ some d
        → e.sequence ≡ d.sequence
        → i ≡ j
    unlike i j e d p q same = omega (arith, numbered i e p, numbered j d q)

register_to_fd_table-IsSequenced_example :
    IsSequenced (register_to_fd_table true garbage fresh HandleType.pipe_handle 0 three).1
register_to_fd_table-IsSequenced_example =
    register_to_fd_table-IsSequenced true garbage fresh HandleType.pipe_handle 0 three nonzero
      (omega arith) (omega arith) three-IsSequenced

eperm_other : Errno.eperm ≢ Errno.enametoolong
eperm_other = λ q. absurd (cc)

map_ntstatus_never_too_long_example :
    (map_ntstatus_to_errno Status.name_too_long Errno.eperm ≢ Errno.enametoolong)
    × (map_ntstatus_to_errno Status.name_too_long Errno.eperm
        ≡ map_ntstatus_to_errno Status.not_a_directory Errno.eperm)
map_ntstatus_never_too_long_example =
    map_ntstatus_never_too_long Status.name_too_long Errno.eperm eperm_other
