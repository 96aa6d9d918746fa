-- ===== src/ErrorMap.antt =====
-- The maps from the error codes of Windows to `errno` (src/internal/error.c). Both leave `errno` as
-- it was at a code that they do not list, here `other`.
use windows_libc.Common.{◌≡◌, ℕ, ◌⊎◌, arith, ◌≢◌, refl}
use windows_libc.Common.Errno.{Errno}

-- The codes of type `NTSTATUS` that the library tells apart.
pub data Status : Type 0 where
  success no_memory fatal_memory_exhaustion access_denied sharing_violation section_protection :
      Status
  invalid_owner cannot_delete mutant_not_owned privilege_not_held object_name_not_found : Status
  object_path_not_found too_many_opened_files name_too_long not_a_directory directory_not_empty :
      Status
  object_name_exists object_name_collision invalid_handle io_timeout io_unaligned_write : Status
  file_lock_conflict invalid_parameter illegal_function object_name_invalid invalid_ea_name : Status
  ea_list_inconsistent section_too_big mapped_alignment invalid_sub_authority invalid_acl : Status
  invalid_sid invalid_security_descr io_reparse_data_invalid file_is_a_directory pipe_broken :
      Status
  pipe_busy pipe_disconnected pipe_not_available invalid_device_request not_supported : Status
  eas_not_supported insufficient_resources lock_not_granted range_not_locked buffer_too_small :
      Status
  ea_too_large buffer_overflow timeout : Status
  other : ℕ → Status

-- The codes of `GetLastError` that the library tells apart.
pub data DosError : Type 0 where
  not_enough_memory outofmemory access_denied sharing_violation file_not_found path_not_found :
      DosError
  too_many_open_files directory dir_not_empty already_exists file_exists invalid_handle : DosError
  write_fault read_fault invalid_parameter invalid_function invalid_reparse_data invalid_name :
      DosError
  broken_pipe bad_pipe pipe_busy no_data pipe_not_connected : DosError
  other : ℕ → DosError

unfoldable pub map_ntstatus_to_errno : Status → Errno → Errno
map_ntstatus_to_errno Status.no_memory e = Errno.enomem
map_ntstatus_to_errno Status.fatal_memory_exhaustion e = Errno.enomem
map_ntstatus_to_errno Status.access_denied e = Errno.eacces
map_ntstatus_to_errno Status.sharing_violation e = Errno.eacces
map_ntstatus_to_errno Status.section_protection e = Errno.eacces
map_ntstatus_to_errno Status.invalid_owner e = Errno.eacces
map_ntstatus_to_errno Status.cannot_delete e = Errno.eperm
map_ntstatus_to_errno Status.mutant_not_owned e = Errno.eperm
map_ntstatus_to_errno Status.privilege_not_held e = Errno.eperm
map_ntstatus_to_errno Status.object_name_not_found e = Errno.enoent
map_ntstatus_to_errno Status.object_path_not_found e = Errno.enoent
map_ntstatus_to_errno Status.too_many_opened_files e = Errno.emfile
-- There is no `break` behind this case, so the next one is run too.
map_ntstatus_to_errno Status.name_too_long e = Errno.enotdir
map_ntstatus_to_errno Status.not_a_directory e = Errno.enotdir
map_ntstatus_to_errno Status.directory_not_empty e = Errno.enotempty
map_ntstatus_to_errno Status.object_name_exists e = Errno.eexist
map_ntstatus_to_errno Status.object_name_collision e = Errno.eexist
map_ntstatus_to_errno Status.invalid_handle e = Errno.ebadf
map_ntstatus_to_errno Status.io_timeout e = Errno.eio
map_ntstatus_to_errno Status.io_unaligned_write e = Errno.eio
map_ntstatus_to_errno Status.file_lock_conflict e = Errno.eio
map_ntstatus_to_errno Status.invalid_parameter e = Errno.einval
map_ntstatus_to_errno Status.illegal_function e = Errno.einval
map_ntstatus_to_errno Status.object_name_invalid e = Errno.einval
map_ntstatus_to_errno Status.invalid_ea_name e = Errno.einval
map_ntstatus_to_errno Status.ea_list_inconsistent e = Errno.einval
map_ntstatus_to_errno Status.section_too_big e = Errno.einval
map_ntstatus_to_errno Status.mapped_alignment e = Errno.einval
map_ntstatus_to_errno Status.invalid_sub_authority e = Errno.einval
map_ntstatus_to_errno Status.invalid_acl e = Errno.einval
map_ntstatus_to_errno Status.invalid_sid e = Errno.einval
map_ntstatus_to_errno Status.invalid_security_descr e = Errno.einval
map_ntstatus_to_errno Status.io_reparse_data_invalid e = Errno.einval
map_ntstatus_to_errno Status.file_is_a_directory e = Errno.eisdir
map_ntstatus_to_errno Status.pipe_broken e = Errno.epipe
map_ntstatus_to_errno Status.pipe_busy e = Errno.epipe
map_ntstatus_to_errno Status.pipe_disconnected e = Errno.epipe
map_ntstatus_to_errno Status.pipe_not_available e = Errno.epipe
map_ntstatus_to_errno Status.invalid_device_request e = Errno.erofs
map_ntstatus_to_errno Status.not_supported e = Errno.enotsup
map_ntstatus_to_errno Status.eas_not_supported e = Errno.enotsup
map_ntstatus_to_errno Status.insufficient_resources e = Errno.enolck
map_ntstatus_to_errno Status.lock_not_granted e = Errno.enolck
map_ntstatus_to_errno Status.range_not_locked e = Errno.enolck
map_ntstatus_to_errno Status.buffer_too_small e = Errno.erange
map_ntstatus_to_errno Status.ea_too_large e = Errno.e2big
map_ntstatus_to_errno Status.buffer_overflow e = Errno.e2big
map_ntstatus_to_errno Status.timeout e = Errno.etimedout
map_ntstatus_to_errno Status.success e = e
map_ntstatus_to_errno (Status.other code) e = e

pub map_doserror_to_errno : DosError → Errno → Errno
map_doserror_to_errno DosError.not_enough_memory e = Errno.enomem
map_doserror_to_errno DosError.outofmemory e = Errno.enomem
map_doserror_to_errno DosError.access_denied e = Errno.eacces
map_doserror_to_errno DosError.sharing_violation e = Errno.eacces
map_doserror_to_errno DosError.file_not_found e = Errno.enoent
map_doserror_to_errno DosError.path_not_found e = Errno.enoent
map_doserror_to_errno DosError.too_many_open_files e = Errno.emfile
map_doserror_to_errno DosError.directory e = Errno.enotdir
map_doserror_to_errno DosError.dir_not_empty e = Errno.enotempty
map_doserror_to_errno DosError.already_exists e = Errno.eexist
map_doserror_to_errno DosError.file_exists e = Errno.eexist
map_doserror_to_errno DosError.invalid_handle e = Errno.ebadf
map_doserror_to_errno DosError.write_fault e = Errno.eio
map_doserror_to_errno DosError.read_fault e = Errno.eio
map_doserror_to_errno DosError.invalid_parameter e = Errno.einval
map_doserror_to_errno DosError.invalid_function e = Errno.einval
map_doserror_to_errno DosError.invalid_reparse_data e = Errno.einval
map_doserror_to_errno DosError.invalid_name e = Errno.einval
map_doserror_to_errno DosError.broken_pipe e = Errno.epipe
map_doserror_to_errno DosError.bad_pipe e = Errno.epipe
map_doserror_to_errno DosError.pipe_busy e = Errno.epipe
map_doserror_to_errno DosError.no_data e = Errno.epipe
map_doserror_to_errno DosError.pipe_not_connected e = Errno.epipe
map_doserror_to_errno (DosError.other code) e = e

-- No status makes `map_ntstatus_to_errno` set `ENAMETOOLONG` where `errno` was another value before; a
-- name that is too long is reported like something that is not a directory.
pub map_ntstatus_never_too_long :
    (s : Status) (e : Errno)
    → e ≢ Errno.enametoolong
    → (map_ntstatus_to_errno s e ≢ Errno.enametoolong)
      × (map_ntstatus_to_errno Status.name_too_long e
          ≡ map_ntstatus_to_errno Status.not_a_directory e)
unfolding map_ntstatus_to_errno
map_ntstatus_never_too_long s e h = (ground arith, refl)

-- Each of the two maps either leaves `errno` alone, whatever it is, or sets it to a value that does
-- not depend on what it was.
pub errno_maps_stateless :
    (s : Status) (d : DosError) (e f : Errno)
    → ((map_ntstatus_to_errno s e ≡ e) ⊎ (map_ntstatus_to_errno s e ≡ map_ntstatus_to_errno s f))
      × ((map_doserror_to_errno d e ≡ e) ⊎ (map_doserror_to_errno d e ≡ map_doserror_to_errno d f))
unfolding map_ntstatus_to_errno map_doserror_to_errno
errno_maps_stateless s d e f = (ground arith, ground arith)
