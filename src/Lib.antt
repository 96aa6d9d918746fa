-- ===== src/Lib.antt =====
-- A model of the parts of windows-libc that keep state or compute by themselves, between the POSIX
-- interface that the library offers and the calls of the Windows kernel.
--
-- - Buffer: the byte buffers of include/internal/buffer.h and src/internal/buffer.c, from which the
--   scanners read and to which the printers write. `readbyte`, `peekbyte`, `writebyte`, `writen` and
--   `memory_buffer_write` have the names of the source. Doubling the size is a loop on fuel: 64 rounds
--   reach every size below 2 ^ 62.
-- - Convert: src/internal/convert.c. Radix has `uint_to_hex_common` and the like for octal and
--   binary (`uint_to_hex` here), Decimal has `uint_to_dec_common`, `int_to_dec_common` and the
--   parser of digit groups `parse_digits`, Utf8 and Utf16 have the encoders and decoders, Times has
--   the conversions of times. The array `temp` of 32 bytes is a list, and a write behind it is the
--   result `none`. Loops are on fuel: the writers have the number of digits that 64 bits need, the
--   readers one round more than there are unread bytes.
-- - ErrorMap: src/internal/error.c, from the codes of Windows to `errno`.
-- - FdTable: the table of descriptors of src/fcntl/internal.c and include/internal/fcntl.h. View reads
--   the table as a map from descriptors to open entries; Refine and Lookup say what each operation does
--   to the map; Sequence has the numbers by which a descriptor that is used again is told apart.
-- - CpuSet: src/sched/cpuset.c. Member reads a set as a function from processors to digits.
-- - Mutex: src/thread/mutex.c. Relock, Timed and Life have what the functions do one after the other.
-- - Signal: the sets and the mask of src/signal/sigprocmask.c, and `wlibc_raise` of
--   src/signal/raise.c; the loop over the signals has its 30 rounds. The handlers of the program are an
--   argument, and a call may end the process.
-- - RwLock: src/thread/rwlock.c over the kernel's slim lock as a record of functions. Sound has sequences
--   of whole operations, Race an unlock in its parts against another thread.
-- - Stdio: the buffered streams, include/internal/stdio.h and `common_fflush` of
--   src/stdio/fflush.c. Read has `common_fread` of src/stdio/fread.c: Loops and Fill have its loops,
--   Ahead, Blocks and Refine what a read gives of the bytes that are ahead. Write has
--   `common_fwrite` of src/stdio/fwrite.c as an append to the bytes that go to the descriptor. Chars
--   has `fgetc`, `ungetc`, `fputc`, `fputs`, `fgets` and the flags, Seek has `fseek` and `ftell`.
--   The loops of a read have the size of the request and of the buffer as fuel, and a round reads a
--   byte; the loop of a write has the number of bytes, and a round writes one or more. `read`,
--   `write` and `lseek` of unistd are a record of functions, what they promise is a hypothesis.
-- - Getopt: src/getopt/getopt.c, with its static variables as a record. Long and Short have the two kinds
--   of options, Scan the loop that moves arguments, Calls, Options and Lookup whole calls. The loop has one round
--   more than there are arguments as fuel: each round passes an argument in front of the next option.
-- - Varargs: include/internal/varargs.h. `va_arg` is a function from the number of a call to the word that it
--   gives. Keep has the reading of arguments, Next the index 0, Refine all indices.
-- - Printf: src/stdio/printf.c. Spec has `parse_print_specifier`, Pad the two printers of numbers, Print the
--   rest of `print_arg`, Format `wlibc_printf_internal` and `wlibc_vsnprintf`, Callers the
--   functions that hand the buffer on, to a stream in `wlibc_vfprintf`. The printers give the list of
--   their calls on a Buffer, which Format performs. The memory that the texts of `%s` stand in is an
--   argument. A format is read up to 65536 bytes. A loop that pads has the number that it counts up to as fuel, the loop over the format one
--   round more than there are bytes, and a round reads one.
-- - Common: numbers, lists, the values of `errno`, and the digits of machine words under `&`, `|`, `^`.
-- - Tests: the theorems at concrete inputs.
--
-- The printers of stdio use Convert and Varargs and write to a Buffer; every operation that opens a file
-- uses FdTable, which reports a failure of the kernel by ErrorMap. Words of 64 bits are numbers
-- with the wrap-around written out. What the kernel and the heap answer (the statuses of `NtClose`
-- and of waits, whether an allocation succeeds, what new memory holds, the intrinsic `__popcnt64`)
-- is an argument of the functions. The global variable `errno` is passed from call to call. The
-- functions on the table of descriptors hold its lock from beginning to end, so each is one step.
--
-- Not modelled: the calls of the kernel themselves, floating point, the scanners of stdio,
-- the lock of a stream and the check of its magic number, the waits of a read-write lock with a time,
-- paths, directories, the functions that install the handlers of signals, and the start-up code.
pub mod Common
pub mod Buffer
pub mod Convert
pub mod ErrorMap
pub mod FdTable
pub mod CpuSet
pub mod Mutex
pub mod Printf
pub mod RwLock
pub mod Signal
pub mod Stdio
pub mod Getopt
pub mod Tests
pub mod Varargs
