-- ===== src/Mutex.antt =====
-- Mutexes (src/thread/mutex.c, `mutex_t` and `mutex_attr_t` of include/thread.h). A pointer is an
-- Option, `none` being NULL, and `errno` is passed on; `some 0` is the 0 that a function returns, `none`
-- its -1. What the kernel answers is an argument: the status of a wait, which is a function of the
-- timeout (`none` for an infinite one), and the statuses of creation, release and closing. Each
-- function is one step: the interlocked accesses to `owner` and `count` are not split.
pub mod Relock
pub mod Timed
pub mod Life
use windows_libc.Common.{
  ℕ, zero, suc, ◌+◌, ◌-◌, ◌*◌, ◌/◌, ◌%◌, ◌^◌, ◌≤◌, ◌<◌, min, max, bit_and, bit_or, bit_xor, ◌≡◌,
  refl, sym, ap, ◌∙◌, ◌≢◌, ◌↔◌, ◌⊎◌, inl, inr, Bool, true, false, ◌&&◌, ◌||◌, not, Option, none,
  some, List, [], ◌∷◌, ◌++◌, map, append-nil, append_assoc, reverse, reverse_snoc, length-reverse,
  arith, ltb, leb, ◌==◌, if◌then◌else◌, Bool-cases, Option-cases, length, get_elem?, set, get_or,
  take, drop, replicate, length-append, length-set, length-take, length-drop, length-replicate,
  take-append, drop-append, take-take-append, take-set, drop-cons, drop-nil, get_elem?-set_self,
  get_elem?-set_ne, ==_iff, &&_true, ltb→lt, lt→ltb, leb→le, u8, u16, u32, u64,
}
use windows_libc.Common.Errno.{Errno}
use windows_libc.Common.Int.{ℤ, pos, negsuc}
use windows_libc.Convert.Times.{Timespec, timespec_to_large_integer}
use windows_libc.ErrorMap.{map_ntstatus_to_errno, Status}

pub record Mutex : Type 0 where
  pub owner : ℕ
  pub count : ℕ
  pub type : ℕ
  pub handle : ℕ

pub record MutexAttr : Type 0 where
  pub shared : ℤ
  pub type : ℤ

abbrev pub recursive : ℕ
recursive = 1

abbrev pub timed : ℕ
timed = 2

abbrev pub Outcome : Type 0
Outcome = Option ℕ × Option Mutex × Errno

-- `VALIDATE_MUTEX` before the body `f`.
unfoldable pub validated : (Mutex → Errno → Outcome) → Option Mutex → Errno → Outcome
validated f none e = (none, none, Errno.einval)
validated f (some m) e = if m.handle == 0 then (none, some m, Errno.einval) else f m e

pub known_shared : ℤ → Bool
known_shared (negsuc n) = false
known_shared (pos n) = n == 0 || n == 1

pub known_type : ℤ → Option ℕ
known_type (negsuc n) = none
known_type (pos n) = if ltb 3 n then none else some n

-- The type that a mutex gets, `none` for attributes that are refused.
unfoldable pub type_of : Option MutexAttr → Option ℕ
unfolding known_shared known_type
type_of none = some timed
type_of (some a) = if known_shared a.shared then known_type a.type else none

-- `created` is the handle that `NtCreateMutant` gives, or its status.
unfoldable pub mutex_init : Status → ℕ → Option MutexAttr → Option Mutex → Errno → Outcome
unfolding type_of
mutex_init created handle attributes none e = (none, none, Errno.einval)
mutex_init created handle attributes (some m) e = elim (type_of attributes) [
  | none ↦ (none, some m, Errno.einval)
  | some type ↦ elim created [
    | Status.success ↦
        (some 0, some (record { owner = 0; count = 0; type = type; handle = handle }), e)
    | failure ↦ (none, some m, map_ntstatus_to_errno failure e)
  ]
]

unfoldable pub mutex_destroy : Status → Option Mutex → Errno → Outcome
unfolding validated
mutex_destroy closed = validated (λ m e. elim closed [
  | Status.success ↦ (some 0, some (record m { handle = 0; owner = 0; count = 0 }), e)
  | failure ↦ (none, some m, map_ntstatus_to_errno failure e)
])

-- The timeout that is handed to the kernel, `none` for an infinite wait.
unfoldable pub timeout_of : Mutex → Option Timespec → Option ℕ
timeout_of m none = none
timeout_of m (some t) =
    if bit_and m.type timed == 0
    then none
    else some
        (if not (t.tv_sec == 0) && not (t.tv_nsec == 0) then timespec_to_large_integer t else 0)

-- `timeout.QuadPart`, which is 0 where none was set.
abbrev pub quad_part : Option ℕ → ℕ
quad_part none = 0
quad_part (some t) = t

-- A try to lock reports EBUSY in place of ETIMEDOUT.
unfoldable pub busy : Errno → Errno
busy Errno.etimedout = Errno.ebusy
busy e = e

-- The end of the wait.
unfoldable pub after_wait : ℕ → Option ℕ → Status → Mutex → Errno → Outcome
unfolding busy
after_wait thread timeout Status.success m e =
    (some 0, some (record m { owner = thread; count = u32 (m.count + 1) }), e)
after_wait thread timeout failure m e =
    let mapped = map_ntstatus_to_errno failure e in
    (none, some m, if quad_part timeout == 0 then busy mapped else mapped)

-- The owner asks again for a mutex that is not recursive.
abbrev pub relocks : ℕ → Mutex → Bool
relocks thread m = not (bit_and m.type recursive == recursive) && m.owner == thread

unfoldable pub common_lock : ℕ → (Option ℕ → Status) → Option Timespec → Mutex → Errno → Outcome
common_lock thread wait abstime m e =
    let timeout = timeout_of m abstime in
    let waited = after_wait thread timeout (wait timeout) m e in
    if relocks thread m then (none, some m, Errno.edeadlk) else waited

unfoldable pub mutex_lock : ℕ → (Option ℕ → Status) → Option Mutex → Errno → Outcome
unfolding validated
mutex_lock thread wait = validated (common_lock thread wait none)

unfoldable pub mutex_trylock : ℕ → (Option ℕ → Status) → Option Mutex → Errno → Outcome
unfolding validated
mutex_trylock thread wait =
    validated (common_lock thread wait (some (record { tv_sec = 0; tv_nsec = 0 })))

unfoldable pub mutex_timedlock :
    ℕ → (Option ℕ → Status) → Option Timespec → Option Mutex → Errno → Outcome
unfolding validated
mutex_timedlock thread wait none = validated (λ m e. (none, some m, Errno.einval))
mutex_timedlock thread wait (some t) = validated (common_lock thread wait (some t))

-- The count is an `unsigned int`; at 0 the mutex has no owner.
unfoldable pub release : Mutex → Mutex
release m =
    let count = u32 (m.count + (2 ^ 32 - 1)) in
    record m { count = count; owner = if count == 0 then 0 else m.owner }

unfoldable pub mutex_unlock : Status → Option Mutex → Errno → Outcome
unfolding validated release
mutex_unlock released = validated (λ m e. elim released [
  | Status.success ↦ (some 0, some (release m), e)
  | failure ↦ (none, some m, map_ntstatus_to_errno failure e)
])

-- The result of an operation on attributes.
abbrev pub AttrOutcome : Type 0
AttrOutcome = Option ℕ × Option MutexAttr × Errno

pub mutexattr_init : Option MutexAttr → Errno → AttrOutcome
mutexattr_init none e = (none, none, Errno.einval)
mutexattr_init (some a) e = (some 0, some (record { shared = pos 0; type = pos timed }), e)

unfoldable pub mutexattr_setpshared : ℤ → Option MutexAttr → Errno → AttrOutcome
unfolding known_shared
mutexattr_setpshared pshared none e = (none, none, Errno.einval)
mutexattr_setpshared pshared (some a) e =
    if known_shared pshared
    then (some 0, some (record a { shared = pshared }), e)
    else (none, some a, Errno.einval)

unfoldable pub mutexattr_settype : ℤ → Option MutexAttr → Errno → AttrOutcome
unfolding known_type
mutexattr_settype type none e = (none, none, Errno.einval)
mutexattr_settype type (some a) e = elim (known_type type) [
  | none ↦ (none, some a, Errno.einval)
  | some known ↦ (some 0, some (record a { type = type }), e)
]

-- The getters: `asked` says whether the pointer for the answer is not NULL, and the answer is what is
-- written there, `none` where the function returns -1.
pub mutexattr_getpshared : Bool → Option MutexAttr → Errno → Option ℤ × Errno
mutexattr_getpshared asked none e = (none, Errno.einval)
mutexattr_getpshared asked (some a) e = if asked then (some a.shared, e) else (none, Errno.einval)

pub mutexattr_gettype : Bool → Option MutexAttr → Errno → Option ℤ × Errno
mutexattr_gettype asked none e = (none, Errno.einval)
mutexattr_gettype asked (some a) e = if asked then (some a.type, e) else (none, Errno.einval)
