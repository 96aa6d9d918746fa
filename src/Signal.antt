-- ===== src/Signal.antt =====
-- Signal sets and the signal mask of a thread (src/signal/sigprocmask.c), and `wlibc_raise`
-- (src/signal/raise.c). A `sigset_t` is a word of 32 bits
-- and `none` a null pointer; `some 0` and `some 1` are what a function returns, `none` its -1, and `errno` is
-- passed on. A signal number below 0 is refused like 0. The handlers of the program are an argument: a
-- function on the state of the thread. The loop over the signals has as many rounds as there are signals
-- from 1 to `NSIG` - 2.
pub mod Laws
use windows_libc.Common.{
  ℕ, zero, suc, ◌+◌, ◌-◌, ◌*◌, ◌/◌, ◌%◌, ◌^◌, ◌≤◌, ◌<◌, min, max, bit_and, bit_or, bit_xor, ◌≡◌,
  refl, sym, ap, ◌∙◌, ◌≢◌, ◌↔◌, ◌⊎◌, inl, inr, Bool, true, false, ◌&&◌, ◌||◌, not, Option, none,
  some, List, [], ◌∷◌, ◌++◌, map, append-nil, append_assoc, reverse, reverse_snoc, length-reverse,
  arith, ltb, leb, ◌==◌, if◌then◌else◌, Bool-cases, Option-cases, List-cases, length, get_elem?,
  set, get_or, take, drop, replicate, length-append, length-set, length-take, length-drop,
  length-replicate, take-append, drop-append, take-take-append, take-set, drop-cons, drop-nil,
  get_elem?-set_self, get_elem?-set_ne, ==_iff, &&_true, ltb→lt, lt→ltb, leb→le, u8, u16, u32, u64,
}
use windows_libc.Common.Errno.{Errno}

-- The set of all signals, `1u << sig`, and the complement of a word.
abbrev pub all_signals : ℕ
all_signals = 2 ^ 32 - 1

abbrev pub flag_of : ℕ → ℕ
flag_of sig = u32 (2 ^ sig)

abbrev pub complement : ℕ → ℕ
complement set = 2 ^ 32 - 1 - set

abbrev pub SetOutcome : Type 0
SetOutcome = Option ℕ × Option ℕ × Errno

abbrev pub is_signal : ℕ → Bool
is_signal sig = ltb 0 sig && ltb sig 32

unfoldable pub sigemptyset : Option ℕ → Errno → SetOutcome
sigemptyset none e = (none, none, Errno.einval)
sigemptyset (some set) e = (some 0, some 0, e)

-- `2u << 31` is 0.
unfoldable pub sigfillset : Option ℕ → Errno → SetOutcome
sigfillset none e = (none, none, Errno.einval)
sigfillset (some set) e = (some 0, some all_signals, e)

unfoldable pub sigaddset : Option ℕ → ℕ → Errno → SetOutcome
sigaddset none sig e = (none, none, Errno.einval)
sigaddset (some set) sig e =
    if is_signal sig
    then (some 0, some (bit_or set (flag_of sig)), e)
    else (none, some set, Errno.einval)

unfoldable pub sigdelset : Option ℕ → ℕ → Errno → SetOutcome
sigdelset none sig e = (none, none, Errno.einval)
sigdelset (some set) sig e =
    if is_signal sig
    then (some 0, some (bit_and set (complement (flag_of sig))), e)
    else (none, some set, Errno.einval)

unfoldable pub sigismember : Option ℕ → ℕ → Errno → SetOutcome
sigismember none sig e = (none, none, Errno.einval)
sigismember (some set) sig e =
    if is_signal sig
    then (some (if bit_and set (flag_of sig) == 0 then 0 else 1), some set, e)
    else (none, some set, Errno.einval)

-- `siginfo`, the entry of a signal in the table: `action` is 0 for `SIG_DFL`, 1 for `SIG_IGN`, and else the
-- address of a handler.
pub record SigInfo : Type 0 where
  pub action : ℕ
  pub flags : ℕ
  pub mask : ℕ

-- The part of `threadinfo` that signals use, the table of the signals, `errno`, and what the handlers act
-- on.
pub record Signals (S : Type 0) : Type 0 where
  pub sigmask : ℕ
  pub pending : ℕ
  pub table : ℕ → SigInfo
  pub errno : Errno
  pub world : S

-- A call, which may end the process with an exit status.
pub data Outcome (A : Type 0) : Type 0 where
  ended : ℕ → Outcome A
  returned : A → Outcome A

-- `SIG_BLOCK`, `SIG_UNBLOCK`, `SIG_SETMASK`, and any other number.
pub data How : Type 0 where
  sig_block sig_unblock sig_setmask other_how : How

abbrev pub is_other : How → Bool
is_other other_how = true
is_other how = false

-- The mask after the change.
unfoldable pub new_mask : How → ℕ → ℕ → ℕ
new_mask sig_block set mask = bit_or mask set
new_mask sig_unblock set mask = bit_and mask (complement set)
new_mask sig_setmask set mask = set
new_mask other_how set mask = mask

-- `SIGKILL` and `SIGSTOP`.
abbrev pub has_unblockable : ℕ → Bool
has_unblockable set = not (bit_and set (flag_of 9) == 0) || not (bit_and set (flag_of 22) == 0)

-- The signals whose default action is to do nothing, and those whose default action stops the process; the
-- others end it.
abbrev pub is_ignored : ℕ → Bool
is_ignored sig = (sig == 17) || (sig == 18) || (sig == 23) || (sig == 28)

abbrev pub is_stop : ℕ → Bool
is_stop sig = (sig == 19) || (sig == 20) || (sig == 21) || (sig == 22)

-- `SA_NODEFER` and `SA_RESETHAND`.
abbrev pub has_nodefer : ℕ → Bool
has_nodefer flags = not (bit_and flags 4 == 0)

abbrev pub has_resethand : ℕ → Bool
has_resethand flags = not (bit_and flags 16 == 0)

unfoldable pub reset_handler : ℕ → (ℕ → SigInfo) → ℕ → SigInfo
reset_handler sig table i = if i == sig then record (table i) { action = 0 } else table i

-- The state in which a handler runs.
unfoldable pub enter_handler : {S : Type 0} → ℕ → Signals S → Signals S
enter_handler sig s =
    let info = s.table sig in
    let mask = bit_or s.sigmask info.mask in
    record s {
      sigmask = if has_nodefer info.flags then mask else bit_or mask (flag_of sig);
      table = if has_resethand info.flags then reset_handler sig s.table else s.table;
    }

-- The return of a handler.
unfoldable pub leave_handler :
    {S : Type 0} → ℕ → Outcome (Signals S) → Outcome (Option ℕ × Signals S)
leave_handler mask (ended status) = ended status
leave_handler mask (returned s) = returned (some 0, record s { sigmask = mask })

-- `run address sig` is the handler at an address, and `suspend` is `NtSuspendProcess`.
module _ {S : Type 0} (run : ℕ → ℕ → Signals S → Outcome (Signals S)) (suspend : S → S) where
  unfoldable pub execute_signal_handler : ℕ → ℕ → Signals S → Outcome (Signals S)
  execute_signal_handler action sig s =
      if action == 0
      then (if is_ignored sig
          then returned s
          else if is_stop sig
          then returned (record s { world = suspend s.world })
          else ended (128 + sig))
      else run action sig s

  -- `wlibc_raise` of a thread that has its `threadinfo`.
  unfoldable pub raise : ℕ → Signals S → Outcome (Option ℕ × Signals S)
  raise sig s =
      let info = s.table sig in
      if not (is_signal sig)
      then returned (none, record s { errno = Errno.einval })
      else if not (bit_and s.sigmask (flag_of sig) == 0)
      then returned (some 0, record s { pending = bit_or s.pending (flag_of sig) })
      else if info.action == 1
      then returned (some 0, s)
      else leave_handler s.sigmask (execute_signal_handler info.action sig (enter_handler sig s))

-- The rest of the loop drops the result of `wlibc_raise`.
unfoldable pub drop_result : {S : Type 0} → Outcome (Option ℕ × Signals S) → Outcome (Signals S)
drop_result (ended status) = ended status
drop_result (returned (r, s)) = returned s

unfoldable pub go_on : {A B : Type 0} → (A → Outcome B) → Outcome A → Outcome B
go_on f (ended status) = ended status
go_on f (returned a) = f a

-- The result, the old mask, which the caller may want, and the thread.
abbrev pub MaskOutcome : Type 0 → Type 0
MaskOutcome S = Outcome (Option ℕ × Option ℕ × Signals S)

-- The code of `wlibc_sigprocmask` around a function that raises a signal.
module _ {S : Type 0} (raise_one : ℕ → Signals S → Outcome (Option ℕ × Signals S)) where
  -- One signal of the loop.
  unfoldable pub deliver_one : ℕ → ℕ → Signals S → Outcome (Signals S)
  deliver_one due i s =
      if bit_and due (flag_of i) == 0
      then returned s
      else drop_result
          (raise_one i (record s { pending = bit_and s.pending (complement (flag_of i)) }))

  -- `n` rounds of the loop, from the signal `i` on.
  unfoldable pub deliver : ℕ → ℕ → ℕ → Signals S → Outcome (Signals S)
  deliver zero due i s = returned s
  deliver (suc n) due i s = go_on (deliver n due (suc i)) (deliver_one due i s)

  -- The thread with its new mask, then the signals that are pending and not blocked any more.
  unfoldable pub change_mask : How → ℕ → Signals S → Outcome (Signals S)
  change_mask how set s =
      let mask = new_mask how set s.sigmask in
      let due = bit_and s.pending (bit_and s.sigmask (complement mask)) in
      deliver 30 due 1 (record s { sigmask = mask })

  -- `none` for the set is a null pointer.
  unfoldable pub sigprocmask_with : How → Option ℕ → Signals S → MaskOutcome S
  sigprocmask_with how newset s =
      if is_other how
      then returned (none, none, record s { errno = Errno.einval })
      else (elim newset [
        | none ↦ returned (some 0, some s.sigmask, s)
        | some set ↦
            if has_unblockable set
            then returned (none, some s.sigmask, record s { errno = Errno.einval })
            else go_on (λ s'. returned (some 0, some s.sigmask, s')) (change_mask how set s)
      ])

abbrev pub sigprocmask :
    {S : Type 0}
    → (ℕ → ℕ → Signals S → Outcome (Signals S))
    → (S → S)
    → How
    → Option ℕ
    → Signals S
    → MaskOutcome S
sigprocmask run suspend how newset s = sigprocmask_with (raise run suspend) how newset s
