-- ===== src/Tests/Signals.antt =====
-- Signal sets and masks, with handlers that record the signals that were raised.
use windows_libc.Common.{
  ℕ, ◌+◌, ◌≡◌, ◌≢◌, refl, false, arith, ◌==◌, if◌then◌else◌, Option, some, List, [], ◌∷◌, ◌++◌,
}
use windows_libc.Common.Errno.{Errno}
use windows_libc.Signal.{
  Signals, Outcome, ended, returned, sig_setmask, new_mask, raise, execute_signal_handler,
  enter_handler, leave_handler, drop_result, go_on, deliver_one, deliver, change_mask,
  sigprocmask_with, sigprocmask,
}
use windows_libc.Signal.Laws.{MasksLast, sigprocmask_last}

abbrev record_signal : ℕ → ℕ → Signals (List ℕ) → Outcome (Signals (List ℕ))
record_signal action sig s = returned (record s { world = s.world ++ (sig ∷ []) })

abbrev stopped : List ℕ → List ℕ
stopped world = world

-- The signals 2, 5 and 31 are blocked and pending, and every signal has a handler.
abbrev blocked : Signals (List ℕ)
blocked = record {
  sigmask = 4 + 32 + 2147483648;
  pending = 4 + 32 + 2147483648;
  table = λ i. record { action = 4096; flags = 0; mask = 2 };
  errno = Errno.eperm;
  world = [];
}

-- Ends the process for signal 31.
abbrev or_end : ℕ → Signals (List ℕ) → Outcome (Option ℕ × Signals (List ℕ))
or_end i s = if i == 31 then ended 7 else raise record_signal stopped i s

or_end_agrees :
    (i : ℕ) (s : Signals (List ℕ)) → i ≢ 31 → raise record_signal stopped i s ≡ or_end i s
or_end_agrees i s h = let test : (i == 31) ≡ false = ground arith in rw test refl

sigprocmask_last_example :
    MasksLast (sigprocmask record_signal stopped sig_setmask (some 0) blocked)
    × (sigprocmask record_signal stopped sig_setmask (some 0) blocked
        ≡ sigprocmask_with or_end sig_setmask (some 0) blocked)
sigprocmask_last_example =
    sigprocmask_last record_signal stopped or_end sig_setmask (some 0) blocked (λ action sig v k. k)
      or_end_agrees refl

raised :
    sigprocmask record_signal stopped sig_setmask (some 0) blocked
    ≡ returned (
      some 0,
      some 2147483684,
      record blocked { sigmask = 0; pending = 2147483648; world = 2 ∷ 5 ∷ [] },
    )
unfolding sigprocmask_with change_mask new_mask deliver deliver_one raise execute_signal_handler
    enter_handler leave_handler drop_result go_on
raised = refl
