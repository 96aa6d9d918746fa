-- ===== src/Signal/Laws.antt =====
-- The signal sets by their digits, and the signal 31 under `sigprocmask`.
use windows_libc.Common.{
  ℕ, zero, suc, ◌+◌, ◌-◌, ◌^◌, ◌≤◌, ◌<◌, bit_and, bit_or, ◌≡◌, refl, ap, ◌∙◌, inl, inr, true, false,
  ◌≢◌, Option, none, some, arith, ◌==◌, if◌then◌else◌, Bool-cases, set,
}
use windows_libc.Common.Errno.{Errno}
use windows_libc.Common.Bits.{bit, bit-bit_and, bit-bit_or, bit-pow, bit-complement, bit-le-one}
use native.Mathlib.Nat.{pow-le-pow_right, pow-suc, one-le-pow}
use windows_libc.Signal.{
  flag_of, complement, is_signal, sigaddset, sigdelset, Signals, How, other_how, has_unblockable,
  Outcome, ended, returned, MaskOutcome, is_ignored, is_stop, enter_handler, leave_handler,
  execute_signal_handler, raise, drop_result, go_on, deliver_one, deliver, change_mask,
  sigprocmask_with, sigprocmask,
}

small-pow : (k : ℕ) → k < 32 → 2 ^ k < 2 ^ 32
small-pow k h =
    let most : 2 ^ suc k ≤ 2 ^ 32 = pow-le-pow_right {n = 2} (omega arith) {i = suc k} {j = 32} h in
    omega (arith, pow-suc 2 k, one-le-pow k 2 (omega arith))

flag-pow : (sig : ℕ) → sig < 32 → flag_of sig ≡ 2 ^ sig
flag-pow sig small = ground (arith, small-pow sig small)

-- A digit of a set after a signal was taken out.
bit-without :
    (set sig j : ℕ)
    → sig < 32
    → j < 32
    → bit j (bit_and set (complement (flag_of sig))) ≡ (if j == sig then 0 else bit j set)
bit-without set sig j small low = rw (flag-pow sig small) (
    ground (
      arith,
      bit-bit_and j set (2 ^ 32 - 1 - 2 ^ sig),
      bit-complement 32 j (2 ^ sig) (small-pow sig small) low,
      bit-pow j sig,
      bit-le-one j set,
    ))

bit-with :
    (set sig j : ℕ)
    → sig < 32
    → bit j (bit_or set (flag_of sig)) ≡ (if j == sig then 1 else bit j set)
bit-with set sig j small =
    rw (flag-pow sig small)
      (ground (arith, bit-bit_or j set (2 ^ sig), bit-pow j sig, bit-le-one j set))

-- Signal 31 is pending, in a state and in what a call leaves, unless the process ended.
abbrev pub HasLast : {S : Type 0} → Signals S → Type 0
HasLast s = bit 31 s.pending ≡ 1

abbrev pub LeavesLast : {S : Type 0} → Outcome (Signals S) → Type 0
LeavesLast (ended status) = Unit
LeavesLast (returned s) = HasLast s

abbrev RaisesLast : {S : Type 0} → Outcome (Option ℕ × Signals S) → Type 0
RaisesLast (ended status) = Unit
RaisesLast (returned (r, s)) = HasLast s

abbrev pub MasksLast : {S : Type 0} → MaskOutcome S → Type 0
MasksLast (ended status) = Unit
MasksLast (returned (r, old, s)) = HasLast s

leave_handler-RaisesLast :
    {S : Type 0} (mask : ℕ) (o : Outcome (Signals S))
    → LeavesLast o
    → RaisesLast (leave_handler mask o)
unfolding leave_handler
leave_handler-RaisesLast mask (ended status) k = tt
leave_handler-RaisesLast mask (returned s) k = k

drop_result-LeavesLast :
    {S : Type 0} (o : Outcome (Option ℕ × Signals S)) → RaisesLast o → LeavesLast (drop_result o)
unfolding drop_result
drop_result-LeavesLast (ended status) k = tt
drop_result-LeavesLast (returned (r, s)) k = k

answer-MasksLast :
    {S : Type 0} (old : Option ℕ) (o : Outcome (Signals S))
    → LeavesLast o
    → MasksLast (go_on (λ s'. returned (some 0, old, s')) o)
unfolding go_on
answer-MasksLast old (ended status) k = tt
answer-MasksLast old (returned s) k = k

go_on-LeavesLast :
    {S : Type 0} (f : Signals S → Outcome (Signals S)) (o : Outcome (Signals S))
    → ((s : Signals S) → HasLast s → LeavesLast (f s))
    → LeavesLast o
    → LeavesLast (go_on f o)
unfolding go_on
go_on-LeavesLast f (ended status) keeps k = tt
go_on-LeavesLast f (returned s) keeps k = keeps s k

go_on-agree :
    {A B : Type 0} (f g : A → Outcome B) (o : Outcome A)
    → ((a : A) → f a ≡ g a)
    → go_on f o ≡ go_on g o
unfolding go_on
go_on-agree f g (ended status) same = refl
go_on-agree f g (returned a) same = same a

module _ {S : Type 0} (run : ℕ → ℕ → Signals S → Outcome (Signals S)) (suspend : S → S)
    (keeps : (action sig : ℕ) (s : Signals S) → HasLast s → LeavesLast (run action sig s)) where
  execute_signal_handler-LeavesLast :
      (action sig : ℕ) (s : Signals S)
      → HasLast s
      → LeavesLast (execute_signal_handler run suspend action sig s)
  unfolding execute_signal_handler
  execute_signal_handler-LeavesLast action sig s k = elim (Bool-cases (action == 0)) [
    | inr handled ↦ simp handled (keeps action sig s k)
    | inl default ↦ elim (Bool-cases (is_ignored sig)) [
      | inl ignored ↦ simp (default, ignored) k
      | inr some_action ↦ elim (Bool-cases (is_stop sig)) [
        | inl stops ↦ simp (default, some_action, stops) k
        | inr ends ↦ simp (default, some_action, ends) tt
      ]
    ]
  ]

  raise-RaisesLast : (sig : ℕ) (s : Signals S) → HasLast s → RaisesLast (raise run suspend sig s)
  unfolding raise
  raise-RaisesLast sig s k = elim (Bool-cases (is_signal sig)) [
    | inr refused ↦ simp refused k
    | inl valid ↦ elim (Bool-cases (bit_and s.sigmask (flag_of sig) == 0)) [
      | inr blocked ↦
          let small : sig < 32 = ground arith in
          simp (valid, blocked) (bit-with s.pending sig 31 small ∙ ground arith)
      | inl free ↦ elim (Bool-cases ((s.table sig).action == 1)) [
        | inl ignored ↦ simp (valid, free, ignored) k
        | inr acts ↦
            simp (valid, free, acts)
              (leave_handler-RaisesLast s.sigmask _ (
                execute_signal_handler-LeavesLast (s.table sig).action sig (enter_handler sig s)
                  (unfold enter_handler in k)))
      ]
    ]
  ]

  deliver_one-LeavesLast :
      (due i : ℕ) (s : Signals S)
      → i < 31
      → HasLast s
      → LeavesLast (deliver_one (raise run suspend) due i s)
  unfolding deliver_one
  deliver_one-LeavesLast due i s below k = elim (Bool-cases (bit_and due (flag_of i) == 0)) [
    | inl not_due ↦ simp not_due k
    | inr on ↦
        let other : (31 == i) ≡ false = ground arith in
        simp on (
          drop_result-LeavesLast _ (
            raise-RaisesLast i (record s { pending = bit_and s.pending (complement (flag_of i)) })
              (bit-without s.pending i 31 (omega arith) (omega arith) ∙ rw other k)))
  ]

  deliver-LeavesLast :
      (n due i : ℕ) (s : Signals S)
      → i + n ≤ 31
      → HasLast s
      → LeavesLast (deliver (raise run suspend) n due i s)
  unfolding deliver
  deliver-LeavesLast zero due i s below k = k
  deliver-LeavesLast (suc n) due i s below k =
      go_on-LeavesLast (deliver (raise run suspend) n due (suc i)) _
        (λ s' k'. deliver-LeavesLast n due (suc i) s' (omega arith) k')
        (deliver_one-LeavesLast due i s (omega arith) k)

  change_mask-LeavesLast :
      (how : How) (set : ℕ) (s : Signals S)
      → HasLast s
      → LeavesLast (change_mask (raise run suspend) how set s)
  unfolding change_mask
  change_mask-LeavesLast how set s k = deliver-LeavesLast 30 _ 1 _ (omega arith) k

  sigprocmask-MasksLast :
      (how : How) (newset : Option ℕ) (s : Signals S)
      → HasLast s
      → MasksLast (sigprocmask run suspend how newset s)
  unfolding sigprocmask_with
  sigprocmask-MasksLast other_how newset s k = k
  sigprocmask-MasksLast how none s k = k
  sigprocmask-MasksLast how (some set) s k = elim (Bool-cases (has_unblockable set)) [
    | inl refused ↦ simp refused k
    | inr valid ↦
        simp valid (answer-MasksLast (some s.sigmask) _ (change_mask-LeavesLast how set s k))
  ]

module _ {S : Type 0} (one other : ℕ → Signals S → Outcome (Option ℕ × Signals S))
    (agree : (i : ℕ) (s : Signals S) → i ≢ 31 → one i s ≡ other i s) where
  deliver_one-agree :
      (due i : ℕ) (s : Signals S) → i < 31 → deliver_one one due i s ≡ deliver_one other due i s
  unfolding deliver_one
  deliver_one-agree due i s below = rw (agree i _ (omega arith)) refl

  deliver-agree :
      (n due i : ℕ) (s : Signals S) → i + n ≤ 31 → deliver one n due i s ≡ deliver other n due i s
  unfolding deliver
  deliver-agree zero due i s below = refl
  deliver-agree (suc n) due i s below =
      ap (go_on (deliver one n due (suc i))) (deliver_one-agree due i s (omega arith))
      ∙ go_on-agree _ _ (deliver_one other due i s)
          (λ s'. deliver-agree n due (suc i) s' (omega arith))

  change_mask-agree :
      (how : How) (set : ℕ) (s : Signals S)
      → change_mask one how set s ≡ change_mask other how set s
  unfolding change_mask
  change_mask-agree how set s = deliver-agree 30 _ 1 _ (omega arith)

  sigprocmask_with-agree :
      (how : How) (newset : Option ℕ) (s : Signals S)
      → sigprocmask_with one how newset s ≡ sigprocmask_with other how newset s
  unfolding sigprocmask_with
  sigprocmask_with-agree other_how newset s = refl
  sigprocmask_with-agree how none s = refl
  sigprocmask_with-agree how (some set) s = rw (change_mask-agree how set s) refl

-- `sigprocmask` of a thread for which signal 31 is pending, where the handlers of the program do not take
-- it from the pending ones: whatever the call unblocks, the signal is still pending after it, unless a
-- signal ended the process, and the loop of the call does not raise it: the outcome is the same with any
-- other function in place of `wlibc_raise` there that agrees with it on the signals other than 31.
pub sigprocmask_last :
    {S : Type 0} (run : ℕ → ℕ → Signals S → Outcome (Signals S)) (suspend : S → S)
    (other : ℕ → Signals S → Outcome (Option ℕ × Signals S)) (how : How) (newset : Option ℕ)
    (s : Signals S)
    → ((action sig : ℕ) (v : Signals S) → HasLast v → LeavesLast (run action sig v))
    → ((i : ℕ) (v : Signals S) → i ≢ 31 → raise run suspend i v ≡ other i v)
    → HasLast s
    → MasksLast (sigprocmask run suspend how newset s)
      × (sigprocmask run suspend how newset s ≡ sigprocmask_with other how newset s)
sigprocmask_last run suspend other how newset s keeps agree k = (
  sigprocmask-MasksLast run suspend keeps how newset s k,
  sigprocmask_with-agree (raise run suspend) other agree how newset s,
)

-- Adding a signal to a set of 32 bits, and taking one out: both succeed for the signals from 1 to 31, the
-- set then has the signal or has it not, and all the others are as before.
pub sigaddset-Member :
    (set sig j : ℕ) (e : Errno)
    → 0 < sig
    → sig < 32
    → j < 32
    → (set1 set2 : ℕ) × (sigaddset (some set) sig e ≡ (some 0, some set1, e))
      × (sigdelset (some set) sig e ≡ (some 0, some set2, e))
      × (bit j set1 ≡ (if j == sig then 1 else bit j set))
      × (bit j set2 ≡ (if j == sig then 0 else bit j set))
unfolding sigaddset sigdelset
sigaddset-Member set sig j e positive small low =
    let test : is_signal sig ≡ true = ground arith in
    (
      bit_or set (flag_of sig),
      bit_and set (complement (flag_of sig)),
      simp test refl,
      simp test refl,
      bit-with set sig j small,
      bit-without set sig j small low,
    )
