-- ===== src/Signal/Masks.antt =====
-- kernel/signal.c: what the calls do to the masks; SIGKILL is the bit 8.
use mathlib.Core.Path.{subst}
use os_lab2_gui.Prelude.{
  ℕ, ◌-◌, ◌≡◌, refl, inl, inr, false, Option, none, some, arith, ◌==◌, Bool-cases,
}
use os_lab2_gui.Prelude.Int.{ℤ, pos, negsuc}
use os_lab2_gui.Prelude.Bits.{Bits, bits_or}
use os_lab2_gui.Prelude.Table.{update}
use os_lab2_gui.Memory.{Memory, Ran, ok, panicked, out_of_memory, and_then}
use os_lab2_gui.Fork.{verify_area}
use os_lab2_gui.Signal.{
  Sigaction, Signals, nomask, sigkill, no_handler, index_of, set_action, sys_ssetmask, sys_signal,
  action_mask, sys_sigaction, Machine, Saved, Handled, ignored, exits, calls, call_handler,
  do_signal, spent,
}

-- SIGKILL gets through: it is in no mask.
abbrev pub IsKillable : Signals → Type 0
IsKillable s =
    (s.blocked (sigkill - 1) ≡ false) × ((i : ℕ) → (s.sigaction i).sa_mask (sigkill - 1) ≡ false)

set_action-IsKillable :
    (i : ℕ) (a : Sigaction) (s : Signals)
    → IsKillable s
    → a.sa_mask 8 ≡ false
    → IsKillable (set_action i a s)
set_action-IsKillable i a s (clear, masks) e = (
  clear,
  λ j. elim (Bool-cases (i == j)) [ inl same ↦ rw same e | inr other ↦ rw other (masks j) ],
)

sys_ssetmask-IsKillable :
    (newmask : Bits) (s : Signals) → IsKillable s → IsKillable (sys_ssetmask newmask s).1
unfolding sys_ssetmask
sys_ssetmask-IsKillable newmask s (clear, masks) = (ground arith, masks)

sys_signal-IsKillable :
    (signum : ℤ) (handler restorer : ℕ) (s : Signals)
    → IsKillable s
    → IsKillable (sys_signal signum handler restorer s).1
unfolding sys_signal
sys_signal-IsKillable signum handler restorer s h = elim (Bool-cases (no_handler signum)) [
  | inl e ↦ rw e h
  | inr e ↦ rw e (set_action-IsKillable _ _ s h refl)
]

index_of-ne : (signum : ℤ) → no_handler signum ≡ false → (index_of signum == 8) ≡ false
index_of-ne (pos n) e = ground arith
index_of-ne (negsuc n) e = ground arith

action_mask-clear :
    (signum : ℤ) (a : Sigaction)
    → no_handler signum ≡ false
    → a.sa_mask 8 ≡ false
    → (action_mask (index_of signum) a).sa_mask 8 ≡ false
action_mask-clear signum a e clear = elim (Bool-cases (a.sa_flags nomask)) [
  | inl no_mask ↦ rw no_mask refl
  | inr masked ↦ rw (masked, clear, index_of-ne signum e) refl
]

-- the state that a run leaves, if it returns
abbrev Leaves : {A : Type 0} → (A → Type 0) → Ran A → Type 0
Leaves P (ok a) = P a
Leaves P panicked = Unit
Leaves P out_of_memory = Unit

Leaves-and_then :
    {A B : Type 0} (P : B → Type 0) (f : A → Ran B) (r : Ran A)
    → ((a : A) → Leaves P (f a))
    → Leaves P (and_then r f)
Leaves-and_then P f (ok a) h = h a
Leaves-and_then P f panicked h = tt
Leaves-and_then P f out_of_memory h = tt

abbrev Acted : ℤ × Option Sigaction × Signals × Memory → Type 0
Acted (r, old, signals, memory) = IsKillable signals

sys_sigaction-Leaves :
    (base : ℕ) (signum : ℤ) (action : Sigaction) (oldaction : Option ℕ) (s : Signals) (m : Memory)
    → IsKillable s
    → action.sa_mask 8 ≡ false
    → Leaves Acted (sys_sigaction base signum action oldaction s m)
unfolding sys_sigaction
sys_sigaction-Leaves base signum action none s m h e = elim (Bool-cases (no_handler signum)) [
  | inl refused ↦ rw (refused, Leaves) h
  | inr valid ↦
      rw (valid, Leaves) (set_action-IsKillable _ _ s h (action_mask-clear signum action valid e))
]
sys_sigaction-Leaves base signum action (some to) s m h e = elim (Bool-cases (no_handler signum)) [
  | inl refused ↦ rw (refused, Leaves) h
  | inr valid ↦ rw valid (
      Leaves-and_then _ _ (verify_area base to 16 m)
        (λ m1. set_action-IsKillable _ _ s h (action_mask-clear signum action valid e)))
]

-- the state in which a handler starts
abbrev Starts : Handled → Type 0
Starts ignored = Unit
Starts (exits code) = Unit
Starts (calls eip esp s) = IsKillable s.signals

spent-IsKillable :
    (i : ℕ) (s : Signals)
    → IsKillable s
    → IsKillable (record s {
      sigaction = update s.sigaction i (spent (s.sigaction i));
      blocked = bits_or s.blocked (s.sigaction i).sa_mask;
    })
spent-IsKillable i s (clear, masks) = (
  rw (clear, masks i) refl,
  λ j. elim (Bool-cases (i == j)) [ inl same ↦ rw same (masks i) | inr other ↦ rw other (masks j) ],
)

do_signal-Leaves :
    (base signr : ℕ) (r : Saved) (esp : ℕ) (s : Machine)
    → IsKillable s.signals
    → Leaves Starts (do_signal base signr r esp s)
unfolding do_signal call_handler
do_signal-Leaves base signr r esp s h =
    elim (Bool-cases ((s.signals.sigaction (signr - 1)).sa_handler == 1)) [
      | inl e ↦ rw (e, Leaves) tt
      | inr e ↦ elim (Bool-cases ((s.signals.sigaction (signr - 1)).sa_handler == 0)) [
        | inl none_set ↦ elim (Bool-cases (signr == 17)) [
          | inl child ↦ rw (e, none_set, child, Leaves) tt
          | inr other ↦ rw (e, none_set, other, Leaves) tt
        ]
        | inr set ↦
            rw (e, set)
              (Leaves-and_then _ _ (verify_area base _ _ s.memory)
                (λ memory1. spent-IsKillable (signr - 1) s.signals h))
      ]
    ]

-- A step of the task: a call of sys_ssetmask, sys_signal or sys_sigaction, or a handler that starts. The masks
-- given to sys_sigaction leave SIGKILL out.
pub data Step (s : Machine) : Machine → Type 0 where
  set_mask : (newmask : Bits) → Step s (record s { signals = (sys_ssetmask newmask s.signals).1 })
  install :
      (signum : ℤ) (handler restorer : ℕ)
      → Step s (record s { signals = (sys_signal signum handler restorer s.signals).1 })
  act :
      (base : ℕ) (signum : ℤ) (action : Sigaction) (oldaction : Option ℕ) (r : ℤ)
      (old : Option Sigaction) (signals : Signals) (memory : Memory)
      → action.sa_mask 8 ≡ false
      → sys_sigaction base signum action oldaction s.signals s.memory ≡ ok (r, old, signals, memory)
      → Step s (record s { signals = signals; memory = memory })
  start :
      (base signr : ℕ) (r : Saved) (esp eip top : ℕ) {s' : Machine}
      → do_signal base signr r esp s ≡ ok (calls eip top s')
      → Step s s'

pub data Reach (s : Machine) : Machine → Type 0 where
  here : Reach s s
  next : {t u : Machine} → Reach s t → Step t u → Reach s u

Step-IsKillable : {s t : Machine} → Step s t → IsKillable s.signals → IsKillable t.signals
Step-IsKillable {s} (set_mask newmask) h = sys_ssetmask-IsKillable newmask s.signals h
Step-IsKillable {s} (install signum handler restorer) h =
    sys_signal-IsKillable signum handler restorer s.signals h
Step-IsKillable {s} (act base signum action oldaction r old signals memory e ran) h =
    subst (Leaves Acted) ran
      (sys_sigaction-Leaves base signum action oldaction s.signals s.memory h e)
Step-IsKillable {s} (start base signr r esp eip top ran) h =
    subst (Leaves Starts) ran (do_signal-Leaves base signr r esp s h)

-- While no mask given to sys_sigaction has SIGKILL, whatever calls of sys_ssetmask, sys_signal and
-- sys_sigaction a task makes and whatever handlers start, SIGKILL is neither blocked nor in the mask of a
-- handler.
pub Reach-IsKillable : {s t : Machine} → IsKillable s.signals → Reach s t → IsKillable t.signals
Reach-IsKillable h here = h
Reach-IsKillable h (next r st) = Step-IsKillable st (Reach-IsKillable h r)
