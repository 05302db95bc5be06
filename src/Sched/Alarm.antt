-- ===== src/Sched/Alarm.antt =====
-- Alarms, signals and priorities in kernel/sched.c.
use os_lab2_gui.Prelude.{
  ℕ, ◌<◌, ◌≡◌, ◌≢◌, sym, ap, ◌∙◌, ◌⊎◌, ◌↔◌, inl, inr, Bool, true, false, not, ◌&&◌, ltb, Bool-cases,
  arith, ◌==◌,
}
use os_lab2_gui.Prelude.Int.{ℤ, pos, ◌≤ℤ◌, ◌-ℤ◌, ltb_ℤ}
use os_lab2_gui.Prelude.Bits.{bit, bits_or, bits_and, bits_not, any_bit-of_bit, bit-of_any_bit}
use os_lab2_gui.Task.{running, interruptible, is_interruptible, Task}
use os_lab2_gui.Sched.{blockable, check_alarm, has_signal, check_signal, check_task, sys_nice}

-- A signal that waits and is not blocked, or is SIGKILL or SIGSTOP, which cannot be blocked.
abbrev pub Deliverable : Task → ℕ → Type 0
Deliverable t i = (t.signal i ≡ true) × ((t.blocked i ≡ false) ⊎ ((i ≡ 8) ⊎ (i ≡ 18)))

has_signal-of_Deliverable : (t : Task) (i : ℕ) → i < 32 → Deliverable t i → has_signal t ≡ true
unfolding has_signal
has_signal-of_Deliverable t i h d =
    any_bit-of_bit 32 (bits_and t.signal (bits_not (bits_and blockable t.blocked))) i h
      (passes t i d.0 d.1)
  where
    passes :
        (t : Task) (i : ℕ)
        → t.signal i ≡ true
        → (t.blocked i ≡ false) ⊎ ((i ≡ 8) ⊎ (i ≡ 18))
        → bits_and t.signal (bits_not (bits_and blockable t.blocked)) i ≡ true
    passes t i s (inl free) = ground arith
    passes t i s (inr (inl kill)) = ground arith
    passes t i s (inr (inr stop)) = ground arith

Deliverable-of_has_signal : (t : Task) → has_signal t ≡ true → (i : ℕ) × (i < 32) × Deliverable t i
unfolding has_signal
Deliverable-of_has_signal t e =
    let (i, h, b) =
      bit-of_any_bit 32 (bits_and t.signal (bits_not (bits_and blockable t.blocked))) e in
    (i, h, parts t i b)
  where
    parts :
        (t : Task) (i : ℕ)
        → bits_and t.signal (bits_not (bits_and blockable t.blocked)) i ≡ true
        → Deliverable t i
    parts t i b = (ground arith, ground arith)

check_signal-runs :
    (t : Task) → has_signal t ≡ true → t.state ≡ interruptible → (check_signal t).state ≡ running
unfolding check_signal
check_signal-runs t h s = rw (h, s)

-- The alarm of the task has run out, and SIGALRM (14) is not blocked.
abbrev pub Rings : ℕ → Task → Type 0
Rings jiffies t = (t.alarm ≢ 0) × (t.alarm < jiffies) × (t.blocked 13 ≡ false)

abbrev alarm_test : ℕ → Task → Bool
alarm_test jiffies t = not (t.alarm == 0) && ltb t.alarm jiffies

check_alarm-Deliverable :
    (jiffies i : ℕ) (t : Task) → Deliverable t i → Deliverable (check_alarm jiffies t) i
unfolding check_alarm
check_alarm-Deliverable jiffies i t (s, free) = elim (Bool-cases (alarm_test jiffies t)) [
  | inl e ↦ rw (e, check_alarm) (ground arith, free)
  | inr e ↦ rw (e, check_alarm) (s, free)
]

check_alarm-state : (jiffies : ℕ) (t : Task) → (check_alarm jiffies t).state ≡ t.state
unfolding check_alarm
check_alarm-state jiffies t = elim (Bool-cases (alarm_test jiffies t)) [
  | inl e ↦ rw (e, check_alarm)
  | inr e ↦ rw (e, check_alarm)
]

check_alarm-Rings :
    (jiffies : ℕ) (t : Task) → Rings jiffies t → Deliverable (check_alarm jiffies t) 13
unfolding check_alarm
check_alarm-Rings jiffies t (ne, past, free) = rw (test, check_alarm) (ground arith, inl free)
  where
    test : alarm_test jiffies t ≡ true
    test = ground arith

-- a signal that is deliverable after the alarm check was so before, or the alarm rings
Deliverable-check_alarm :
    (jiffies i : ℕ) (t : Task)
    → Deliverable (check_alarm jiffies t) i
    → Deliverable t i ⊎ Rings jiffies t
unfolding check_alarm
Deliverable-check_alarm jiffies i t d = elim (Bool-cases (alarm_test jiffies t)) [
  | inl e ↦ rang e (rw (e, check_alarm) at d)
  | inr e ↦ inl (rw (e, check_alarm) at d)
]
  where
    by_alarm :
        alarm_test jiffies t ≡ true
        → 13 ≡ i
        → (t.blocked i ≡ false) ⊎ ((i ≡ 8) ⊎ (i ≡ 18))
        → Deliverable t i ⊎ Rings jiffies t
    by_alarm e is (inl free) = inr (ground arith, ground arith, ap t.blocked is ∙ free)
    by_alarm e is (inr (inl kill)) = absurd (omega arith)
    by_alarm e is (inr (inr stop)) = absurd (omega arith)

    rang :
        alarm_test jiffies t ≡ true
        → Deliverable (record t { signal = bits_or t.signal (bit 13); alarm = 0 }) i
        → Deliverable t i ⊎ Rings jiffies t
    rang e (s, free) = elim (Bool-cases (t.signal i)) [
      | inl already ↦ inl (already, free)
      | inr new ↦ by_alarm e (ground arith) free
    ]

-- an interruptible task runs again exactly when a signal waits for it
check_signal-only :
    (t : Task) → (check_signal t).state ≡ running → t.state ≡ interruptible → has_signal t ≡ true
unfolding check_signal
check_signal-only t r s = elim (Bool-cases (has_signal t && is_interruptible t.state)) [
  | inl e ↦ ground arith
  | inr e ↦ absurd (asleep (sym s ∙ (rw (e, check_signal) at r)))
]
  where
    asleep : interruptible ≡ running → ⊥
    asleep q = cc

-- `schedule` wakes an interruptible task exactly when it has a deliverable signal or its alarm rings.
pub check_task-wakes :
    (jiffies : ℕ) (t : Task)
    → t.state ≡ interruptible
    → ((check_task jiffies t).state ≡ running)
      ↔ (((i : ℕ) × (i < 32) × Deliverable t i) ⊎ Rings jiffies t)
unfolding check_task
check_task-wakes jiffies t s = (because, wakes)
  where
    waiting : (check_alarm jiffies t).state ≡ interruptible
    waiting = check_alarm-state jiffies t ∙ s

    wakes :
        ((i : ℕ) × (i < 32) × Deliverable t i) ⊎ Rings jiffies t
        → (check_signal (check_alarm jiffies t)).state ≡ running
    wakes (inl (i, h, d)) =
        check_signal-runs (check_alarm jiffies t)
          (has_signal-of_Deliverable (check_alarm jiffies t) i h
            (check_alarm-Deliverable jiffies i t d))
          waiting
    wakes (inr rings) =
        check_signal-runs (check_alarm jiffies t)
          (has_signal-of_Deliverable (check_alarm jiffies t) 13 (omega arith)
            (check_alarm-Rings jiffies t rings))
          waiting

    because :
        (check_signal (check_alarm jiffies t)).state ≡ running
        → ((i : ℕ) × (i < 32) × Deliverable t i) ⊎ Rings jiffies t
    because run =
        let (i, h, d) =
          Deliverable-of_has_signal (check_alarm jiffies t)
            (check_signal-only (check_alarm jiffies t) run waiting) in
        elim (Deliverable-check_alarm jiffies i t d) [
          | inl d' ↦ inl (i, h, d')
          | inr rings ↦ inr rings
        ]

-- `sys_nice` keeps a positive priority positive, whatever the increment.
pub sys_nice-priority :
    (increment : ℤ) (t : Task) → pos 1 ≤ℤ t.priority → pos 1 ≤ℤ (sys_nice increment t).priority
unfolding sys_nice ◌-ℤ◌
sys_nice-priority increment t h = elim (Bool-cases (ltb_ℤ (pos 0) (t.priority -ℤ increment))) [
  | inl e ↦ rw (e, sys_nice) (ground arith)
  | inr e ↦ rw (e, sys_nice) h
]
