-- ===== src/Sched/Choice.antt =====
-- Which task `schedule` of kernel/sched.c chooses, and the rounds that its loop takes.
use os_lab2_gui.Prelude.{
  ℕ, suc, ◌≤◌, ◌<◌, ◌≡◌, refl, sym, ap, ◌∙◌, ◌⊎◌, inl, inr, true, false, not, ◌&&◌, leb, ltb,
  Bool-cases, some-eq, Option, none, some, arith, ◌==◌,
}
use os_lab2_gui.Prelude.Int.{ℤ, pos, negsuc, pos_part, neg_part, ◌≤ℤ◌, eqb_ℤ, half_ℤ, +ℤ_parts}
use os_lab2_gui.Prelude.Table.{sweep, sweep_lem}
use os_lab2_gui.Task.{is_running, is_interruptible, Task, Tasks, last_task, on_task}
use os_lab2_gui.Sched.{
  Kernel, has_signal, check_alarm, check_signal, check_task, schedule, scan, recharge, choose,
}
use os_lab2_gui.Sched.Scan.{◌<ℤ◌, Best, scan-Best, start-Best}

on_task-some :
    (f : Task → Task) (o : Option Task) (t : Task)
    → on_task f o ≡ some t
    → (t0 : Task) × (o ≡ some t0) × (t ≡ f t0)
on_task-some f none t e = absurd (cc)
on_task-some f (some t0) t e = (t0, refl, sym (some-eq e))

-- Every task has a counter that is not negative, and a positive priority.
abbrev pub IsSane : Tasks → Type 0
IsSane task = (i : ℕ) (t : Task) → task i ≡ some t → (pos 0 ≤ℤ t.counter) × (pos 1 ≤ℤ t.priority)

recharge_counter :
    (t : Task)
    → pos 0 ≤ℤ t.counter
    → pos 1 ≤ℤ t.priority
    → (pos 1 ≤ℤ (recharge t).counter) × ((recharge t).priority ≡ t.priority)
unfolding recharge
recharge_counter t h k =
    (omega (arith, +ℤ_parts (half_ℤ t.counter) t.priority, half t.counter h), refl)
  where
    half : (c : ℤ) → pos 0 ≤ℤ c → pos 0 ≤ℤ half_ℤ c
    half c g = ground arith

-- a slot after the recharge, in the range of the loop and outside
recharged :
    (task : Tasks) (i : ℕ) (t : Task)
    → sweep last_task (on_task recharge) task i ≡ some t
    → ((0 < i) × (i ≤ last_task) × ((t0 : Task) × (task i ≡ some t0) × (t ≡ recharge t0)))
      ⊎ ((task i ≡ some t) × ¬ ((0 < i) × (i ≤ last_task)))
recharged task i t e = elim (Bool-cases (leb 1 i && leb i last_task)) [
  | inl inside ↦ inl (
    ground arith,
    ground arith,
    on_task-some recharge (task i) t
        (sym (rw inside at (sweep_lem last_task (on_task recharge) task i)) ∙ e),
  )
  | inr outside ↦ inr (
    sym (rw outside at (sweep_lem last_task (on_task recharge) task i)) ∙ e,
    (λ h. ground (arith, h.0, h.1)),
  )
]

recharged-IsSane : (task : Tasks) → IsSane task → IsSane (sweep last_task (on_task recharge) task)
recharged-IsSane task s i t e = elim (recharged task i t e) [
  | inl (above, below, (t0, at, is)) ↦
      let (h, k) = s i t0 at in
      let (counter, priority) = recharge_counter t0 h k in rw is (omega arith, rw priority k)
  | inr (at, _) ↦ s i t at
]

-- What `schedule` may choose: slot 0 if no task of the others is runnable; or a runnable task with
-- time left, such that no runnable task has more and none in a higher slot as much.
abbrev pub Chosen : Tasks → ℕ → Type 0
Chosen task next =
    ((next ≡ 0)
      × ((i : ℕ) (t : Task)
          → 0 < i
          → i ≤ last_task
          → task i ≡ some t
          → is_running t.state ≡ true
          → ⊥))
    ⊎ ((t : Task) × (task next ≡ some t)
        × (is_running t.state ≡ true)
        × (pos 1 ≤ℤ t.counter)
        × (0 < next)
        × (next ≤ last_task)
        × ((i : ℕ) (t' : Task)
            → 0 < i
            → i ≤ last_task
            → task i ≡ some t'
            → is_running t'.state ≡ true
            → (t'.counter ≤ℤ t.counter) × (next < i → t'.counter <ℤ t.counter)))

Chosen-of_Best :
    (task : Tasks) (c : ℤ) (next : ℕ)
    → IsSane task
    → eqb_ℤ c (pos 0) ≡ false
    → Best task 0 c next
    → Chosen task next
Chosen-of_Best task c next s nonzero b = elim b.found [
  | inl (zero_next, minus) ↦ inl (
    zero_next,
    λ i t above below at run.
        let less : t.counter ≤ℤ c = b.most i t above below at run in
        let (h, k) = s i t at in absurd (omega (arith, ap pos_part minus, ap neg_part minus)),
  )
  | inr (t, at, run, eq, above, below) ↦
      let (h, k) = s next t at in
      inr (
        t,
        at,
        run,
        ground (arith, h, eq),
        above,
        below,
        λ i t' above' below' at' run'. (
          rw eq (b.most i t' above' below' at' run'),
          λ behind. rw eq (b.behind i t' (omega arith) behind below' at' run'),
        ),
      )
]

Chosen-now :
    (fuel : ℕ) (task : Tasks)
    → IsSane task
    → eqb_ℤ (scan task last_task (negsuc 0) 0).0 (pos 0) ≡ false
    → (next : ℕ) × (choose (suc fuel) task ≡ some (task, next)) × Chosen task next
unfolding choose
Chosen-now fuel task s nonzero = (
  (scan task last_task (negsuc 0) 0).1,
  rw nonzero,
  Chosen-of_Best task (scan task last_task (negsuc 0) 0).0 (scan task last_task (negsuc 0) 0).1 s
      nonzero (scan-Best task last_task (negsuc 0) 0 (omega arith) (start-Best task)),
)

recharged_nonzero :
    (task : Tasks)
    → IsSane task
    → eqb_ℤ (scan (sweep last_task (on_task recharge) task) last_task (negsuc 0) 0).0 (pos 0)
      ≡ false
recharged_nonzero task s = nonzero best.found
  where
    task' : Tasks
    task' = sweep last_task (on_task recharge) task

    c : ℤ
    c = (scan task' last_task (negsuc 0) 0).0

    next : ℕ
    next = (scan task' last_task (negsuc 0) 0).1

    best : Best task' 0 c next
    best = scan-Best task' last_task (negsuc 0) 0 (omega arith) (start-Best task')

    nonzero :
        ((next ≡ 0) × (c ≡ negsuc 0))
          ⊎ ((t : Task) × (task' next ≡ some t)
              × (is_running t.state ≡ true)
              × (t.counter ≡ c)
              × (0 < next)
              × (next ≤ last_task))
        → eqb_ℤ c (pos 0) ≡ false
    nonzero (inl (_, minus)) = rw minus
    nonzero (inr (t, at, run, eq, above, below)) = elim (recharged task next t at) [
      | inl (_, _, (t0, at0, is)) ↦
          let (h, k) = s next t0 at0 in
          let (more, _) = recharge_counter t0 h k in rw (← eq, is) (ground (arith, more))
      | inr (_, outside) ↦ absurd (outside (above, below))
    ]

choose_again :
    (fuel : ℕ) (task : Tasks)
    → eqb_ℤ (scan task last_task (negsuc 0) 0).0 (pos 0) ≡ true
    → choose (suc fuel) task ≡ choose fuel (sweep last_task (on_task recharge) task)
unfolding choose
choose_again fuel task e = rw e

-- Two rounds of the scheduler's loop are enough: from sane tasks it ends with a choice, and leaves the
-- tasks sane.
pub choose_total :
    (task : Tasks)
    → IsSane task
    → (task' : Tasks) × (next : ℕ) × (choose 2 task ≡ some (task', next))
      × IsSane task'
      × Chosen task' next
choose_total task s = elim (Bool-cases (eqb_ℤ (scan task last_task (negsuc 0) 0).0 (pos 0))) [
  | inl none_left ↦
      let task' = sweep last_task (on_task recharge) task in
      let s' : IsSane task' = recharged-IsSane task s in
      let (next, e, chosen) = Chosen-now 0 task' s' (recharged_nonzero task s) in
      (task', next, choose_again 1 task none_left ∙ e, s', chosen)
  | inr left ↦ let (next, e, chosen) = Chosen-now 1 task s left in (task, next, e, s, chosen)
]

abbrev pub KeepsTime : Task → Task → Type 0
KeepsTime t' t = (t'.counter ≡ t.counter) × (t'.priority ≡ t.priority)

check_alarm-KeepsTime : (jiffies : ℕ) (t : Task) → KeepsTime (check_alarm jiffies t) t
unfolding check_alarm
check_alarm-KeepsTime jiffies t = elim (Bool-cases (not (t.alarm == 0) && ltb t.alarm jiffies)) [
  | inl e ↦ rw (e, check_alarm) (refl, refl)
  | inr e ↦ rw (e, check_alarm) (refl, refl)
]

check_signal-KeepsTime : (t : Task) → KeepsTime (check_signal t) t
unfolding check_signal
check_signal-KeepsTime t = elim (Bool-cases (has_signal t && is_interruptible t.state)) [
  | inl e ↦ rw (e, check_signal) (refl, refl)
  | inr e ↦ rw (e, check_signal) (refl, refl)
]

check_task-KeepsTime : (jiffies : ℕ) (t : Task) → KeepsTime (check_task jiffies t) t
unfolding check_task
check_task-KeepsTime jiffies t =
    let (c, p) = check_signal-KeepsTime (check_alarm jiffies t) in
    let (c', p') = check_alarm-KeepsTime jiffies t in (c ∙ c', p ∙ p')

-- a sweep that keeps counters and priorities keeps the tasks sane
sweep-IsSane :
    (f : Task → Task) (task : Tasks)
    → ((t : Task) → KeepsTime (f t) t)
    → IsSane task
    → IsSane (sweep last_task (on_task f) task)
sweep-IsSane f task keep s i t e = elim (Bool-cases (leb 1 i && leb i last_task)) [
  | inl inside ↦
      let (t0, at, is) =
        on_task-some f (task i) t
          (sym (rw inside at (sweep_lem last_task (on_task f) task i)) ∙ e) in
      let (c, p) = keep t0 in rw (is, c, p) (s i t0 at)
  | inr outside ↦ s i t (sym (rw outside at (sweep_lem last_task (on_task f) task i)) ∙ e)
]

-- From sane tasks `schedule` ends, keeps the tasks sane, and makes current slot 0 if no other task can
-- run, or else the runnable task with the most time left, the one in the highest slot among equals.
pub schedule-Chosen :
    (k : Kernel)
    → IsSane k.task
    → (k' : Kernel) × (schedule k ≡ some k') × IsSane k'.task × Chosen k'.task k'.current
unfolding schedule
schedule-Chosen k s =
    let checked : Tasks = sweep last_task (on_task (check_task k.jiffies)) k.task in
    let (task', next, e, s', chosen) =
      choose_total checked
        (sweep-IsSane (check_task k.jiffies) k.task (check_task-KeepsTime k.jiffies) s) in
    (record k { task = task'; current = next }, rw (e, schedule), s', chosen)
