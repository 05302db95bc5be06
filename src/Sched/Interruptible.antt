-- ===== src/Sched/Interruptible.antt =====
-- `interruptible_sleep_on` of kernel/sched.c: a task that goes back to sleep after a wakeup.
use os_lab2_gui.Prelude.{
  ℕ, ◌≡◌, ◌≢◌, sym, ap, ◌∙◌, Bool, true, false, Option, none, some, arith, ◌==◌, not, refl,
  if◌then◌else◌,
}
use os_lab2_gui.Prelude.Table.{update_self, update_ne}
use os_lab2_gui.Task.{is_running, running, interruptible, Task, Tasks, on_task}
use os_lab2_gui.Sched.{
  wake_task, Kernel, at_task, set_state, sleep_begin, interruptible_sleep_on,
  interruptible_sleep_on_end, wake_up,
}

at_task_self :
    (task : Tasks) (i : ℕ) (f : Task → Task) {t : Task}
    → task i ≡ some t
    → at_task task i f i ≡ some (f t)
at_task_self task i f e = update_self task i (on_task f (task i)) ∙ ap (on_task f) e

at_task_ne : (task : Tasks) (i j : ℕ) (f : Task → Task) → i ≢ j → at_task task i f j ≡ task j
at_task_ne task i j f ne = update_ne task i (on_task f (task i)) j ne

-- whether the slot `i` has a task that is running
abbrev pub runs : ℕ → Tasks → Bool
runs i task = runs_in (task i)
  where
    runs_in : Option Task → Bool
    runs_in none = false
    runs_in (some t) = is_running t.state

-- Two tasks on one empty queue: `c` sleeps, somebody wakes the queue, `a` sleeps before `c` runs, then `c`
-- runs and then `a`; a task goes on only if it is running, or else there is no result. The result: whether
-- each of them sleeps again, the `tmp` of each, `*p` and the tasks.
unfoldable pub race : ℕ → ℕ → Kernel → Option (Bool × Bool × Option ℕ × Option ℕ × Option ℕ × Tasks)
race c a k =
    let slept_c = interruptible_sleep_on none (record k { current = c }) in
    if not (runs c k.task) then none else elim slept_c [
      | none ↦ none
      | some (tmp_c, q1, k1) ↦
          let (q2, task2) = wake_up q1 k1.task in
          let slept_a = interruptible_sleep_on q2 (record k { task = task2; current = a }) in
          if not (runs a task2) then none else elim slept_a [
            | none ↦ none
            | some (tmp_a, q3, k3) ↦
                let (again_c, q4, task4) =
                  interruptible_sleep_on_end tmp_c q3 (record k { task = k3.task; current = c }) in
                let (again_a, q5, task5) =
                  interruptible_sleep_on_end tmp_a q4 (record k { task = task4; current = a }) in
                if not (runs c k3.task)
                then none
                else if not (runs a task4)
                then none
                else some (again_c, again_a, tmp_c, tmp_a, q5, task5)
          ]
    ]

begins :
    (queue : Option ℕ) (k : Kernel)
    → k.current ≢ 0
    → interruptible_sleep_on queue k
      ≡ some (
        queue,
        some k.current,
        record k { task = at_task k.task k.current (set_state interruptible) },
      )
unfolding interruptible_sleep_on sleep_begin
begins queue k ne = rw (not_0)
  where
    not_0 : (k.current == 0) ≡ false
    not_0 = ground arith

repeats :
    (tmp : Option ℕ) (a : ℕ) (k : Kernel)
    → a ≢ k.current
    → interruptible_sleep_on_end tmp (some a) k ≡ (
      true,
      some a,
      at_task (at_task k.task a (set_state running)) k.current (set_state interruptible),
    )
unfolding interruptible_sleep_on_end
repeats tmp a k ne = rw (other)
  where
    other : (a == k.current) ≡ false
    other = ground arith

leaves :
    (tmp : Option ℕ) (k : Kernel)
    → interruptible_sleep_on_end tmp (some k.current) k ≡ (false, none, wake_task tmp k.task)
unfolding interruptible_sleep_on_end
leaves tmp k = rw (same)
  where
    same : (k.current == k.current) ≡ true
    same = ground arith

runs-some :
    (i : ℕ) (task : Tasks) (t : Task) → task i ≡ some t → t.state ≡ running → runs i task ≡ true
runs-some i task t e st = rw (e, st) refl

-- A wakeup may be lost: two tasks are running and `c` sleeps; if `a` sleeps on the queue between a wakeup and
-- the moment when the woken `c` runs, then `c`, which is running, sleeps again and wakes `a`, which leaves.
-- `c` is interruptible at the end, and `*p` and the `tmp` of both are NULL, so that no wake_up finds it.
pub race-lost :
    (c a : ℕ) (k : Kernel) (t u : Task)
    → c ≢ 0
    → a ≢ 0
    → c ≢ a
    → k.task c ≡ some t
    → k.task a ≡ some u
    → t.state ≡ running
    → u.state ≡ running
    → (task : Tasks) × (race c a k ≡ some (true, false, none, none, none, task))
      × (task c ≡ some (record t { state = interruptible }))
unfolding race wake_up
race-lost c a k t u nc na ne e eu st su = (
  after,
  rw
      (
        begins none (record k { current = c }) nc,
        race,
        runs-some c k.task t e st,
        begins none (record k { task = woken; current = a }) na,
        runs-some a woken u at_a su,
        repeats none a (record k { task = slept; current = c }) (λ q. ne (sym q)),
        leaves none (record k { task = after; current = a }),
        runs-some c slept (record t { state = running }) at_c refl,
        runs-some a after (record u { state = running }) a_awake refl,
      )
      refl,
  at_task_self (at_task slept a (set_state running)) c (set_state interruptible)
      (at_task_ne slept a c (set_state running) (λ q. ne (sym q)) ∙ at_c),
)
  where
    woken : Tasks
    woken = at_task (at_task k.task c (set_state interruptible)) c (set_state running)

    slept : Tasks
    slept = at_task woken a (set_state interruptible)

    after : Tasks
    after = at_task (at_task slept a (set_state running)) c (set_state interruptible)

    at_a : woken a ≡ some u
    at_a =
        at_task_ne (at_task k.task c (set_state interruptible)) c a (set_state running) ne
        ∙ at_task_ne k.task c a (set_state interruptible) ne
        ∙ eu

    at_c : slept c ≡ some (record t { state = running })
    at_c =
        at_task_ne woken a c (set_state interruptible) (λ q. ne (sym q))
        ∙ at_task_self (at_task k.task c (set_state interruptible)) c (set_state running)
            (at_task_self k.task c (set_state interruptible) e)

    a_awake : after a ≡ some (record u { state = running })
    a_awake =
        at_task_ne (at_task slept a (set_state running)) c a (set_state interruptible) ne
        ∙ at_task_self slept a (set_state running)
            (at_task_self woken a (set_state interruptible) at_a)
