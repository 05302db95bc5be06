-- ===== src/Sched/Wait.antt =====
-- `sleep_on` and `wake_up` of kernel/sched.c on one wait queue, in every interleaving. `saved w` is the
-- local variable `tmp` of a task `w` that is inside `sleep_on`.
pub mod Sound
use mathlib.Core.Path.{subst}
use os_lab2_gui.Prelude.{
  ℕ, ◌≡◌, ◌≢◌, refl, sym, ap, ◌∙◌, ◌⊎◌, inl, inr, true, false, Bool-cases, ==_iff, some-eq, Option,
  none, some, arith, ◌==◌, if◌then◌else◌,
}
use os_lab2_gui.Prelude.Table.{update, update_self, update_ne}
use os_lab2_gui.Task.{TaskState, running, uninterruptible, Task, Tasks, on_task}
use os_lab2_gui.Sched.{
  Kernel, at_task, set_state, wake_task, sleep_begin, sleep_on, sleep_on_end, wake_up,
}

pub record Waiting : Type 0 where
  pub task : Tasks
  pub queue : Option ℕ
  pub saved : ℕ → Option (Option ℕ)

abbrev pub Exists : Tasks → ℕ → Type 0
Exists task i = (t : Task) × (task i ≡ some t)

abbrev pub Runs : Tasks → ℕ → Type 0
Runs task i = (t : Task) × (task i ≡ some t) × (t.state ≡ running)

-- One step: a task that is not asleep here calls `sleep_on`; somebody calls `wake_up`; a task that runs
-- again returns from `sleep_on`.
pub data Step : Waiting → Waiting → Type 0 where
  sleeps :
      {s : Waiting} (c jiffies : ℕ) {tmp queue : Option ℕ} {k : Kernel}
      → Exists s.task c
      → s.saved c ≡ none
      → sleep_on s.queue (record { task = s.task; current = c; jiffies = jiffies })
        ≡ some (tmp, queue, k)
      → Step s (record { task = k.task; queue = queue; saved = update s.saved c (some tmp) })
  wakes :
      {s : Waiting}
      → Step s (record {
        task = (wake_up s.queue s.task).1;
        queue = (wake_up s.queue s.task).0;
        saved = s.saved;
      })
  returns :
      {s : Waiting} (c : ℕ) {tmp : Option ℕ}
      → Runs s.task c
      → s.saved c ≡ some tmp
      → Step s (record {
        task = sleep_on_end tmp s.task;
        queue = s.queue;
        saved = update s.saved c none;
      })

-- following the saved pointers leads from `a` to `w`
pub data Leads (saved : ℕ → Option (Option ℕ)) (w : ℕ) : ℕ → Type 0 where
  here : {a : ℕ} → a ≡ w → Leads saved w a
  next : {a b : ℕ} → saved a ≡ some (some b) → Leads saved w b → Leads saved w a

-- A task asleep is found from the queue, or from a task that runs and will wake the next when it returns.
abbrev pub Covered : Waiting → ℕ → Type 0
Covered s w =
    ((a : ℕ) × (s.queue ≡ some a) × Leads s.saved w a)
    ⊎ ((r : ℕ) × Runs s.task r × Leads s.saved w r)

pub record IsSound (s : Waiting) : Type 0 where
  pub queue_exists : (a : ℕ) → s.queue ≡ some a → Exists s.task a
  pub saved_exists : (a b : ℕ) → s.saved a ≡ some (some b) → Exists s.task b
  pub covered : (w : ℕ) (tmp : Option ℕ) → s.saved w ≡ some tmp → Covered s w

pub data Reach (s : Waiting) : Waiting → Type 0 where
  start : Reach s s
  step : {t u : Waiting} → Reach s t → Step t u → Reach s u

-- the queue at first: `*p` is NULL and no task sleeps on it
abbrev pub initial : Tasks → Waiting
initial task = record { task = task; queue = none; saved = λ a. none }
