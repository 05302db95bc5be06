-- ===== src/Sched/Tests.antt =====
-- Concrete tasks of kernel/sched.c, and the theorems at them.
use os_lab2_gui.Prelude.{
  ℕ, ◌≡◌, ◌↔◌, ◌⊎◌, ◌<◌, refl, true, false, none, some, arith, ◌==◌, if◌then◌else◌,
}
use os_lab2_gui.Prelude.Int.{pos}
use os_lab2_gui.Task.{TaskState, running, interruptible, Task, Tasks, init_task}
use os_lab2_gui.Sched.{Kernel, schedule, check_task, sleep_on, sleep_begin}
use os_lab2_gui.Sched.Choice.{IsSane, Chosen, schedule-Chosen}
use os_lab2_gui.Sched.Alarm.{Deliverable, Rings, check_task-wakes}
use os_lab2_gui.Sched.Wait.{Waiting, Covered, Reach, start, step, sleeps, initial}
use os_lab2_gui.Sched.Wait.Sound.{Reach-Covered}
use os_lab2_gui.Sched.Interruptible.{race, race-lost}

-- INIT_TASK in slot 0, and a task with no time left in slot 4
abbrev worker : Task
worker = record init_task { counter = pos 0; pid = pos 4 }

abbrev tasks : Tasks
tasks i = if i == 0 then some init_task else if i == 4 then some worker else none

tasks-IsSane : IsSane tasks
tasks-IsSane i t e = ground arith

abbrev kernel : Kernel
kernel = record { task = tasks; current = 0; jiffies = 700 }

schedule-Chosen_example :
    (k' : Kernel) × (schedule kernel ≡ some k') × IsSane k'.task × Chosen k'.task k'.current
schedule-Chosen_example = schedule-Chosen kernel tasks-IsSane

abbrev sleeper : Task
sleeper = record init_task { state = interruptible; alarm = 600 }

check_task-wakes_example :
    ((check_task 700 sleeper).state ≡ running)
    ↔ (((i : ℕ) × (i < 32) × Deliverable sleeper i) ⊎ Rings 700 sleeper)
check_task-wakes_example = check_task-wakes 700 sleeper refl

abbrev asleep : Waiting
asleep = record {
  task =
      λ i. if 4 == i then some (record worker { state = TaskState.uninterruptible }) else tasks i;
  queue = some 4;
  saved = λ i. if 4 == i then some none else none;
}

asleep-Reach : Reach (initial tasks) asleep
unfolding sleep_on sleep_begin
asleep-Reach = step start (
    sleeps {s = initial tasks} 4 700 {tmp = none} {queue = some 4}
      {k = record { task = asleep.task; current = 4; jiffies = 700 }} (worker, refl) refl refl)

Reach-Covered_example : Covered asleep 4
Reach-Covered_example = Reach-Covered tasks asleep 4 none asleep-Reach refl

-- the tasks 4 and 5 are running
abbrev two_workers : Kernel
two_workers = record kernel {
  task = λ i. if i == 5 then some (record worker { pid = pos 5 }) else tasks i;
}

race-lost_example :
    (task : Tasks) × (race 4 5 two_workers ≡ some (true, false, none, none, none, task))
    × (task 4 ≡ some (record worker { state = interruptible }))
race-lost_example =
    race-lost 4 5 two_workers worker (record worker { pid = pos 5 }) (omega arith) (omega arith)
      (omega arith) refl refl refl refl
