-- ===== src/Sched.antt =====
-- kernel/sched.c: the scheduler, alarms and priorities. `switch_to(next)` makes `next` the current
-- task; what follows a call of `schedule` runs when its caller is chosen again.
pub mod Scan
pub mod Choice
pub mod Alarm
pub mod Wait
pub mod Interruptible
mod Tests
use os_lab2_gui.Prelude.{
  ℕ, zero, suc, ◌+◌, ◌*◌, ◌/◌, ◌<◌, Bool, true, false, not, ◌&&◌, ◌||◌, Option, none, some, ltb,
  ◌==◌, if◌then◌else◌,
}
use os_lab2_gui.Prelude.Int.{ℤ, pos, negsuc, ◌+ℤ◌, ◌-ℤ◌, ltb_ℤ, eqb_ℤ, div_ℤ, half_ℤ}
use os_lab2_gui.Prelude.Bits.{Bits, zeros, bit, bits_or, bits_and, bits_not, any_bit}
use os_lab2_gui.Prelude.Table.{update, sweep}
use os_lab2_gui.Task.{
  TaskState, running, interruptible, uninterruptible, is_running, is_interruptible, Task, Tasks,
  last_task, on_task,
}

-- HZ
abbrev pub hz : ℕ
hz = 100

-- `_BLOCKABLE`: all signals but SIGKILL (9) and SIGSTOP (19)
abbrev pub blockable : Bits
blockable = bits_not (bits_or (bit 8) (bit 18))

-- the globals `task`, `current` and `jiffies`
pub record Kernel : Type 0 where
  pub task : Tasks
  pub current : ℕ
  pub jiffies : ℕ

-- the alarm part of the first loop of `schedule`
unfoldable pub check_alarm : ℕ → Task → Task
check_alarm jiffies t =
    if not (t.alarm == 0) && ltb t.alarm jiffies
    then record t { signal = bits_or t.signal (bit 13); alarm = 0 }
    else t

-- `(*p)->signal & ~(_BLOCKABLE & (*p)->blocked)`: whether a signal waits that is not blocked
unfoldable pub has_signal : Task → Bool
has_signal t = any_bit 32 (bits_and t.signal (bits_not (bits_and blockable t.blocked)))

-- the part that wakes an interruptible task with a signal
unfoldable pub check_signal : Task → Task
check_signal t =
    if has_signal t && is_interruptible t.state then record t { state = running } else t

unfoldable pub check_task : ℕ → Task → Task
check_task jiffies t = check_signal (check_alarm jiffies t)

-- the test of the scan, `*p && (*p)->state == TASK_RUNNING && (*p)->counter > c`
unfoldable pub better : Option Task → ℤ → Bool
better none c = false
better (some t) c = is_running t.state && ltb_ℤ c t.counter

abbrev pub counter_of : Option Task → ℤ
counter_of none = negsuc 0
counter_of (some t) = t.counter

-- `while (--i) …`, from the slot `i` down to 1
unfoldable pub scan : Tasks → ℕ → ℤ → ℕ → ℤ × ℕ
scan task zero c next = (c, next)
scan task (suc i) c next =
    scan task i (if better (task (suc i)) c then counter_of (task (suc i)) else c)
      (if better (task (suc i)) c then suc i else next)

-- `(*p)->counter = ((*p)->counter >> 1) + (*p)->priority`
unfoldable pub recharge : Task → Task
recharge t = record t { counter = half_ℤ t.counter +ℤ t.priority }

-- The loop of the scheduler proper. `none` says that the fuel ran out.
unfoldable pub choose : ℕ → Tasks → Option (Tasks × ℕ)
choose zero task = none
choose (suc fuel) task =
    let (c, next) = scan task last_task (negsuc 0) 0 in
    let rest = choose fuel (sweep last_task (on_task recharge) task) in
    if eqb_ℤ c (pos 0) then rest else some (task, next)

-- the rounds that the loop is given: `Choice.choose_total` shows that two are enough
abbrev pub rounds : ℕ
rounds = 2

-- `schedule()`
unfoldable pub schedule : Kernel → Option Kernel
schedule k = elim (choose rounds (sweep last_task (on_task (check_task k.jiffies)) k.task)) [
  | none ↦ none
  | some (task, next) ↦ some (record k { task = task; current = next })
]

abbrev pub set_state : TaskState → Task → Task
set_state st t = record t { state = st }

-- a write through a pointer to the task in slot `i`
abbrev pub at_task : Tasks → ℕ → (Task → Task) → Tasks
at_task task i f = update task i (on_task f (task i))

-- `sys_pause()` up to the switch; it returns 0 when the caller runs again
unfoldable pub sys_pause : Kernel → Option Kernel
sys_pause k = schedule (record k { task = at_task k.task k.current (set_state interruptible) })

-- `sys_alarm(seconds)`, of the current task `t`: the task, and the value returned
unfoldable pub sys_alarm : ℕ → ℤ → Task → Task × ℤ
sys_alarm jiffies seconds t =
    let old : ℤ = if t.alarm == 0 then pos 0 else div_ℤ (pos t.alarm -ℤ pos jiffies) hz in
    let alarm : ℕ = elim seconds [ pos s ↦ (if ltb 0 s then jiffies + hz * s else 0) | _ ↦ 0 ] in
    (record t { alarm = alarm }, old)

-- `sys_nice(increment)`, of the current task
unfoldable pub sys_nice : ℤ → Task → Task
sys_nice increment t =
    if ltb_ℤ (pos 0) (t.priority -ℤ increment)
    then record t { priority = t.priority -ℤ increment }
    else t

-- `if (p) p->state = 0;`
abbrev pub wake_task : Option ℕ → Tasks → Tasks
wake_task none task = task
wake_task (some i) task = at_task task i (set_state running)

-- `sleep_on(p)` and `interruptible_sleep_on(p)` up to `schedule()`, with `*p` for the queue and `p` not
-- NULL: what the local variable `tmp` keeps, the new `*p` and the kernel. `none` is the panic of task 0.
unfoldable pub sleep_begin : TaskState → Option ℕ → Kernel → Option (Option ℕ × Option ℕ × Kernel)
sleep_begin st queue k =
    if k.current == 0
    then none
    else some (queue, some k.current, record k { task = at_task k.task k.current (set_state st) })

unfoldable pub sleep_on : Option ℕ → Kernel → Option (Option ℕ × Option ℕ × Kernel)
sleep_on queue k = sleep_begin uninterruptible queue k

unfoldable pub interruptible_sleep_on : Option ℕ → Kernel → Option (Option ℕ × Option ℕ × Kernel)
interruptible_sleep_on queue k = sleep_begin interruptible queue k

-- what `sleep_on` does when its caller runs again
unfoldable pub sleep_on_end : Option ℕ → Tasks → Tasks
sleep_on_end tmp task = wake_task tmp task

-- What `interruptible_sleep_on` does when its caller runs again: whether it sleeps once more, by
-- `goto repeat`, the new `*p` and the tasks.
unfoldable pub interruptible_sleep_on_end : Option ℕ → Option ℕ → Kernel → Bool × Option ℕ × Tasks
interruptible_sleep_on_end tmp queue k = elim queue [
  | none ↦ (false, none, wake_task tmp k.task)
  | some a ↦
      if a == k.current
      then (false, none, wake_task tmp k.task)
      else (true, some a, at_task (wake_task (some a) k.task) k.current (set_state interruptible))
]

-- `wake_up(p)`: the new `*p` and the tasks
unfoldable pub wake_up : Option ℕ → Tasks → Option ℕ × Tasks
wake_up queue task = (none, wake_task queue task)
