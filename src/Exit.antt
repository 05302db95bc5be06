-- ===== src/Exit.antt =====
-- kernel/exit.c: signals to other tasks, the end of a task and the wait for it. The functions work on
-- `task[]`; a pointer to a task is the index of its slot. `euid` is that of the current task, which no
-- signal changes, and suser() is `euid == 0`.
pub mod Kill
pub mod Reap
pub mod Outcome
pub mod Wait
mod Tests
use os_lab2_gui.Prelude.{
  ℕ, zero, suc, ◌+◌, ◌-◌, Bool, true, false, not, ◌&&◌, ◌||◌, Option, none, some, ltb, ◌==◌, leb,
  if◌then◌else◌,
}
use os_lab2_gui.Prelude.Int.{ℤ, pos, negsuc, pos_part, ◌-ℤ◌, ltb_ℤ, eqb_ℤ}
use os_lab2_gui.Prelude.Bits.{Bits, bit, bits_or, bits_and, bits_not, any_bit}
use os_lab2_gui.Prelude.Table.{update, sweep}
use os_lab2_gui.Sched.{Kernel, schedule, at_task, set_state}
use os_lab2_gui.Task.{
  TaskState, running, interruptible, uninterruptible, zombie, stopped, Task, Tasks, last_task,
  on_task, find_task,
}

-- -EPERM, -EINVAL and -ECHILD
abbrev pub eperm : ℤ
eperm = negsuc 0

abbrev pub einval : ℤ
einval = negsuc 21

abbrev pub echild : ℤ
echild = negsuc 9

-- `p->signal |= 1 << (sig - 1)`
abbrev pub add_signal : ℤ → Task → Task
add_signal sig t = record t { signal = bits_or t.signal (bit (pos_part sig - 1)) }

-- `!(sig < 1 || sig > 32)`
abbrev pub is_signal : ℤ → Bool
is_signal sig = not (ltb_ℤ sig (pos 1) || ltb_ℤ (pos 32) sig)

-- `send_sig(sig, p, priv)`: the value returned, and the slot
unfoldable pub send_sig : ℕ → ℤ → Option Task → Bool → ℤ × Option Task
send_sig euid sig none priv = (einval, none)
send_sig euid sig (some t) priv =
    if not (is_signal sig)
    then (einval, some t)
    else if priv || euid == t.euid || euid == 0
    then (pos 0, some (add_signal sig t))
    else (eperm, some t)

-- `if (err = send_sig(…)) retval = err;`
abbrev pub note_error : ℤ → ℤ → ℤ
note_error err retval = if eqb_ℤ err (pos 0) then retval else err

-- the body of a loop of sys_kill over the tasks that pass a test
unfoldable pub kill_slot : ℕ → ℤ → Bool → (Task → Bool) → Option Task → ℤ → ℤ × Option Task
kill_slot euid sig priv target none retval = (retval, none)
kill_slot euid sig priv target (some t) retval =
    if target t
    then (let (err, p) = send_sig euid sig (some t) priv in (note_error err retval, p))
    else (retval, some t)

-- `while (--p > &FIRST_TASK) …`, from the slot `i` down to 1
unfoldable pub kill_loop : ℕ → ℤ → Bool → (Task → Bool) → ℕ → Tasks → ℤ → ℤ × Tasks
kill_loop euid sig priv target zero task retval = (retval, task)
kill_loop euid sig priv target (suc i) task retval =
    let (r, p) = kill_slot euid sig priv target (task (suc i)) retval in
    kill_loop euid sig priv target i (update task (suc i) p) r

-- The loop for `pid == -1`. The `else` that follows it belongs to its `if`: a signal that was sent
-- starts the inner loop over the group 1, which leaves `p` at the first task.
unfoldable pub kill_all : ℕ → ℤ → ℕ → Tasks → ℤ → ℤ × Tasks
kill_all euid sig zero task retval = (retval, task)
kill_all euid sig (suc i) task retval =
    let (err, p) = send_sig euid sig (task (suc i)) false in
    let task' = update task (suc i) p in
    let rest = kill_all euid sig i task' err in
    let group = kill_loop euid sig false (λ t. eqb_ℤ t.pgrp (pos 1)) i task' retval in
    if eqb_ℤ err (pos 0) then group else rest

-- `sys_kill(pid, sig)`, called by the task `current`
unfoldable pub sys_kill : Task → ℤ → ℤ → Tasks → ℤ × Tasks
sys_kill current pid sig task =
    if eqb_ℤ pid (pos 0)
    then kill_loop current.euid sig true (λ t. eqb_ℤ t.pgrp current.pid) last_task task (pos 0)
    else if ltb_ℤ (pos 0) pid
    then kill_loop current.euid sig false (λ t. eqb_ℤ t.pid pid) last_task task (pos 0)
    else if eqb_ℤ pid (negsuc 0)
    then kill_all current.euid sig last_task task (pos 0)
    else (pos 0, task)

-- `kill_session()`, with SIGHUP
abbrev pub hang_up : ℤ → Task → Task
hang_up session t = if eqb_ℤ t.session session then add_signal (pos 1) t else t

unfoldable pub kill_session : ℤ → Tasks → Tasks
kill_session session task = sweep last_task (on_task (hang_up session)) task

abbrev pub has_pid : ℤ → Option Task → Bool
has_pid pid none = false
has_pid pid (some t) = eqb_ℤ t.pid pid

-- `tell_father(pid)`, with SIGCHLD; `none` stands for the release of the current task, as its last
-- lines do when there is no father
unfoldable pub tell_father : ℤ → Tasks → Option Tasks
tell_father pid task =
    if eqb_ℤ pid (pos 0) then none else elim (find_task (has_pid pid) 0 64 task) [
      | none ↦ none
      | some i ↦ some (update task i (on_task (add_signal (pos 17)) (task i)))
    ]

-- `current->state = TASK_ZOMBIE; current->exit_code = code;` of do_exit
unfoldable pub become_zombie : ℤ → Task → Task
become_zombie code t = record t { state = zombie; exit_code = code }

-- `release(p)`; `none` is the panic. The page of the structure belongs to the memory manager.
unfoldable pub release : Option ℕ → Kernel → Option Kernel
release none k = some k
release (some p) k =
    let freed : Option Kernel = schedule (record k { task = update k.task p none }) in
    elim (k.task p) [ none ↦ none | some t ↦ if leb 1 p && leb p last_task then freed else none ]

-- the loop of do_exit that gives the children of the current task to the task 1
abbrev pub is_zombie : TaskState → Bool
is_zombie zombie = true
is_zombie _ = false

unfoldable pub adopt_slot : ℤ → ℕ → Tasks → Tasks
adopt_slot pid i task = elim (task i) [
  | none ↦ task
  | some t ↦
      if eqb_ℤ t.father pid
      then (let task' = update task i (some (record t { father = pos 1 })) in
          if is_zombie t.state
          then update task' 1 (send_sig 0 (pos 17) (task' 1) true).1
          else task')
      else task
]

unfoldable pub adopt_loop : ℤ → ℕ → ℕ → Tasks → Tasks
adopt_loop pid i zero task = task
adopt_loop pid i (suc n) task = adopt_loop pid (i + 1) n (adopt_slot pid i task)

-- the tests of sys_waitpid on a task other than the current one
unfoldable pub waits_for : ℤ → Task → Task → Bool
waits_for pid current t =
    eqb_ℤ t.father current.pid
    && (if ltb_ℤ (pos 0) pid
        then eqb_ℤ t.pid pid
        else if eqb_ℤ pid (pos 0)
        then eqb_ℤ t.pgrp current.pgrp
        else eqb_ℤ pid (negsuc 0) || eqb_ℤ t.pgrp (pos 0 -ℤ pid))

-- what a pass of sys_waitpid over the tasks ends with: a stopped child, a zombie, or `flag`
pub data Found : Type 0 where
  found_stopped : ℕ → Found
  found_zombie : ℕ → Found
  found_none : Bool → Found

-- the `switch` on the state of a child that is waited for, in the slot `i`; `rest` goes on
abbrev pub on_state : Bool → ℕ → Task → (Bool → Found) → Bool → Found
on_state untraced i t rest flag = elim t.state [
  | stopped ↦ if untraced then found_stopped i else rest flag
  | zombie ↦ found_zombie i
  | _ ↦ rest true
]

-- `for (p = &LAST_TASK; p > &FIRST_TASK; --p) …`
unfoldable pub wait_scan : Bool → ℤ → ℕ → Task → Tasks → ℕ → Bool → Found
wait_scan untraced pid self current task zero flag = found_none flag
wait_scan untraced pid self current task (suc i) flag =
    let rest : Bool → Found = λ f. wait_scan untraced pid self current task i f in
    elim (task (suc i)) [
      | none ↦ rest flag
      | some t ↦
          if not (suc i == self) && waits_for pid current t
          then on_state untraced (suc i) t rest flag
          else rest flag
    ]

-- what a pass of sys_waitpid ends with: a value returned, with the status that is written for the user,
-- or the sleep until a signal comes
pub data WaitStep : Type 0 where
  replied : ℤ → Option ℤ → Kernel → WaitStep
  sleeping : Kernel → WaitStep

-- `current->cutime += (*p)->utime; current->cstime += (*p)->stime;`
abbrev pub add_times : Task → Task → Task
add_times child t = record t { cutime = t.cutime + child.utime; cstime = t.cstime + child.stime }

-- what is done with the task that the pass has found
unfoldable pub on_found : Bool → Kernel → Found → Option WaitStep
on_found nohang k (found_stopped i) = elim (k.task i) [
  | none ↦ none
  | some t ↦ some (replied t.pid (some (pos 127)) k)
]
on_found nohang k (found_zombie i) = elim (k.task i) [
  | none ↦ none
  | some t ↦ elim (release (some i) (record k { task = at_task k.task k.current (add_times t) })) [
    | none ↦ none
    | some k' ↦ some (replied t.pid (some t.exit_code) k')
  ]
]
on_found nohang k (found_none true) =
    let asleep : Option Kernel =
      schedule (record k { task = at_task k.task k.current (set_state interruptible) }) in
    if nohang
    then some (replied (pos 0) none k)
    else elim asleep [ none ↦ none | some k' ↦ some (sleeping k') ]
on_found nohang k (found_none false) = some (replied echild none k)

-- `sys_waitpid(pid, stat_addr, options)` up to the switch, with the two bits of `options`; `none` is a
-- panic, or a caller that is in no slot
unfoldable pub sys_waitpid : Bool → Bool → ℤ → Kernel → Option WaitStep
sys_waitpid untraced nohang pid k = elim (k.task k.current) [
  | none ↦ none
  | some current ↦
      on_found nohang k (wait_scan untraced pid k.current current k.task last_task false)
]

-- what it does when its caller runs again: whether it repeats, or returns -EINTR
unfoldable pub wait_again : Task → Bool × Task
wait_again t =
    let signal : Bits = bits_and t.signal (bits_not (bit 16)) in
    (not (any_bit 32 signal), record t { signal = signal })
