-- ===== src/Exit/Tests.antt =====
-- Concrete tasks of kernel/exit.c, and the theorems at them.
use os_lab2_gui.Prelude.{
  ℕ, ◌≡◌, ◌<◌, ◌≤◌, ◌+◌, refl, true, false, ◌&&◌, none, some, arith, ltb, leb, ◌==◌, if◌then◌else◌,
}
use os_lab2_gui.Prelude.Int.{pos, negsuc, ltb_ℤ, eqb_ℤ}
use os_lab2_gui.Task.{stopped, Task, Tasks, last_task, init_task}
use os_lab2_gui.Sched.{Kernel}
use os_lab2_gui.Exit.{sys_kill, kill_loop, kill_slot, send_sig, adopt_loop, wait_scan, waits_for}
use os_lab2_gui.Exit.Kill.{allowed, in_loop, hit, sys_kill-slots, sys_kill-foreign, kill_all-first}
use os_lab2_gui.Exit.Reap.{father_of, adopted, adopt_loop-father}
use os_lab2_gui.Exit.Outcome.{child, kind_of, ignored, Outcome}
use os_lab2_gui.Exit.Wait.{wait_scan-Outcome}

abbrev user : Task
user = record init_task { pid = pos 3; uid = 5; euid = 5; father = pos 1; pgrp = pos 3 }

-- init in slot 1, a user's task in slot 3 and its children in slots 4 and 5
abbrev tasks : Tasks
tasks i =
    if i == 0
    then some init_task
    else if i == 1
    then some (record init_task { pid = pos 1 })
    else if i == 3
    then some user
    else if i == 4
    then some (record user { pid = pos 4; father = pos 3; state = stopped })
    else if i == 5
    then some (record user { pid = pos 5; father = pos 3; uid = 7; euid = 7; pgrp = pos 5 })
    else none

abbrev kernel : Kernel
kernel = record { task = tasks; current = 3; jiffies = 0 }

-- the user signals the own task in slot 4; the task of another user is refused
killed :
    ((sys_kill user (pos 4) (pos 15) tasks).0 ≡ pos 0)
    × ((sys_kill user (pos 5) (pos 15) tasks).0 ≡ negsuc 0)
unfolding sys_kill kill_loop kill_slot send_sig
killed = (refl, refl)

sys_kill-slots_example :
    ((ltb_ℤ (pos 0) (pos 4) ≡ true)
      → (sys_kill user (pos 4) (pos 15) tasks).1 4 ≡ (
          if in_loop last_task 4
          then hit 5 (pos 15) false (λ t. eqb_ℤ t.pid (pos 4)) (tasks 4)
          else tasks 4))
    × ((pos 4 ≡ pos 0)
        → (sys_kill user (pos 4) (pos 15) tasks).1 4 ≡ (
            if in_loop last_task 4
            then hit 5 (pos 15) true (λ t. eqb_ℤ t.pgrp (pos 3)) (tasks 4)
            else tasks 4))
sys_kill-slots_example = sys_kill-slots user (pos 4) (pos 15) tasks 4

sys_kill-foreign_example :
    (sys_kill user (negsuc 0) (pos 9) tasks).1 5
    ≡ some (record user { pid = pos 5; father = pos 3; uid = 7; euid = 7; pgrp = pos 5 })
sys_kill-foreign_example =
    sys_kill-foreign user (negsuc 0) (pos 9) tasks 5
      (record user { pid = pos 5; father = pos 3; uid = 7; euid = 7; pgrp = pos 5 }) (omega arith)
      (omega arith) (ground arith) refl

above-refused : (j : ℕ) (u : Task) → 4 < j → tasks j ≡ some u → allowed 5 (pos 9) false u ≡ false
above-refused j u h at = ground arith

-- slot 4 is the first that the user may signal, and slot 3 gets nothing
kill_all-first_example : (sys_kill user (negsuc 0) (pos 9) tasks).1 3 ≡ some user
kill_all-first_example =
    kill_all-first user (pos 9) tasks 4
      (record user { pid = pos 4; father = pos 3; state = stopped }) (omega arith) (omega arith)
      refl refl above-refused 3 user (omega arith) refl refl

adopt_loop-father_example :
    father_of (adopt_loop (pos 3) 0 64 tasks 5)
    ≡ adopted (leb 0 5 && ltb 5 (0 + 64)) (pos 3) (father_of (tasks 5))
adopt_loop-father_example = adopt_loop-father (pos 3) 0 64 tasks 5

wait_scan-Outcome_example :
    Outcome true
      (negsuc 0)
      3
      user
      tasks
      last_task
      false
      (wait_scan true (negsuc 0) 3 user tasks last_task false)
wait_scan-Outcome_example = wait_scan-Outcome true (negsuc 0) 3 user tasks last_task false

stopped-ignored :
    (i : ℕ) (t : Task)
    → 1 ≤ i
    → i ≤ last_task
    → tasks i ≡ some t
    → child (pos 4) 3 user i t ≡ true
    → kind_of false t.state ≡ ignored
unfolding waits_for
stopped-ignored i t ge le at c = ground arith
