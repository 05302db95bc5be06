-- ===== src/Ids/Tests.antt =====
-- Concrete tasks of kernel/sys.c, and the theorems at them.
use os_lab2_gui.Prelude.{◌≡◌, refl, inl, inr, List, [], ◌∷◌, none, some, arith, ◌==◌, if◌then◌else◌}
use os_lab2_gui.Prelude.Int.{pos}
use os_lab2_gui.Task.{Task, Tasks, init_task}
use os_lab2_gui.Ids.{eperm, sys_setreuid, set_real_uid, set_effective_uid}
use os_lab2_gui.Ids.Users.{UidCall, setuid, setreuid, Within, calls, calls-Within}

-- a program of user 5, started by user 7
abbrev program : Task
program = record init_task { pid = pos 3; uid = 7; euid = 5; suid = 5; gid = 7; egid = 6; sgid = 6 }

abbrev script : List UidCall
script = setuid (pos 0) ∷ setreuid (pos 5) (pos 7) ∷ setuid (pos 9) ∷ []

calls-Within_example : Within 7 5 5 (calls script program)
calls-Within_example =
    calls-Within 7 5 5 (omega arith) (omega arith) (omega arith) (omega arith) script program
      (inl refl, inr (inl refl), inr (inl refl))

refused : (sys_setreuid (pos 5) (pos 9) program).0 ≡ eperm
unfolding sys_setreuid set_real_uid set_effective_uid
refused = refl

abbrev tasks : Tasks
tasks i = if i == 3 then some program else none
