-- ===== src/Ids.antt =====
-- kernel/sys.c and kernel/sched.c: the users, groups and sessions of a task. A user or group id is an
-- unsigned short; an argument is an int. The functions work on the current task `t`, and return the value
-- and the task; suser() is `t.euid == 0`.
pub mod Users
pub mod Groups
mod Tests
use os_lab2_gui.Prelude.{
  ℕ, ◌+◌, ◌-◌, ◌*◌, ◌/◌, ◌%◌, Bool, true, false, not, ◌&&◌, ◌||◌, Option, none, some, ltb, leb,
  ◌==◌, if◌then◌else◌,
}
use os_lab2_gui.Prelude.Int.{ℤ, pos, negsuc, ◌-ℤ◌, ltb_ℤ, eqb_ℤ}
use os_lab2_gui.Prelude.Table.{update}
use os_lab2_gui.Task.{Task, Tasks, find_task}

-- -EPERM and -ESRCH
abbrev pub eperm : ℤ
eperm = negsuc 0

abbrev pub esrch : ℤ
esrch = negsuc 2

-- an int stored as an unsigned short
abbrev pub to_short : ℤ → ℕ
to_short (pos n) = n % 65536
to_short (negsuc n) = 65535 - n % 65536

-- an unsigned short compared with an int
abbrev pub is_id : ℕ → ℤ → Bool
is_id id n = eqb_ℤ (pos id) n

abbrev pub suser : Task → Bool
suser t = t.euid == 0

-- `sys_setreuid(ruid, euid)`
unfoldable pub set_real_uid : ℤ → Task → Option Task
set_real_uid ruid t =
    if ltb_ℤ (pos 0) ruid
    then (if is_id t.euid ruid || is_id t.uid ruid || suser t
        then some (record t { uid = to_short ruid })
        else none)
    else some t

unfoldable pub set_effective_uid : ℕ → ℤ → Task → ℤ × Task
set_effective_uid old_ruid euid t =
    if ltb_ℤ (pos 0) euid
    then (if is_id old_ruid euid || is_id t.euid euid || suser t
        then (pos 0, record t { euid = to_short euid; suid = to_short euid })
        else (eperm, record t { uid = old_ruid }))
    else (pos 0, t)

unfoldable pub sys_setreuid : ℤ → ℤ → Task → ℤ × Task
sys_setreuid ruid euid t = elim (set_real_uid ruid t) [
  | none ↦ (eperm, t)
  | some t' ↦ set_effective_uid t.uid euid t'
]

-- `sys_setuid(uid)`
unfoldable pub sys_setuid : ℤ → Task → ℤ × Task
sys_setuid uid t =
    if suser t
    then (pos 0, record t { uid = to_short uid; euid = to_short uid; suid = to_short uid })
    else if is_id t.uid uid || is_id t.suid uid
    then (pos 0, record t { euid = to_short uid })
    else (eperm, t)

-- `sys_setregid(rgid, egid)`
unfoldable pub set_real_gid : ℤ → Task → Option Task
set_real_gid rgid t =
    if ltb_ℤ (pos 0) rgid
    then (if is_id t.gid rgid || suser t then some (record t { gid = to_short rgid }) else none)
    else some t

unfoldable pub set_effective_gid : ℤ → Task → ℤ × Task
set_effective_gid egid t =
    if ltb_ℤ (pos 0) egid
    then (if is_id t.gid egid || is_id t.egid egid || suser t
        then (pos 0, record t { egid = to_short egid; sgid = to_short egid })
        else (eperm, t))
    else (pos 0, t)

unfoldable pub sys_setregid : ℤ → ℤ → Task → ℤ × Task
sys_setregid rgid egid t = elim (set_real_gid rgid t) [
  | none ↦ (eperm, t)
  | some t' ↦ set_effective_gid egid t'
]

-- `sys_setgid(gid)`
unfoldable pub sys_setgid : ℤ → Task → ℤ × Task
sys_setgid gid t =
    if suser t
    then (pos 0, record t { gid = to_short gid; egid = to_short gid; sgid = to_short gid })
    else if is_id t.gid gid || is_id t.sgid gid
    then (pos 0, record t { egid = to_short gid })
    else (eperm, t)

-- `sys_getpid()` to `sys_getegid()`
abbrev pub sys_getpid : Task → ℤ
sys_getpid t = t.pid

abbrev pub sys_getppid : Task → ℤ
sys_getppid t = t.father

abbrev pub sys_getuid : Task → ℕ
sys_getuid t = t.uid

abbrev pub sys_geteuid : Task → ℕ
sys_geteuid t = t.euid

abbrev pub sys_getgid : Task → ℕ
sys_getgid t = t.gid

abbrev pub sys_getegid : Task → ℕ
sys_getegid t = t.egid

abbrev pub sys_getpgrp : Task → ℤ
sys_getpgrp t = t.pgrp

-- `sys_setsid()`
unfoldable pub sys_setsid : Task → ℤ × Task
sys_setsid t =
    if t.leader && not (suser t)
    then (eperm, t)
    else (t.pid, record t { leader = true; session = t.pid; pgrp = t.pid; tty = negsuc 0 })

abbrev pub holds_pid : ℤ → Option Task → Bool
holds_pid pid none = false
holds_pid pid (some t) = eqb_ℤ t.pid pid

-- the body of the loop of sys_setpgid, at the slot with the pid
unfoldable pub set_group : Task → ℤ → ℕ → Tasks → ℤ × Tasks
set_group current pgid i task = elim (task i) [
  | none ↦ (esrch, task)
  | some t ↦
      if t.leader
      then (eperm, task)
      else if eqb_ℤ t.session current.session
      then (pos 0, update task i (some (record t { pgrp = pgid })))
      else (eperm, task)
]

-- `sys_setpgid(pid, pgid)`, called by the task `current`
unfoldable pub sys_setpgid : Task → ℤ → ℤ → Tasks → ℤ × Tasks
sys_setpgid current pid pgid task =
    let pid' : ℤ = if eqb_ℤ pid (pos 0) then current.pid else pid in
    let pgid' : ℤ = if eqb_ℤ pgid (pos 0) then current.pid else pgid in
    elim (find_task (holds_pid pid') 0 64 task) [
      | none ↦ (esrch, task)
      | some i ↦ set_group current pgid' i task
    ]
