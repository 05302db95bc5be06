-- ===== src/Ids/Groups.antt =====
-- kernel/sys.c: sys_setpgid on every branch, and what a refused call leaves behind.
use os_lab2_gui.Prelude.{
  ℕ, ◌<◌, ◌≡◌, ◌≢◌, refl, sym, ap, ◌∙◌, ◌⊎◌, inl, inr, Bool-cases, Option, Option-cases, none, some,
  some-eq, true, false, not, ◌||◌, arith, if◌then◌else◌,
}
use os_lab2_gui.Prelude.Int.{ℤ, pos, ltb_ℤ, eqb_ℤ}
use os_lab2_gui.Prelude.Table.{update}
use os_lab2_gui.Task.{Task, Tasks, find_task, First, find_task-First}
use os_lab2_gui.Ids.{
  eperm, esrch, is_id, suser, holds_pid, set_group, sys_setpgid, set_real_uid, set_effective_uid,
  sys_setreuid,
}

-- the slot `i` holds the first task with the pid
abbrev pub FirstWith : ℤ → Tasks → ℕ → Task → Type 0
FirstWith pid task i t =
    (i < 64)
    × (task i ≡ some t)
    × (eqb_ℤ t.pid pid ≡ true)
    × ((j : ℕ) → j < i → holds_pid pid (task j) ≡ false)

-- what a call for the process `pid` and the group `pgid` ends with
abbrev pub Ended : Task → ℤ → ℤ → Tasks → ℤ × Tasks → Type 0
Ended current pid pgid task (code, task') =
    ((code ≡ esrch) × (task' ≡ task) × ((j : ℕ) → j < 64 → holds_pid pid (task j) ≡ false))
    ⊎ ((i : ℕ) × (t : Task) × FirstWith pid task i t
        × (((code ≡ eperm)
              × (task' ≡ task)
              × ((t.leader || not (eqb_ℤ t.session current.session)) ≡ true))
            ⊎ ((code ≡ pos 0)
                × (t.leader ≡ false)
                × (eqb_ℤ t.session current.session ≡ true)
                × (task' ≡ update task i (some (record t { pgrp = pgid }))))))

-- 0 stands for the caller
abbrev pub or_self : Task → ℤ → ℤ
or_self current n = if eqb_ℤ n (pos 0) then current.pid else n

none_ne : {t : Task} → none ≢ some t
none_ne e = cc

zero_ne : pos 0 ≢ eperm
zero_ne e = cc

holds_pid-some :
    (pid : ℤ) (o : Option Task)
    → holds_pid pid o ≡ true
    → (t : Task) × (o ≡ some t) × (eqb_ℤ t.pid pid ≡ true)
holds_pid-some pid none e = absurd (cc)
holds_pid-some pid (some t) e = (t, refl, e)

set_group-cases :
    (current : Task) (pgid : ℤ) (i : ℕ) (task : Tasks) (t : Task)
    → task i ≡ some t
    → let (code, task') = set_group current pgid i task in
      (((code ≡ eperm)
          × (task' ≡ task)
          × ((t.leader || not (eqb_ℤ t.session current.session)) ≡ true))
        ⊎ ((code ≡ pos 0)
            × (t.leader ≡ false)
            × (eqb_ℤ t.session current.session ≡ true)
            × (task' ≡ update task i (some (record t { pgrp = pgid })))))
unfolding set_group
set_group-cases current pgid i task t at = elim (Bool-cases t.leader) [
  | inl l ↦ rw (at, set_group, l) (inl (refl, refl, refl))
  | inr l ↦ elim (Bool-cases (eqb_ℤ t.session current.session)) [
    | inl s ↦ rw (at, set_group, l, s) (inr (refl, refl, refl, refl))
    | inr s ↦ rw (at, set_group, l, s) (inl (refl, refl, refl))
  ]
]

-- sys_setpgid gives the group to the first task with the pid, if that is no leader and in the session of
-- the caller; it returns -EPERM if it is not so, -ESRCH if there is no such task, and changes nothing then. A
-- pid or a group 0 stands for the caller's pid.
pub sys_setpgid-Ended :
    (current : Task) (pid pgid : ℤ) (task : Tasks)
    → Ended current
        (or_self current pid)
        (or_self current pgid)
        task
        (sys_setpgid current pid pgid task)
unfolding sys_setpgid
sys_setpgid-Ended current pid pgid task =
    ended (find_task (holds_pid (or_self current pid)) 0 64 task)
      (find_task-First (holds_pid (or_self current pid)) 0 64 task)
  where
    ended :
        (o : Option ℕ)
        → First (holds_pid (or_self current pid)) 0 64 task o
        → Ended current (or_self current pid) (or_self current pgid) task (elim o [
          | none ↦ (esrch, task)
          | some i ↦ set_group current (or_self current pgid) i task
        ])
    ended none f = inl (refl, refl, λ j lt. f j (omega arith) (omega arith))
    ended (some i) (ge, lt, found, before) =
        let (t, at, same) = holds_pid-some (or_self current pid) (task i) found in
        inr (
          i,
          t,
          (omega arith, at, same, λ j below. before j (omega arith) below),
          set_group-cases current (or_self current pgid) i task t at,
        )

abbrev with_uid : ℕ → Task → Task
with_uid uid t = record t { uid = uid }

effective-refused :
    (old : ℕ) (euid : ℤ) (t : Task)
    → (set_effective_uid old euid t).0 ≡ eperm
    → (set_effective_uid old euid t).1 ≡ record t { uid = old }
unfolding set_effective_uid
effective-refused old euid t refused = elim (Bool-cases (ltb_ℤ (pos 0) euid)) [
  | inl p ↦ elim (Bool-cases (is_id old euid || is_id t.euid euid || suser t)) [
    | inl h ↦ absurd (zero_ne (rw (p, h) at refused))
    | inr h ↦ rw (p, h) refl
  ]
  | inr p ↦ absurd (zero_ne (rw p at refused))
]

real-restored :
    (ruid : ℤ) (t t' : Task) → set_real_uid ruid t ≡ some t' → record t' { uid = t.uid } ≡ t
unfolding set_real_uid
real-restored ruid t t' at = elim (Bool-cases (ltb_ℤ (pos 0) ruid)) [
  | inl p ↦ elim (Bool-cases (is_id t.euid ruid || is_id t.uid ruid || suser t)) [
    | inl h ↦ ap (with_uid t.uid) (sym (some-eq (rw (p, h) at at)))
    | inr h ↦ absurd (none_ne (rw (p, h) at at))
  ]
  | inr p ↦ ap (with_uid t.uid) (sym (some-eq (rw p at at)))
]

-- sys_setreuid that returns -EPERM has changed nothing.
pub sys_setreuid-atomic :
    (ruid euid : ℤ) (t : Task)
    → (sys_setreuid ruid euid t).0 ≡ eperm
    → (sys_setreuid ruid euid t).1 ≡ t
unfolding sys_setreuid
sys_setreuid-atomic ruid euid t refused = elim (Option-cases (set_real_uid ruid t)) [
  | inl e ↦ rw (e, sys_setreuid) refl
  | inr (t', e) ↦
      rw (e, sys_setreuid)
        (effective-refused t.uid euid t' (rw (e, sys_setreuid) at refused)
          ∙ real-restored ruid t t' e)
]
