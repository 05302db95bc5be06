-- ===== src/Exit/Kill.antt =====
-- `sys_kill` of kernel/exit.c: which tasks get a signal.
use mathlib.Core.Path.{fun_ext}
use os_lab2_gui.Prelude.{
  ℕ, zero, suc, ◌+◌, ◌-◌, ◌≤◌, ◌<◌, ◌≡◌, ◌≢◌, refl, sym, ap, ◌∙◌, inl, inr, Bool, true, false, ◌&&◌,
  ◌||◌, Bool-cases, ==_iff, Option, none, some, arith, leb, ◌==◌, if◌then◌else◌,
}
use os_lab2_gui.Prelude.Int.{ℤ, pos, negsuc, pos_part, ltb_ℤ, eqb_ℤ}
use os_lab2_gui.Prelude.Table.{update, update_ne, update_same, sweep, sweep_lem}
use os_lab2_gui.Task.{Task, Tasks, last_task}
use os_lab2_gui.Exit.{add_signal, send_sig, kill_slot, kill_loop, kill_all, sys_kill}

-- whether `send_sig` reaches the task
abbrev pub allowed : ℕ → ℤ → Bool → Task → Bool
allowed euid sig priv t =
    ltb_ℤ (pos 0) sig && ltb_ℤ sig (pos 33) && (priv || euid == t.euid || euid == 0)

-- bit `sig - 1` of `signal` is set
abbrev pub signalled : ℤ → Task → Task
signalled sig t = record t { signal = λ k. t.signal k || eqb_ℤ (pos (k + 1)) sig }

-- what a loop over the tasks that pass a test makes of a slot
abbrev pub hit : ℕ → ℤ → Bool → (Task → Bool) → Option Task → Option Task
hit euid sig priv target none = none
hit euid sig priv target (some t) =
    some (if target t && allowed euid sig priv t then signalled sig t else t)

add_signal-sets :
    (sig : ℤ) (t : Task) → ltb_ℤ (pos 0) sig ≡ true → add_signal sig t ≡ signalled sig t
add_signal-sets sig t h =
    ap {A = ℕ → Bool} {B = Task} (λ f. record t { signal = f }) (fun_ext (λ k. same_bit k sig h))
  where
    same_bit :
        (k : ℕ) (n : ℤ)
        → ltb_ℤ (pos 0) n ≡ true
        → (t.signal k || pos_part n - 1 == k) ≡ (t.signal k || eqb_ℤ (pos (k + 1)) n)
    same_bit k n lt = ground arith

kill_slot-hit :
    (euid : ℕ) (sig : ℤ) (priv : Bool) (target : Task → Bool) (p : Option Task) (retval : ℤ)
    → (kill_slot euid sig priv target p retval).1 ≡ hit euid sig priv target p
unfolding kill_slot send_sig
kill_slot-hit euid sig priv target none retval = refl
kill_slot-hit euid sig priv target (some t) retval = elim (Bool-cases (ltb_ℤ (pos 0) sig)) [
  | inl h ↦ rw (sym (add_signal-sets sig t h)) (ground arith)
  | inr h ↦ ground (arith, h)
]

pub kill_loop-sweep :
    (euid : ℕ) (sig : ℤ) (priv : Bool) (target : Task → Bool) (k : ℕ) (task : Tasks) (retval : ℤ)
    → (kill_loop euid sig priv target k task retval).1 ≡ sweep k (hit euid sig priv target) task
unfolding kill_loop sweep
kill_loop-sweep euid sig priv target zero task retval = refl
kill_loop-sweep euid sig priv target (suc k) task retval =
    kill_loop-sweep euid sig priv target k
      (update task (suc k) (kill_slot euid sig priv target (task (suc k)) retval).1)
      (kill_slot euid sig priv target (task (suc k)) retval).0
    ∙ ap (λ p. sweep k (hit euid sig priv target) (update task (suc k) p))
        (kill_slot-hit euid sig priv target (task (suc k)) retval)

abbrev pub in_loop : ℕ → ℕ → Bool
in_loop k j = leb 1 j && leb j k

kill_loop-slot :
    (euid : ℕ) (sig : ℤ) (priv : Bool) (target : Task → Bool) (k : ℕ) (task : Tasks) (retval : ℤ)
    → (j : ℕ)
    → (kill_loop euid sig priv target k task retval).1 j
      ≡ (if in_loop k j then hit euid sig priv target (task j) else task j)
kill_loop-slot euid sig priv target k task retval j =
    ap (λ m. m j) (kill_loop-sweep euid sig priv target k task retval)
    ∙ sweep_lem k (hit euid sig priv target) task j

-- For a positive `pid` exactly the tasks with that pid get the signal, but task 0, if the signal is one
-- of 1 to 32 and the caller is the superuser or has their effective user; nothing else changes. For
-- `pid` 0 it is the tasks of the group named by the caller's pid, whoever they belong to.
pub sys_kill-slots :
    (current : Task) (pid sig : ℤ) (task : Tasks) (j : ℕ)
    → ((ltb_ℤ (pos 0) pid ≡ true)
        → (sys_kill current pid sig task).1 j ≡ (
            if in_loop last_task j
            then hit current.euid sig false (λ t. eqb_ℤ t.pid pid) (task j)
            else task j))
      × ((pid ≡ pos 0)
          → (sys_kill current pid sig task).1 j ≡ (
              if in_loop last_task j
              then hit current.euid sig true (λ t. eqb_ℤ t.pgrp current.pid) (task j)
              else task j))
unfolding sys_kill
sys_kill-slots current pid sig task j = (
  (λ positive.
      rw (not_zero positive, positive)
        (kill_loop-slot current.euid sig false (λ t. eqb_ℤ t.pid pid) last_task task (pos 0) j)),
  (λ zero_pid. rw zero_pid (
      kill_loop-slot current.euid sig true (λ t. eqb_ℤ t.pgrp current.pid) last_task task (pos 0)
        j)),
)
  where
    not_zero : ltb_ℤ (pos 0) pid ≡ true → eqb_ℤ pid (pos 0) ≡ false
    not_zero h = ground arith

module _ (euid : ℕ) (sig : ℤ) (j : ℕ) (t : Task) (foreign : euid ≢ t.euid)
    (no_root : euid ≢ 0) where
  hit-foreign : (target : Task → Bool) → hit euid sig false target (some t) ≡ some t
  hit-foreign target = ground arith

  send_sig-foreign : (send_sig euid sig (some t) false).1 ≡ some t
  unfolding send_sig
  send_sig-foreign = ground arith

  kill_loop-foreign :
      (target : Task → Bool) (k : ℕ) (task : Tasks) (retval : ℤ)
      → task j ≡ some t
      → (kill_loop euid sig false target k task retval).1 j ≡ some t
  kill_loop-foreign target k task retval at =
      kill_loop-slot euid sig false target k task retval j
      ∙ rw (at, hit-foreign target)
          (elim (Bool-cases (in_loop k j)) [ inl e ↦ rw e refl | inr e ↦ rw e refl ])

  sent :
      (i : ℕ) (task : Tasks)
      → task j ≡ some t
      → update task i (send_sig euid sig (task i) false).1 j ≡ some t
  sent i task at = elim (Bool-cases (i == j)) [
    | inl e ↦ rw e (
        ap (λ p. (send_sig euid sig p false).1) (ap task ((==_iff i j).0 e) ∙ at)
        ∙ send_sig-foreign)
    | inr e ↦ rw e at
  ]

  kill_all-foreign :
      (k : ℕ) (task : Tasks) (retval : ℤ)
      → task j ≡ some t
      → (kill_all euid sig k task retval).1 j ≡ some t
  unfolding kill_all
  kill_all-foreign zero task retval at = at
  kill_all-foreign (suc k) task retval at =
      elim (Bool-cases (eqb_ℤ (send_sig euid sig (task (suc k)) false).0 (pos 0))) [
        | inl e ↦ rw e (
            kill_loop-foreign (λ p. eqb_ℤ p.pgrp (pos 1)) k
              (update task (suc k) (send_sig euid sig (task (suc k)) false).1) retval
              (sent (suc k) task at))
        | inr e ↦ rw e (
            kill_all-foreign k (update task (suc k) (send_sig euid sig (task (suc k)) false).1)
              (send_sig euid sig (task (suc k)) false).0 (sent (suc k) task at))
      ]

-- Unless `pid` is 0, a caller who is not the superuser changes no task of another user.
pub sys_kill-foreign :
    (current : Task) (pid sig : ℤ) (task : Tasks) (j : ℕ) (t : Task)
    → current.euid ≢ t.euid
    → current.euid ≢ 0
    → pid ≢ pos 0
    → task j ≡ some t
    → (sys_kill current pid sig task).1 j ≡ some t
unfolding sys_kill
sys_kill-foreign current pid sig task j t foreign no_root not_zero at = ground (
  arith,
  kill_loop-foreign current.euid sig j t foreign no_root (λ p. eqb_ℤ p.pid pid) last_task task
      (pos 0) at,
  kill_all-foreign current.euid sig j t foreign no_root last_task task (pos 0) at,
)

send_sig-refused :
    (euid : ℕ) (sig : ℤ) (p : Option Task)
    → ((u : Task) → p ≡ some u → allowed euid sig false u ≡ false)
    → (eqb_ℤ (send_sig euid sig p false).0 (pos 0) ≡ false) × ((send_sig euid sig p false).1 ≡ p)
unfolding send_sig
send_sig-refused euid sig none refused = (refl, refl)
send_sig-refused euid sig (some t) refused = ground (arith, refused t refl)

send_sig-sent :
    (euid : ℕ) (sig : ℤ) (t : Task)
    → allowed euid sig false t ≡ true
    → eqb_ℤ (send_sig euid sig (some t) false).0 (pos 0) ≡ true
unfolding send_sig
send_sig-sent euid sig t ok = ground arith

module _ (euid : ℕ) (sig : ℤ) (i : ℕ) (t : Task) (ok : allowed euid sig false t ≡ true) (j : ℕ)
    (u : Task) (other : j ≢ i) (group : eqb_ℤ u.pgrp (pos 1) ≡ false) where
  -- the inner loop leaves the slot `j` alone
  group_loop :
      (k : ℕ) (task : Tasks) (retval : ℤ)
      → task j ≡ some u
      → (kill_loop euid sig false (λ p. eqb_ℤ p.pgrp (pos 1)) k task retval).1 j ≡ some u
  group_loop k task retval at =
      kill_loop-slot euid sig false (λ p. eqb_ℤ p.pgrp (pos 1)) k task retval j
      ∙ rw (at, group) (elim (Bool-cases (in_loop k j)) [ inl e ↦ rw e refl | inr e ↦ rw e refl ])

  kill_all-stops :
      (k : ℕ) (task : Tasks) (retval : ℤ)
      → 1 ≤ i
      → i ≤ k
      → task i ≡ some t
      → ((l : ℕ) (v : Task) → i < l → l ≤ k → task l ≡ some v → allowed euid sig false v ≡ false)
      → task j ≡ some u
      → (kill_all euid sig k task retval).1 j ≡ some u
  unfolding kill_all
  kill_all-stops zero task retval one top at above at_j = at_j
  kill_all-stops (suc k) task retval one top at above at_j = elim (Bool-cases (suc k == i)) [
    | inl e ↦
        let here : task (suc k) ≡ some t = ap task ((==_iff (suc k) i).0 e) ∙ at in
        rw (here, send_sig-sent euid sig t ok)
          (group_loop k (update task (suc k) (send_sig euid sig (some t) false).1) retval (
            update_ne task (suc k) (send_sig euid sig (some t) false).1 j
              (omega (arith, (==_iff (suc k) i).0 e))
            ∙ at_j))
    | inr e ↦
        let below : i < suc k = ground arith in
        let same : (l : ℕ) → update task (suc k) (task (suc k)) l ≡ task l =
          update_same task (suc k) in
        let (err, kept) =
          send_sig-refused euid sig (task (suc k)) (λ v. above (suc k) v below (omega arith)) in
        rw (err, kept)
          (kill_all-stops k (update task (suc k) (task (suc k)))
            (send_sig euid sig (task (suc k)) false).0 one (omega (arith, below)) (same i ∙ at)
            (λ l v h le at_l. above l v h (omega arith) (sym (same l) ∙ at_l)) (same j ∙ at_j))
  ]

-- With `pid` -1 the first task that can be signalled is the only one, but for those of the group 1: if
-- the slots above `i` cannot be signalled and slot `i` can, a task in another slot that is not of the
-- group 1 gets no signal.
pub kill_all-first :
    (current : Task) (sig : ℤ) (task : Tasks) (i : ℕ) (t : Task)
    → 1 ≤ i
    → i ≤ last_task
    → task i ≡ some t
    → allowed current.euid sig false t ≡ true
    → ((j : ℕ) (u : Task) → i < j → task j ≡ some u → allowed current.euid sig false u ≡ false)
    → (j : ℕ) (u : Task) → j ≢ i
    → task j ≡ some u
    → eqb_ℤ u.pgrp (pos 1) ≡ false
    → (sys_kill current (negsuc 0) sig task).1 j ≡ some u
unfolding sys_kill
kill_all-first current sig task i t one top at ok above j u other at_j group =
    kill_all-stops current.euid sig i t ok j u other group last_task task (pos 0) one top at
      (λ l v h le. above l v h) at_j
