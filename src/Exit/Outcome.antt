-- ===== src/Exit/Outcome.antt =====
-- What the pass of sys_waitpid of kernel/exit.c over the tasks can end with.
use mathlib.Core.Path.{subst}
use os_lab2_gui.Prelude.{
  ℕ, zero, suc, ◌≤◌, ◌<◌, ◌≡◌, ◌≢◌, ◌↔◌, refl, sym, ap, ◌∙◌, ◌⊎◌, inl, inr, Bool, true, false, not,
  ◌&&◌, Bool-cases, ==_iff, none, some, arith, ◌==◌, if◌then◌else◌,
}
use os_lab2_gui.Prelude.Int.{ℤ, pos, negsuc, eqb_ℤ, ◌-ℤ◌, int_laws}
use os_lab2_gui.Task.{
  Task, Tasks, TaskState, running, interruptible, uninterruptible, zombie, stopped,
}
use os_lab2_gui.Exit.{Found, found_stopped, found_zombie, found_none, waits_for}

-- whether `pid` names the task: 0 the group of the caller, -1 every task, a positive one the task with it, and
-- one below -1 the group with its absolute value
abbrev pub asked : ℤ → Task → Task → Bool
asked (pos zero) current t = eqb_ℤ t.pgrp current.pgrp
asked (pos (suc n)) current t = eqb_ℤ t.pid (pos (suc n))
asked (negsuc zero) current t = true
asked (negsuc (suc n)) current t = eqb_ℤ t.pgrp (pos (suc (suc n)))

-- a child that the call waits for, other than the caller
abbrev pub child : ℤ → ℕ → Task → ℕ → Task → Bool
child pid self current i t = not (i == self) && (eqb_ℤ t.father current.pid && asked pid current t)

pub waits_for-asked :
    (pid : ℤ) (current t : Task)
    → waits_for pid current t ≡ (eqb_ℤ t.father current.pid && asked pid current t)
unfolding waits_for
waits_for-asked (pos zero) current t = refl
waits_for-asked (pos (suc n)) current t = ground arith
waits_for-asked (negsuc zero) current t = ground arith
waits_for-asked (negsuc (suc n)) current t =
    let negated : pos 0 -ℤ negsuc (suc n) ≡ pos (suc (suc n)) = omega int_laws in
    ground (arith, negated)

-- how a child counts: as a result, as one to wait for, or not at all
pub data Kind : Type 0 where
  result waiting ignored : Kind

abbrev pub kind_of : Bool → TaskState → Kind
kind_of untraced zombie = result
kind_of untraced stopped = if untraced then result else ignored
kind_of untraced running = waiting
kind_of untraced interruptible = waiting
kind_of untraced uninterruptible = waiting

pub result_not_ignored : result ≢ ignored
result_not_ignored e = cc

pub waiting_not_ignored : waiting ≢ ignored
waiting_not_ignored e = cc

pub waiting_not_result : waiting ≢ result
waiting_not_result e = cc

pub none_not_some : {t : Task} → none ≢ some t
none_not_some e = cc

pub false_not_true : false ≢ true
false_not_true e = cc

-- no child in the slots from `lo + 1` to `hi` is a result
abbrev pub NoResult : Bool → ℤ → ℕ → Task → Tasks → ℕ → ℕ → Type 0
NoResult untraced pid self current task lo hi =
    (i : ℕ) (t : Task)
    → lo < i
    → i ≤ hi
    → task i ≡ some t
    → child pid self current i t ≡ true
    → kind_of untraced t.state ≢ result

-- the slot `i` holds a child in the state `st`
abbrev pub ChildIn : ℤ → ℕ → Task → Tasks → TaskState → ℕ → ℕ → Type 0
ChildIn pid self current task st k i =
    (1 ≤ i)
    × (i ≤ k)
    × ((t : Task) × (task i ≡ some t) × (child pid self current i t ≡ true) × (t.state ≡ st))

-- some slot up to `k` holds a child to wait for
abbrev pub Waiting : Bool → ℤ → ℕ → Task → Tasks → ℕ → Type 0
Waiting untraced pid self current task k =
    (i : ℕ) × (t : Task) × (1 ≤ i)
    × (i ≤ k)
    × (task i ≡ some t)
    × (child pid self current i t ≡ true)
    × (kind_of untraced t.state ≡ waiting)

-- What the pass over the slots from `k` down to 1 ends with, started with `flag`.
abbrev pub Outcome : Bool → ℤ → ℕ → Task → Tasks → ℕ → Bool → Found → Type 0
Outcome untraced pid self current task k flag (found_zombie i) =
    ChildIn pid self current task zombie k i × NoResult untraced pid self current task i k
Outcome untraced pid self current task k flag (found_stopped i) =
    (untraced ≡ true)
    × ChildIn pid self current task stopped k i
    × NoResult untraced pid self current task i k
Outcome untraced pid self current task k flag (found_none flag') =
    NoResult untraced pid self current task 0 k
    × ((flag' ≡ true) ↔ ((flag ≡ true) ⊎ Waiting untraced pid self current task k))

module _ (untraced : Bool) (pid : ℤ) (self : ℕ) (current : Task) (task : Tasks) (k : ℕ) where
  NoResult-up :
      (lo : ℕ)
      → ((t : Task)
          → task (suc k) ≡ some t
          → child pid self current (suc k) t ≡ true
          → kind_of untraced t.state ≢ result)
      → NoResult untraced pid self current task lo k
      → NoResult untraced pid self current task lo (suc k)
  NoResult-up lo here below i t ge le at = elim (Bool-cases (suc k == i)) [
    | inl e ↦
        let q : suc k ≡ i = (==_iff (suc k) i).0 e in
        λ c. here t (ap task q ∙ at) (subst (λ n. child pid self current n t ≡ true) (sym q) c)
    | inr e ↦ below i t ge (ground arith) at
  ]

  -- one more slot, which is no result, with the flag `f` behind it
  pub Outcome-up :
      (flag f : Bool) (r : Found)
      → ((t : Task)
          → task (suc k) ≡ some t
          → child pid self current (suc k) t ≡ true
          → kind_of untraced t.state ≢ result)
      → (((f ≡ true) ⊎ Waiting untraced pid self current task k)
          ↔ ((flag ≡ true) ⊎ Waiting untraced pid self current task (suc k)))
      → Outcome untraced pid self current task k f r
      → Outcome untraced pid self current task (suc k) flag r
  Outcome-up flag f (found_zombie i) here flags ((ge, le, c), above) =
      ((ge, omega arith, c), NoResult-up i here above)
  Outcome-up flag f (found_stopped i) here flags (u, (ge, le, c), above) =
      (u, (ge, omega arith, c), NoResult-up i here above)
  Outcome-up flag f (found_none flag') here flags (no_result, (fwd, bwd)) =
      (NoResult-up 0 here no_result, (λ e. flags.0 (fwd e), λ w. bwd (flags.1 w)))

  Waiting-up :
      Waiting untraced pid self current task k → Waiting untraced pid self current task (suc k)
  Waiting-up (i, t, ge, le, at, c, w) = (i, t, ge, omega arith, at, c, w)

  -- a slot that does not count leaves the flag
  pub flags_same :
      (flag : Bool)
      → ((t : Task)
          → task (suc k) ≡ some t
          → child pid self current (suc k) t ≡ true
          → kind_of untraced t.state ≢ waiting)
      → ((flag ≡ true) ⊎ Waiting untraced pid self current task k)
        ↔ ((flag ≡ true) ⊎ Waiting untraced pid self current task (suc k))
  flags_same flag no_wait = (keep, back)
    where
      keep :
          (flag ≡ true) ⊎ Waiting untraced pid self current task k
          → (flag ≡ true) ⊎ Waiting untraced pid self current task (suc k)
      keep (inl e) = inl e
      keep (inr w) = inr (Waiting-up w)

      back :
          (flag ≡ true) ⊎ Waiting untraced pid self current task (suc k)
          → (flag ≡ true) ⊎ Waiting untraced pid self current task k
      back (inl e) = inl e
      back (inr (i, t, ge, le, at, c, w)) = elim (Bool-cases (suc k == i)) [
        | inl e ↦
            let q : suc k ≡ i = (==_iff (suc k) i).0 e in
            absurd (
              no_wait t (ap task q ∙ at) (subst (λ n. child pid self current n t ≡ true) (sym q) c)
                w)
        | inr e ↦ inr (i, t, ge, ground arith, at, c, w)
      ]

  -- a child to wait for sets it
  pub flags_set :
      (flag : Bool) (t : Task)
      → task (suc k) ≡ some t
      → child pid self current (suc k) t ≡ true
      → kind_of untraced t.state ≡ waiting
      → ((true ≡ true) ⊎ Waiting untraced pid self current task k)
        ↔ ((flag ≡ true) ⊎ Waiting untraced pid self current task (suc k))
  flags_set flag t at c w =
      ((λ e. inr (suc k, t, omega arith, omega arith, at, c, w)), λ e. inl refl)
