-- ===== src/Exit/Wait.antt =====
-- The pass of sys_waitpid of kernel/exit.c over the tasks.
use mathlib.Core.Path.{subst}
use os_lab2_gui.Prelude.{
  not, ◌&&◌, ◌==◌, ℕ, zero, suc, ◌≤◌, ◌≡◌, refl, sym, ap, ◌∙◌, ◌⊎◌, inl, inr, Bool, true, false,
  Bool-cases, Option-cases, none, some, some-eq, arith, if◌then◌else◌,
}
use os_lab2_gui.Prelude.Int.{ℤ}
use os_lab2_gui.Task.{
  Task, Tasks, last_task, TaskState, running, interruptible, uninterruptible, zombie, stopped,
}
use os_lab2_gui.Sched.{Kernel}
use os_lab2_gui.Exit.{
  waits_for, replied, sys_waitpid, on_found, echild, Found, found_stopped, found_zombie, found_none,
  on_state, wait_scan,
}
use os_lab2_gui.Exit.Outcome.{
  waits_for-asked, child, result, waiting, ignored, kind_of, Waiting, Outcome, result_not_ignored,
  waiting_not_ignored, waiting_not_result, none_not_some, false_not_true, Outcome-up, flags_same,
  flags_set,
}

module _ (untraced : Bool) (pid : ℤ) (self : ℕ) (current : Task) (task : Tasks) (k : ℕ) where
  module _
      (rest : (f : Bool)
        → Outcome untraced pid self current task k f
            (wait_scan untraced pid self current task k f)) where
    skip :
        (flag : Bool)
        → ((t : Task)
            → task (suc k) ≡ some t
            → child pid self current (suc k) t ≡ true
            → kind_of untraced t.state ≡ ignored)
        → Outcome untraced pid self current task
            (suc k)
            flag
            (wait_scan untraced pid self current task k flag)
    skip flag off =
        Outcome-up untraced pid self current task k flag flag
          (wait_scan untraced pid self current task k flag)
          (λ t at c e. result_not_ignored (sym e ∙ off t at c))
          (flags_same untraced pid self current task k flag
            (λ t at c e. waiting_not_ignored (sym e ∙ off t at c)))
          (rest flag)

    wait_on :
        (flag : Bool) (t : Task)
        → task (suc k) ≡ some t
        → child pid self current (suc k) t ≡ true
        → kind_of untraced t.state ≡ waiting
        → Outcome untraced pid self current task
            (suc k)
            flag
            (wait_scan untraced pid self current task k true)
    wait_on flag t at c w =
        Outcome-up untraced pid self current task k flag true
          (wait_scan untraced pid self current task k true)
          (λ u at_u c_u e.
            waiting_not_result
              (sym w ∙ ap (λ m. kind_of untraced m.state) (some-eq (sym at ∙ at_u)) ∙ e))
          (flags_set untraced pid self current task k flag t at c w) (rest true)

    -- the `switch`
    state_step :
        (flag : Bool) (t : Task) (st : TaskState)
        → task (suc k) ≡ some t
        → child pid self current (suc k) t ≡ true
        → t.state ≡ st
        → Outcome untraced pid self current task
            (suc k)
            flag
            (on_state untraced (suc k) t (wait_scan untraced pid self current task k) flag)
    state_step flag t running at c e = rw e (wait_on flag t at c (rw e refl))
    state_step flag t interruptible at c e = rw e (wait_on flag t at c (rw e refl))
    state_step flag t uninterruptible at c e = rw e (wait_on flag t at c (rw e refl))
    state_step flag t zombie at c e =
        rw e ((omega arith, omega arith, (t, at, c, e)), λ i u ge le. absurd (omega arith))
    state_step flag t stopped at c e = rw e (elim (Bool-cases untraced) [
      | inl u ↦
          subst
            (λ b. Outcome untraced pid self current task (suc k) flag (
              if b then found_stopped (suc k) else wait_scan untraced pid self current task k flag))
            (sym u)
            (u, (omega arith, omega arith, (t, at, c, e)), λ i v ge le. absurd (omega arith))
      | inr u ↦
          subst
            (λ b. Outcome untraced pid self current task (suc k) flag (
              if b then found_stopped (suc k) else wait_scan untraced pid self current task k flag))
            (sym u)
            (skip flag (λ v at_v c_v.
              ap (λ m. kind_of untraced m.state) (some-eq (sym at_v ∙ at))
              ∙ ap (kind_of untraced) e
              ∙ ap (λ b. if b then result else ignored) u))
    ])

    child_test :
        (t : Task)
        → child pid self current (suc k) t ≡ not (suc k == self) && waits_for pid current t
    child_test t = ap (λ b. not (suc k == self) && b) (sym (waits_for-asked pid current t))

    wait_step :
        (flag : Bool)
        → Outcome untraced pid self current task
            (suc k)
            flag
            (wait_scan untraced pid self current task (suc k) flag)
    unfolding wait_scan
    wait_step flag = elim (Option-cases (task (suc k))) [
      | inl e ↦ rw (e, wait_scan) (skip flag (λ t at. absurd (none_not_some (sym e ∙ at))))
      | inr (t, e) ↦ elim (Bool-cases (not (suc k == self) && waits_for pid current t)) [
        | inl c ↦ rw (e, c, wait_scan) (state_step flag t t.state e (child_test t ∙ c) refl)
        | inr c ↦
            rw (e, c, wait_scan)
              (skip flag (λ u at_u c_u. absurd (
                false_not_true (
                  sym (child_test t ∙ c)
                  ∙ ap (child pid self current (suc k)) (some-eq (sym e ∙ at_u))
                  ∙ c_u))))
      ]
    ]

-- A pass over the children that a call of sys_waitpid waits for finds the zombie, or with WUNTRACED the
-- stopped child, in the highest slot. If there is none, `flag` says whether there is a child to wait for,
-- which a stopped child is not.
pub wait_scan-Outcome :
    (untraced : Bool) (pid : ℤ) (self : ℕ) (current : Task) (task : Tasks) (k : ℕ) (flag : Bool)
    → Outcome untraced pid self current task k flag
        (wait_scan untraced pid self current task k flag)
unfolding wait_scan
wait_scan-Outcome untraced pid self current task zero flag =
    (λ i t ge le. absurd (omega arith), (inl, λ w. only_flag w))
  where
    only_flag : (flag ≡ true) ⊎ Waiting untraced pid self current task 0 → flag ≡ true
    only_flag (inl e) = e
    only_flag (inr (i, t, ge, le, at, c, w)) = absurd (omega arith)
wait_scan-Outcome untraced pid self current task (suc k) flag =
    wait_step untraced pid self current task k
      (λ f. wait_scan-Outcome untraced pid self current task k f) flag

-- A caller without a child that is a zombie or that it has to wait for gets -ECHILD, and nothing changes;
-- without WUNTRACED this holds though it has stopped children.
pub sys_waitpid-echild :
    (untraced nohang : Bool) (pid : ℤ) (k : Kernel) (current : Task)
    → k.task k.current ≡ some current
    → ((i : ℕ) (t : Task)
        → 1 ≤ i
        → i ≤ last_task
        → k.task i ≡ some t
        → child pid k.current current i t ≡ true
        → kind_of untraced t.state ≡ ignored)
    → sys_waitpid untraced nohang pid k ≡ some (replied echild none k)
unfolding sys_waitpid on_found
sys_waitpid-echild untraced nohang pid k current at off =
    rw (at, sys_waitpid)
      (reply (wait_scan untraced pid k.current current k.task last_task false)
        (wait_scan-Outcome untraced pid k.current current k.task last_task false))
  where
    no_flag :
        (false ≡ true) ⊎ Waiting untraced pid k.current current k.task last_task
        → on_found nohang k (found_none true) ≡ some (replied echild none k)
    no_flag (inl e) = absurd (false_not_true e)
    no_flag (inr (i, t, ge, le, at_i, c, w)) =
        absurd (waiting_not_ignored (sym w ∙ off i t ge le at_i c))

    reply :
        (r : Found)
        → Outcome untraced pid k.current current k.task last_task false r
        → on_found nohang k r ≡ some (replied echild none k)
    reply (found_zombie i) ((ge, le, (t, at_i, c, st)), above) =
        absurd (result_not_ignored (sym (ap (kind_of untraced) st) ∙ off i t ge le at_i c))
    reply (found_stopped i) (u, (ge, le, (t, at_i, c, st)), above) = absurd (
        result_not_ignored (
          sym (ap (kind_of untraced) st ∙ ap (λ b. if b then result else ignored) u)
          ∙ off i t ge le at_i c))
    reply (found_none false) out = refl
    reply (found_none true) (no_result, (fwd, bwd)) = no_flag (fwd refl)
