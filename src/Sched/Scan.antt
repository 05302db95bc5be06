-- ===== src/Sched/Scan.antt =====
-- The scan of `schedule` of kernel/sched.c for the runnable task with the most time left.
use os_lab2_gui.Prelude.{
  ℕ, zero, suc, ◌+◌, ◌≤◌, ◌<◌, ◌≡◌, ◌≢◌, refl, sym, ap, ◌∙◌, ◌⊎◌, inl, inr, true, false, Bool-cases,
  ==_iff, some-eq, Option, none, some, arith, ◌==◌, if◌then◌else◌,
}
use os_lab2_gui.Prelude.Int.{ℤ, negsuc, pos_part, neg_part, ◌≤ℤ◌}
use os_lab2_gui.Task.{is_running, Task, Tasks, last_task}
use os_lab2_gui.Sched.{better, counter_of, scan}

infix 50 ◌<ℤ◌
abbrev pub ◌<ℤ◌ : ℤ → ℤ → Type 0
a <ℤ b = pos_part a + neg_part b < pos_part b + neg_part a

-- What the scan has found of the slots above `lo`: `next` is 0 with `c = -1`, or it is a runnable task
-- whose counter is `c`; no runnable task has more, and none behind `next` has as much.
pub record Best (task : Tasks) (lo : ℕ) (c : ℤ) (next : ℕ) : Type 0 where
  pub found :
      ((next ≡ 0) × (c ≡ negsuc 0))
      ⊎ ((t : Task) × (task next ≡ some t)
          × (is_running t.state ≡ true)
          × (t.counter ≡ c)
          × (lo < next)
          × (next ≤ last_task))
  pub most :
      (i : ℕ) (t : Task)
      → lo < i
      → i ≤ last_task
      → task i ≡ some t
      → is_running t.state ≡ true
      → t.counter ≤ℤ c
  pub behind :
      (i : ℕ) (t : Task)
      → next ≢ 0
      → next < i
      → i ≤ last_task
      → task i ≡ some t
      → is_running t.state ≡ true
      → t.counter <ℤ c

better-true :
    (o : Option Task) (c : ℤ)
    → better o c ≡ true
    → (t : Task) × (o ≡ some t) × (is_running t.state ≡ true) × (c <ℤ t.counter)
unfolding better
better-true none c h = absurd (cc)
better-true (some t) c h = (t, refl, ground arith, ground arith)

better-false :
    (o : Option Task) (c : ℤ) (t : Task)
    → better o c ≡ false
    → o ≡ some t
    → is_running t.state ≡ true
    → t.counter ≤ℤ c
unfolding better
better-false none c t h e r = absurd (cc)
better-false (some t') c t h e r = ground arith

module _ (task : Tasks) (i : ℕ) (c : ℤ) (next : ℕ) (b : Best task (suc i) c next) where
  Best-skip : better (task (suc i)) c ≡ false → Best task i c next
  Best-skip miss = record {
    found = elim b.found [
      | inl none_yet ↦ inl none_yet
      | inr (t, at, run, eq, above, below) ↦ inr (t, at, run, eq, omega arith, below)
    ];
    most = λ j t above below at run. elim (Bool-cases (j == suc i)) [
      | inl here ↦
          better-false (task (suc i)) c t miss (ap task (sym ((==_iff j (suc i)).0 here)) ∙ at) run
      | inr beyond ↦ b.most j t (ground arith) below at run
    ];
    behind = b.behind;
  }

  Best-take :
      suc i ≤ last_task
      → better (task (suc i)) c ≡ true
      → Best task i (counter_of (task (suc i))) (suc i)
  Best-take h hit =
      let (t, at, run, more) = better-true (task (suc i)) c hit in
      let counter : counter_of (task (suc i)) ≡ t.counter = ap counter_of at in
      rw counter (record {
        found = inr (t, at, run, refl, omega arith, h);
        most = λ j t' above below at' run'. elim (Bool-cases (j == suc i)) [
          | inl here ↦
              let same : t' ≡ t = some-eq (sym at' ∙ ap task ((==_iff j (suc i)).0 here) ∙ at) in
              rw same (omega arith)
          | inr beyond ↦
              let less : t'.counter ≤ℤ c = b.most j t' (ground arith) below at' run' in omega arith
        ];
        behind = λ j t' ne above below at' run'.
            let less : t'.counter ≤ℤ c = b.most j t' above below at' run' in omega arith;
      })

  -- one step of the scan
  Best-step :
      suc i ≤ last_task
      → let hit = better (task (suc i)) c in
        Best task i (if hit then counter_of (task (suc i)) else c) (if hit then suc i else next)
  Best-step h = elim (Bool-cases (better (task (suc i)) c)) [
    | inl hit ↦ rw hit (Best-take h hit)
    | inr miss ↦ rw miss (Best-skip miss)
  ]

pub scan-Best :
    (task : Tasks) (i : ℕ) (c : ℤ) (next : ℕ)
    → i ≤ last_task
    → Best task i c next
    → Best task 0 (scan task i c next).0 (scan task i c next).1
unfolding scan
scan-Best task zero c next h b = b
scan-Best task (suc i) c next h b =
    scan-Best task i (if better (task (suc i)) c then counter_of (task (suc i)) else c)
      (if better (task (suc i)) c then suc i else next) (omega arith) (Best-step task i c next b h)

pub start-Best : (task : Tasks) → Best task last_task (negsuc 0) 0
start-Best task = record {
  found = inl (refl, refl);
  most = λ i t above below. absurd (omega arith);
  behind = λ i t ne. absurd (ne refl);
}
