-- ===== src/Sched/Wait/Sound.antt =====
-- `sleep_on` and `wake_up` of kernel/sched.c: what leads to a task asleep, through every step.
use mathlib.Core.Path.{subst}
use os_lab2_gui.Prelude.{
  ℕ, ◌≡◌, ◌≢◌, refl, sym, ap, ◌∙◌, ◌⊎◌, inl, inr, Bool-cases, ==_iff, some-eq, Option, none, some,
  arith, ◌==◌,
}
use os_lab2_gui.Prelude.Table.{update, update_self, update_ne}
use os_lab2_gui.Task.{TaskState, running, uninterruptible, Task, Tasks, on_task}
use os_lab2_gui.Sched.{
  Kernel, at_task, set_state, wake_task, sleep_begin, sleep_on, sleep_on_end, wake_up,
}
use os_lab2_gui.Sched.Wait.{
  Waiting, Exists, Runs, Step, sleeps, wakes, returns, Leads, here, next, Covered, IsSound, Reach,
  start, step, initial,
}

module _ (task : Tasks) (i : ℕ) (f : Task → Task) where
  at_task-Exists : (a : ℕ) → Exists task a → Exists (at_task task i f) a
  at_task-Exists a (t, e) = elim (Bool-cases (i == a)) [
    | inl hit ↦ rw hit (
        let q : i ≡ a = (==_iff i a).0 hit in
        (f t, ap (λ j. on_task f (task j)) q ∙ ap (on_task f) e))
    | inr miss ↦ rw miss (t, e)
  ]

  at_task-Runs :
      ((t : Task) → t.state ≡ running → (f t).state ≡ running)
      → (a : ℕ) → Runs task a
      → Runs (at_task task i f) a
  at_task-Runs keep a (t, e, r) = elim (Bool-cases (i == a)) [
    | inl hit ↦ rw hit (
        let q : i ≡ a = (==_iff i a).0 hit in
        (f t, ap (λ j. on_task f (task j)) q ∙ ap (on_task f) e, keep t r))
    | inr miss ↦ rw miss (t, e, r)
  ]

  at_task-Runs_ne : (a : ℕ) → i ≢ a → Runs task a → Runs (at_task task i f) a
  at_task-Runs_ne a ne (t, e, r) = (t, update_ne task i (on_task f (task i)) a ne ∙ e, r)

wake_task-Exists :
    (o : Option ℕ) (task : Tasks) (a : ℕ) → Exists task a → Exists (wake_task o task) a
wake_task-Exists none task a e = e
wake_task-Exists (some i) task a e = at_task-Exists task i (set_state running) a e

wake_task-Runs : (o : Option ℕ) (task : Tasks) (a : ℕ) → Runs task a → Runs (wake_task o task) a
wake_task-Runs none task a r = r
wake_task-Runs (some i) task a r = at_task-Runs task i (set_state running) (λ t e. refl) a r

woken-Runs : (task : Tasks) (i : ℕ) → Exists task i → Runs (wake_task (some i) task) i
woken-Runs task i (t, e) = (
  set_state running t,
  update_self task i (on_task (set_state running) (task i)) ∙ ap (on_task (set_state running)) e,
  refl,
)

none-ne-some : {A : Type 0} {a : A} → none ≡ some a → ⊥
none-ne-some e = cc

-- a task that was not asleep is on nobody's way, nor at its own
Leads-sleep :
    (saved : ℕ → Option (Option ℕ)) (c w : ℕ) (v : Option (Option ℕ)) {a : ℕ}
    → saved c ≡ none
    → Leads saved w a
    → Leads (update saved c v) w a
Leads-sleep saved c w v awake (here e) = here e
Leads-sleep saved c w v awake (next {a} e l) =
    next (update_ne saved c v a (λ q. none-ne-some (sym awake ∙ ap saved q ∙ e)) ∙ e)
      (Leads-sleep saved c w v awake l)

-- what leads to `w` when `c` has returned: the same, or what `c` has just woken
Leads-return :
    (saved : ℕ → Option (Option ℕ)) (c w : ℕ) {a : ℕ}
    → Leads saved w a
    → Leads (update saved c none) w a
      ⊎ ((b : ℕ) × (saved c ≡ some (some b)) × Leads (update saved c none) w b)
Leads-return saved c w (here e) = inl (here e)
Leads-return saved c w (next {a} {b} e l) = elim (Leads-return saved c w l) [
  | inr later ↦ inr later
  | inl l' ↦ elim (Bool-cases (c == a)) [
    | inl hit ↦ inr (b, ap saved ((==_iff c a).0 hit) ∙ e, l')
    | inr miss ↦ inl (next (update_ne saved c none a (λ q. ground arith) ∙ e) l')
  ]
]

Leads-start :
    (saved : ℕ → Option (Option ℕ)) (w : ℕ) {a : ℕ} → Leads saved w a → (a ≡ w) ⊎ (saved a ≢ none)
Leads-start saved w (here e) = inl e
Leads-start saved w (next e l) = inr (λ z. none-ne-some (sym z ∙ e))

slept :
    (st : TaskState) (queue : Option ℕ) (k : Kernel) {tmp queue' : Option ℕ} {k' : Kernel}
    → sleep_begin st queue k ≡ some (tmp, queue', k')
    → (queue ≡ tmp)
      × (some k.current ≡ queue')
      × (at_task k.task k.current (set_state st) ≡ k'.task)
unfolding sleep_begin
slept st queue k e = elim (Bool-cases (k.current == 0)) [
  | inl idle ↦ absurd (none-ne-some (rw (idle, sleep_begin) at e))
  | inr other ↦
      let p = some-eq (rw (other, sleep_begin) at e) in
      (ap (λ r. r.0) p, ap (λ r. r.1) p, ap (λ r. r.2.task) p)
]

module _ (s : Waiting) (c : ℕ) (sound : IsSound s) where
  -- the state after `c` has gone to sleep
  abbrev asleep : Waiting
  asleep = record {
    task = at_task s.task c (set_state uninterruptible);
    queue = some c;
    saved = update s.saved c (some s.queue);
  }

  sleeps-IsSound : Exists s.task c → s.saved c ≡ none → IsSound asleep
  sleeps-IsSound exists awake = record {
    queue_exists =
        λ a e. rw (← some-eq e) (at_task-Exists s.task c (set_state uninterruptible) c exists);
    saved_exists =
        λ a b e. at_task-Exists s.task c (set_state uninterruptible) b (saved_before a b e);
    covered = λ w tmp e. elim (Bool-cases (c == w)) [
      | inl me ↦ inl (c, refl, here ((==_iff c w).0 me))
      | inr other ↦
          let e' : s.saved w ≡ some tmp = rw other at e in
          covered_before w (sound.covered w tmp e') (λ z. none-ne-some (sym z ∙ e'))
    ];
  }
    where
      saved_before : (a b : ℕ) → update s.saved c (some s.queue) a ≡ some (some b) → Exists s.task b
      saved_before a b e = elim (Bool-cases (c == a)) [
        | inl me ↦ sound.queue_exists b (some-eq (rw me at e))
        | inr other ↦ sound.saved_exists a b (rw other at e)
      ]

      not_me : {w r : ℕ} → (r ≡ w) ⊎ (s.saved r ≢ none) → c ≡ r → s.saved w ≢ none → ⊥
      not_me (inl at_end) q ne = ne (ap s.saved (sym (q ∙ at_end)) ∙ awake)
      not_me (inr inside) q ne = inside (ap s.saved (sym q) ∙ awake)

      covered_before : (w : ℕ) → Covered s w → s.saved w ≢ none → Covered asleep w
      covered_before w (inl (a, e, l)) ne = inl (
        c,
        refl,
        next (update_self s.saved c (some s.queue) ∙ ap some e)
            (Leads-sleep s.saved c w (some s.queue) awake l),
      )
      covered_before w (inr (r, runs, l)) ne = inr (
        r,
        at_task-Runs_ne s.task c (set_state uninterruptible) r
            (λ q. not_me (Leads-start s.saved w l) q ne) runs,
        Leads-sleep s.saved c w (some s.queue) awake l,
      )

wakes-IsSound :
    (s : Waiting)
    → IsSound s
    → IsSound (record { task = wake_task s.queue s.task; queue = none; saved = s.saved })
wakes-IsSound s sound = record {
  queue_exists = λ a e. absurd (none-ne-some e);
  saved_exists = λ a b e. wake_task-Exists s.queue s.task b (sound.saved_exists a b e);
  covered = λ w tmp e. inr (woken w (sound.covered w tmp e));
}
  where
    woken : (w : ℕ) → Covered s w → (r : ℕ) × Runs (wake_task s.queue s.task) r × Leads s.saved w r
    woken w (inl (a, e, l)) = (a, rw e (woken-Runs s.task a (sound.queue_exists a e)), l)
    woken w (inr (r, runs, l)) = (r, wake_task-Runs s.queue s.task r runs, l)

module _ (s : Waiting) (c : ℕ) (tmp : Option ℕ) (sound : IsSound s)
    (saved_tmp : s.saved c ≡ some tmp) where
  returns-IsSound :
      IsSound
        (record { task = wake_task tmp s.task; queue = s.queue; saved = update s.saved c none })
  returns-IsSound = record {
    queue_exists = λ a e. wake_task-Exists tmp s.task a (sound.queue_exists a e);
    saved_exists =
        λ a b e. wake_task-Exists tmp s.task b (sound.saved_exists a b (before a (some b) e));
    covered = λ w t e. still w (sound.covered w t (before w t e));
  }
    where
      before : (a : ℕ) (t : Option ℕ) → update s.saved c none a ≡ some t → s.saved a ≡ some t
      before a t e = elim (Bool-cases (c == a)) [
        | inl me ↦ absurd (none-ne-some (rw me at e))
        | inr other ↦ rw other at e
      ]

      by_woken :
          (w b : ℕ)
          → s.saved c ≡ some (some b)
          → Leads (update s.saved c none) w b
          → (r : ℕ) × Runs (wake_task tmp s.task) r × Leads (update s.saved c none) w r
      by_woken w b e l =
          let is : tmp ≡ some b = some-eq (sym saved_tmp ∙ e) in
          (b, rw is (woken-Runs s.task b (sound.saved_exists c b e)), l)

      still :
          (w : ℕ)
          → Covered s w
          → Covered
              (record {
                task = wake_task tmp s.task;
                queue = s.queue;
                saved = update s.saved c none;
              })
              w
      still w (inl (a, e, l)) = elim (Leads-return s.saved c w l) [
        | inl l' ↦ inl (a, e, l')
        | inr (b, e', l') ↦ inr (by_woken w b e' l')
      ]
      still w (inr (r, runs, l)) = elim (Leads-return s.saved c w l) [
        | inl l' ↦ inr (r, wake_task-Runs tmp s.task r runs, l')
        | inr (b, e', l') ↦ inr (by_woken w b e' l')
      ]

Step-IsSound : {s s' : Waiting} → Step s s' → IsSound s → IsSound s'
unfolding sleep_on wake_up sleep_on_end
Step-IsSound (sleeps {s} c jiffies {tmp} {queue} {k} exists awake e) sound =
    let (is_tmp, is_queue, is_task) =
      slept uninterruptible s.queue (record { task = s.task; current = c; jiffies = jiffies }) e in
    subst
      (λ (t : Option ℕ × Option ℕ × Tasks).
        IsSound (record { task = t.2; queue = t.1; saved = update s.saved c (some t.0) }))
      (λ i. (is_tmp i, is_queue i, is_task i)) (sleeps-IsSound s c sound exists awake)
Step-IsSound (wakes {s}) sound = wakes-IsSound s sound
Step-IsSound (returns {s} c {tmp} runs e) sound = returns-IsSound s c tmp sound e

initial-IsSound : (task : Tasks) → IsSound (initial task)
initial-IsSound task = record {
  queue_exists = λ a e. absurd (none-ne-some e);
  saved_exists = λ a b e. absurd (none-ne-some e);
  covered = λ w tmp e. absurd (none-ne-some e);
}

Reach-IsSound : {s t : Waiting} → IsSound s → Reach s t → IsSound t
Reach-IsSound sound start = sound
Reach-IsSound sound (step r st) = Step-IsSound st (Reach-IsSound sound r)

-- No wakeup is lost: after any sequence of steps from an empty queue, every task that is inside
-- `sleep_on` is found by following the saved pointers, from the task that `*p` names or from a task that
-- runs.
pub Reach-Covered :
    (task : Tasks) (s : Waiting) (w : ℕ) (tmp : Option ℕ)
    → Reach (initial task) s
    → s.saved w ≡ some tmp
    → Covered s w
Reach-Covered task s w tmp r e = (Reach-IsSound (initial-IsSound task) r).covered w tmp e
