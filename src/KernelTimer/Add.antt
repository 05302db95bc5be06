-- ===== src/KernelTimer/Add.antt =====
-- kernel/sched.c: what add_timer makes of the list of timers, and when the timers are due then.
use mathlib.Core.Path.{subst}
use os_lab2_gui.Prelude.{
  ℕ, zero, suc, ◌+◌, ◌≤◌, ◌<◌, ◌≡◌, ◌≢◌, refl, sym, ap, ◌∙◌, ◌⊎◌, inl, inr, Bool-cases,
  Option-cases, ==_iff, true, false, none, some, some-eq, List, [], ◌∷◌, ◌++◌, length, arith, ◌==◌,
}
use os_lab2_gui.Prelude.Int.{ℤ, pos, ◌+ℤ◌, ◌-ℤ◌, ltb_ℤ, int_laws}
use os_lab2_gui.Prelude.Table.{update, update_ne, update_self}
use os_lab2_gui.Prelude.Chain.{Linked, NotIn, Distinct}
use os_lab2_gui.KernelTimer.{
  Timer, Slots, Timers, queued, panicked, free_slot, add_timer, time_requests, queue_up,
}
use os_lab2_gui.KernelTimer.Sink.{Entry, entry, entries, insert, next_of, sink-Sunk}

-- when the timers are due, counted from `t`
abbrev pub dues : ℤ → List Entry → List Entry
dues t [] = []
dues t ((d, g) ∷ es) = (t +ℤ d, g) ∷ dues (t +ℤ d) es

-- the same timers, `late` ticks later
abbrev pub delay : ℤ → List Entry → List Entry
delay late [] = []
delay late ((d, g) ∷ es) = (d +ℤ late, g) ∷ delay late es

-- every timer is due before `t`
abbrev pub Before : ℤ → List Entry → Type 0
Before t [] = Unit
Before t ((d, g) ∷ es) = (ltb_ℤ d t ≡ true) × Before t es

-- the first timer is due at `t` or later
abbrev pub FromOn : ℤ → List Entry → Type 0
FromOn t [] = Unit
FromOn t ((d, g) ∷ es) = ltb_ℤ d t ≡ false

-- `new` has the timers due before `t` as `old` has them, then `f` at `t`, and then the others, late
abbrev pub PutAt : ℤ → ℕ → List Entry → List Entry → Type 0
PutAt t f old new =
    (before : List Entry) × (rest : List Entry) × (late : ℤ) × (old ≡ before ++ rest)
    × Before t before
    × FromOn t rest
    × (ltb_ℤ (pos 0) late ≡ true)
    × (new ≡ before ++ (t, f) ∷ delay late rest)

dues-delay : (t k : ℤ) (es : List Entry) → dues (t +ℤ k) es ≡ delay k (dues t es)
dues-delay t k [] = refl
dues-delay t k ((d, g) ∷ es) =
    ap (λ n. (n, g) ∷ dues n es) swap ∙ ap (λ l. (t +ℤ d +ℤ k, g) ∷ l) (dues-delay (t +ℤ d) k es)
  where
    swap : t +ℤ k +ℤ d ≡ t +ℤ d +ℤ k
    swap = omega int_laws

insert-dues :
    (t j : ℤ) (f : ℕ) (es : List Entry)
    → ltb_ℤ (pos 0) j ≡ true
    → PutAt (t +ℤ j) f (dues t es) (dues t (insert j f es))
insert-dues t j f [] positive = ([], [], j, refl, tt, tt, positive, refl)
insert-dues t j f ((d, g) ∷ es) positive = elim (Bool-cases (ltb_ℤ d j)) [
  | inl h ↦
      let (before, rest, late, split, below, from, pos_late, due) =
        insert-dues (t +ℤ d) (j -ℤ d) f es (left h) in
      (
        (t +ℤ d, g) ∷ before,
        rest,
        late,
        ap (λ l. (t +ℤ d, g) ∷ l) split,
        (earlier h, subst (λ n. Before n before) back below),
        subst (λ n. FromOn n rest) back from,
        pos_late,
        rw h (
            ap (λ l. (t +ℤ d, g) ∷ l) due
            ∙ ap (λ k. (t +ℤ d, g) ∷ (before ++ (k, f) ∷ delay late rest)) back),
      )
  | inr h ↦ (
    [],
    dues t ((d, g) ∷ es),
    j,
    refl,
    tt,
    not_earlier h,
    positive,
    rw h (ap (λ l. (t +ℤ j, f) ∷ l) (dues-delay t j ((d, g) ∷ es))),
  )
]
  where
    back : t +ℤ d +ℤ (j -ℤ d) ≡ t +ℤ j
    back = omega int_laws

    left : ltb_ℤ d j ≡ true → ltb_ℤ (pos 0) (j -ℤ d) ≡ true
    left h = grind (arith, int_laws)

    earlier : ltb_ℤ d j ≡ true → ltb_ℤ (t +ℤ d) (t +ℤ j) ≡ true
    earlier h = grind (arith, int_laws)

    not_earlier : ltb_ℤ d j ≡ false → ltb_ℤ (t +ℤ d) (t +ℤ j) ≡ false
    not_earlier h = grind (arith, int_laws)

-- every element of the list is in use
abbrev pub Used : Slots → List ℕ → Type 0
Used m [] = Unit
Used m (x ∷ xs) = ((m x).fn ≢ 0) × Used m xs

free_slot-some :
    (n p : ℕ) (m : Slots) (q : ℕ)
    → free_slot n p m ≡ some q
    → ((m q).fn ≡ 0) × (p ≤ q) × (q < p + n)
unfolding free_slot
free_slot-some zero p m q e = absurd (cc)
free_slot-some (suc n) p m q e = elim (Bool-cases ((m p).fn == 0)) [
  | inl h ↦
      let same : p ≡ q = some-eq (rw h at e) in
      (
        ap (λ a. (m a).fn) (sym same) ∙ (==_iff (m p).fn 0).0 h,
        omega (arith, same),
        omega (arith, same),
      )
  | inr h ↦
      let (z, ge, le) = free_slot-some n (p + 1) m q (rw h at e) in
      (z, omega (arith, ge), omega (arith, le))
]

free_slot-none :
    (n p : ℕ) (m : Slots) → free_slot n p m ≡ none → (q : ℕ) → p ≤ q → q < p + n → (m q).fn ≢ 0
unfolding free_slot
free_slot-none zero p m e q lo hi = absurd (omega arith)
free_slot-none (suc n) p m e q lo hi = elim (Bool-cases ((m p).fn == 0)) [
  | inl h ↦ absurd (cc)
  | inr h ↦ elim (Bool-cases (p == q)) [
    | inl same ↦ subst (λ k. (m k).fn ≢ 0) ((==_iff p q).0 same) (ground arith)
    | inr other ↦ free_slot-none n (p + 1) m (rw h at e) q (ground arith) (omega arith)
  ]
]

-- every element of timer_list is in use
abbrev pub NoneFree : Slots → Type 0
NoneFree m = (q : ℕ) → 1 ≤ q → q ≤ 64 → (m q).fn ≢ 0

Used-NotIn : (m : Slots) (q : ℕ) (xs : List ℕ) → (m q).fn ≡ 0 → Used m xs → NotIn q xs
Used-NotIn m q [] z u = tt
Used-NotIn m q (x ∷ xs) z (ne, u) =
    ((λ e. ne (ap (λ a. (m a).fn) (sym e) ∙ z)), Used-NotIn m q xs z u)

Linked-new :
    (m : Slots) (q : ℕ) (v : Timer) (p : ℕ) (xs : List ℕ)
    → NotIn q xs
    → Linked (next_of m) p xs
    → Linked (next_of (update m q v)) p xs
Linked-new m q v p [] out c = c
Linked-new m q v p (x ∷ xs) out (e, ne, c) = (
  e,
  ne,
  subst (λ n. Linked (next_of (update m q v)) n xs)
      (ap (λ t. t.next) (sym (update_ne m q v x out.0)))
      (Linked-new m q v (next_of m x) xs out.1 c),
)

entries-new :
    (m : Slots) (q : ℕ) (v : Timer) (xs : List ℕ)
    → NotIn q xs
    → entries (update m q v) xs ≡ entries m xs
entries-new m q v [] out = refl
entries-new m q v (x ∷ xs) out =
    ap (λ t. entry t ∷ entries (update m q v) xs) (update_ne m q v x out.0)
    ∙ ap (λ es. entry (m x) ∷ es) (entries-new m q v xs out.1)

-- For a list of timers in use at `xs`, a positive time and a function, add_timer panics only if no element
-- is free; otherwise, with more fuel than there are timers, it inserts the timer into the list.
pub add_timer-insert :
    (fuel : ℕ) (j : ℤ) (f : ℕ) (t : Timers) (xs : List ℕ)
    → f ≢ 0
    → ltb_ℤ (pos 0) j ≡ true
    → length xs < fuel
    → Linked (next_of t.slots) t.next_timer xs
    → Distinct xs
    → Used t.slots xs
    → ((add_timer fuel j f t ≡ panicked) × NoneFree t.slots)
      ⊎ ((p : ℕ) × (t' : Timers) × (add_timer fuel j f t ≡ queued t')
          × Linked (next_of t'.slots) t'.next_timer (p ∷ xs)
          × (entries t'.slots (p ∷ xs) ≡ insert j f (entries t.slots xs)))
unfolding add_timer
add_timer-insert fuel j f t xs f_ne positive lt c d u =
    elim (Option-cases (free_slot time_requests 1 t.slots)) [
      | inl e ↦ inl (
        rw (f_some, positive, e) refl,
        λ q lo hi. free_slot-none time_requests 1 t.slots e q lo (omega arith),
      )
      | inr (p, e) ↦
          let (z, ge, le) = free_slot-some time_requests 1 t.slots p e in
          let m : Slots = update t.slots p (record { jiffies = j; fn = f; next = t.next_timer }) in
          let out : NotIn p xs = Used-NotIn t.slots p xs z u in
          let links : Linked (next_of m) (next_of m p) xs =
            subst (λ k. Linked (next_of m) k xs)
              (ap (λ v. v.next)
                (sym (update_self t.slots p (record { jiffies = j; fn = f; next = t.next_timer }))))
              (Linked-new t.slots p (record { jiffies = j; fn = f; next = t.next_timer })
                t.next_timer xs out c) in
          let (m', run, (n, es, other)) = sink-Sunk fuel p m xs lt links (out, d) in
          inr (
            p,
            record { slots = m'; next_timer = p },
            rw (f_some, positive, e) (ap (λ o. queue_up o p) run),
            (refl, omega (arith, ge), subst (λ k. Linked k (k p) xs) (sym n) links),
            es
                ∙ ap (λ v. insert v.jiffies v.fn (entries m xs))
                    (update_self t.slots p (record { jiffies = j; fn = f; next = t.next_timer }))
                ∙ ap (insert j f) (
                    entries-new t.slots p (record { jiffies = j; fn = f; next = t.next_timer }) xs
                      out),
          )
    ]
  where
    f_some : (f == 0) ≡ false
    f_some = ground arith

-- As add_timer-insert, in times: the timers that are due before the ticks of the new one keep their times,
-- the new timer is due after its ticks, and all the others are late, by one number of ticks that is not 0.
pub add_timer-dues :
    (fuel : ℕ) (j : ℤ) (f : ℕ) (t : Timers) (xs : List ℕ)
    → f ≢ 0
    → ltb_ℤ (pos 0) j ≡ true
    → length xs < fuel
    → Linked (next_of t.slots) t.next_timer xs
    → Distinct xs
    → Used t.slots xs
    → ((add_timer fuel j f t ≡ panicked) × NoneFree t.slots)
      ⊎ ((p : ℕ) × (t' : Timers) × (add_timer fuel j f t ≡ queued t')
          × PutAt
              (pos 0 +ℤ j)
              f
              (dues (pos 0) (entries t.slots xs))
              (dues (pos 0) (entries t'.slots (p ∷ xs))))
add_timer-dues fuel j f t xs f_ne positive lt c d u =
    elim (add_timer-insert fuel j f t xs f_ne positive lt c d u) [
      | inl full ↦ inl full
      | inr (p, t', run, links, es) ↦ inr (
        p,
        t',
        run,
        subst (PutAt (pos 0 +ℤ j) f (dues (pos 0) (entries t.slots xs)))
            (ap (dues (pos 0)) (sym es)) (insert-dues (pos 0) j f (entries t.slots xs) positive),
      )
    ]
