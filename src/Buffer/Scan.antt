-- ===== src/Buffer/Scan.antt =====
-- fs/buffer.c: the loop of getblk over the free list.
use mathlib.Core.Path.{subst}
use os_lab2_gui.Prelude.{
  ℕ, zero, suc, ◌≤◌, ◌<◌, ◌≡◌, ◌≢◌, ◌⊎◌, refl, sym, ap, ◌∙◌, inl, inr, Bool, true, false, ◌&&◌,
  ◌||◌, Option, some, List, [], ◌∷◌, length, arith, ◌==◌, ltb, if◌then◌else◌, Bool-cases, ==_iff,
}
use os_lab2_gui.Prelude.Chain.{null}
use os_lab2_gui.Prelude.Members.{In}
use os_lab2_gui.Buffer.{Cache, badness, improves, scan_free}

-- from `x` the pointers `b_next_free` lead through the list and back to `first`
abbrev pub Ring : Cache → ℕ → List ℕ → Type 0
Ring c first [] = Unit
Ring c first (x ∷ []) = (x ≢ null) × ((c.head x).b_next_free ≡ first)
Ring c first (x ∷ y ∷ ys) =
    (x ≢ null) × ((c.head x).b_next_free ≡ y) × (y ≢ first) × Ring c first (y ∷ ys)

-- `r` is not worse than `a`, if `a` can be held_clean
abbrev pub NotWorse : Cache → ℕ → ℕ → Type 0
NotWorse c r a = (r ≢ null) × (badness (c.head r) ≤ badness (c.head a))

-- the best of `bh` and the buffers of the list that nobody uses
abbrev pub Best : Cache → ℕ → List ℕ → ℕ → Type 0
Best c bh xs r =
    ((r ≡ bh) ⊎ (In r xs × ((c.head r).b_count ≡ 0)))
    × ((a : ℕ) → In a xs → (c.head a).b_count ≡ 0 → NotWorse c r a)
    × (bh ≢ null → NotWorse c r bh)

-- the best buffer after a turn of the loop
abbrev best_of : Cache → ℕ → ℕ → ℕ
best_of c x bh = if improves x bh c then x else bh

module _ (c : Cache) (x bh : ℕ) (nonnull : x ≢ null) where
  abbrev best : ℕ
  best = best_of c x bh

  -- the two tests of `improves` on numbers
  test-true :
      (n b k m : ℕ) → (n == 0) && (b == null || ltb k m) ≡ true → (n ≡ 0) × (b ≢ null → k ≤ m)
  test-true n b k m e = ground arith

  test-false :
      (n b k m : ℕ) → (n == 0) && (b == null || ltb k m) ≡ false → n ≡ 0 → (b ≢ null) × (m ≤ k)
  test-false n b k m e free = ground arith

  step :
      ((best ≡ bh) ⊎ ((best ≡ x) × ((c.head x).b_count ≡ 0)))
      × ((c.head x).b_count ≡ 0 → NotWorse c best x)
      × (bh ≢ null → NotWorse c best bh)
  step = elim (Bool-cases (improves x bh c)) [
    | inl e ↦
        let (free, less) =
          test-true (c.head x).b_count bh (badness (c.head x)) (badness (c.head bh)) e in
        rw e (inr (refl, free), λ z. (nonnull, omega arith), λ ne. (nonnull, less ne))
    | inr e ↦ rw e (
      inl refl,
      test-false (c.head x).b_count bh (badness (c.head x)) (badness (c.head bh)) e,
      λ ne. (ne, omega arith),
    )
  ]

  from_best :
      (xs : List ℕ) (r : ℕ)
      → r ≡ best
      → (best ≡ bh) ⊎ ((best ≡ x) × ((c.head x).b_count ≡ 0))
      → (r ≡ bh) ⊎ (In r (x ∷ xs) × ((c.head r).b_count ≡ 0))
  from_best xs r e (inl same) = inl (e ∙ same)
  from_best xs r e (inr (here, free)) =
      inr (inl (e ∙ here), subst (λ a. (c.head a).b_count ≡ 0) (sym (e ∙ here)) free)

  trans : (r q a : ℕ) → (q ≢ null → NotWorse c r q) → NotWorse c q a → NotWorse c r a
  trans r q a keeps (ne, le) = ((keeps ne).0, omega (arith, le, (keeps ne).1))

  -- the loop goes on with the best so far
  step-later : (xs : List ℕ) (r : ℕ) → Best c best xs r → Best c bh (x ∷ xs) r
  step-later xs r (from, free, keeps) = (
    from_step from,
    λ a inside unused. no_worse a inside unused,
    λ ne. trans r best bh keeps (step.2 ne),
  )
    where
      from_step :
          (r ≡ best) ⊎ (In r xs × ((c.head r).b_count ≡ 0))
          → (r ≡ bh) ⊎ (In r (x ∷ xs) × ((c.head r).b_count ≡ 0))
      from_step (inl e) = from_best xs r e step.0
      from_step (inr (inside, unused)) = inr (inr inside, unused)

      no_worse : (a : ℕ) → In a (x ∷ xs) → (c.head a).b_count ≡ 0 → NotWorse c r a
      no_worse a (inr inside) unused = free a inside unused
      no_worse a (inl e) unused =
          subst (NotWorse c r) (sym e)
            (trans r best x keeps (step.1 (subst (λ b. (c.head b).b_count ≡ 0) e unused)))

  -- the loop stops at `x`
  step-Best : Best c bh (x ∷ []) best
  step-Best =
      step-later [] best (inl refl, λ a inside unused. absurd inside, λ ne. (ne, omega arith))

  -- nothing is better than a buffer that is not dirty and not locked
  clean-Best :
      (xs : List ℕ) → improves x bh c ≡ true → badness (c.head x) ≡ 0 → Best c bh (x ∷ xs) x
  clean-Best xs e clean =
      let (free, less) =
        test-true (c.head x).b_count bh (badness (c.head x)) (badness (c.head bh)) e in
      (
        inr (inl refl, free),
        λ a inside unused. (nonnull, omega (arith, clean)),
        λ ne. (nonnull, less ne),
      )

and_left : (a b : Bool) → a && b ≡ true → a ≡ true
and_left true b e = refl
and_left false b e = e

and_right : (a b : Bool) → a && b ≡ true → b ≡ true
and_right true b e = e
and_right false b e = cc

abbrev stops : ℕ → ℕ → Cache → Bool
stops x bh c = improves x bh c && badness (c.head x) == 0

-- the three ways that a turn of the loop ends
module _ (fuel x bh : ℕ) (c : Cache) where
  turn-stops : stops x bh c ≡ true → scan_free (suc fuel) x bh c ≡ some x
  unfolding scan_free
  turn-stops e = rw e refl

  turn-last :
      stops x bh c ≡ false
      → ((c.head x).b_next_free == c.free_list) ≡ true
      → scan_free (suc fuel) x bh c ≡ some (best_of c x bh)
  unfolding scan_free
  turn-last e last = rw (e, last) refl

  turn-next :
      stops x bh c ≡ false
      → ((c.head x).b_next_free == c.free_list) ≡ false
      → scan_free (suc fuel) x bh c ≡ scan_free fuel (c.head x).b_next_free (best_of c x bh) c
  unfolding scan_free
  turn-next e more = rw (e, more) refl

-- the loop ends, with the best buffer
abbrev Finds : Cache → ℕ → List ℕ → Option ℕ → Type 0
Finds c bh xs o = (r : ℕ) × (o ≡ some r) × Best c bh xs r

scan_free-Finds :
    (fuel x bh : ℕ) (c : Cache) (xs : List ℕ)
    → length xs < fuel
    → Ring c c.free_list (x ∷ xs)
    → Finds c bh (x ∷ xs) (scan_free fuel x bh c)
scan_free-Finds zero x bh c xs h ring = absurd (omega arith)
scan_free-Finds (suc fuel) x bh c [] h (ne, back) = elim (Bool-cases (stops x bh c)) [
  | inl e ↦ (
    x,
    turn-stops fuel x bh c e,
    clean-Best c x bh ne [] (and_left _ _ e) ((==_iff _ 0).0 (and_right _ _ e)),
  )
  | inr e ↦ (best_of c x bh, turn-last fuel x bh c e ((==_iff _ _).1 back), step-Best c x bh ne)
]
scan_free-Finds (suc fuel) x bh c (y ∷ ys) h (ne, next, apart, ring) =
    elim (Bool-cases (stops x bh c)) [
      | inl e ↦ (
        x,
        turn-stops fuel x bh c e,
        clean-Best c x bh ne (y ∷ ys) (and_left _ _ e) ((==_iff _ 0).0 (and_right _ _ e)),
      )
      | inr e ↦
          let (r, found, best_one) =
            scan_free-Finds fuel y (best_of c x bh) c ys (omega arith) ring in
          (
            r,
            turn-next fuel x bh c e (ground (arith, apart, next))
                ∙ ap (λ a. scan_free fuel a (best_of c x bh) c) next
                ∙ found,
            step-later c x bh ne (y ∷ ys) r best_one,
          )
    ]

-- what the loop of getblk finds on the free list
abbrev pub Chosen : Cache → List ℕ → ℕ → Type 0
Chosen c xs r =
    ((r ≡ null) × ((a : ℕ) → In a xs → (c.head a).b_count ≢ 0))
    ⊎ (In r xs
        × ((c.head r).b_count ≡ 0)
        × ((a : ℕ) → In a xs → (c.head a).b_count ≡ 0 → badness (c.head r) ≤ badness (c.head a)))

Chosen-of_Best : (c : Cache) (xs : List ℕ) (r : ℕ) → Best c null xs r → Chosen c xs r
Chosen-of_Best c xs r (inl e, free, keeps) = inl (e, λ a inside unused. (free a inside unused).0 e)
Chosen-of_Best c xs r (inr (inside, unused), free, keeps) =
    inr (inside, unused, λ a member zero_count. (free a member zero_count).1)

-- For a free list that leads through the given buffers and back, and for more fuel than it has buffers, the
-- loop of getblk ends; it finds no buffer only if all are in use, and otherwise one that nobody uses and that
-- no other such buffer beats in BADNESS.
pub scan_free-Chosen :
    (fuel : ℕ) (c : Cache) (xs : List ℕ)
    → length xs < fuel
    → Ring c c.free_list (c.free_list ∷ xs)
    → (r : ℕ) × (scan_free fuel c.free_list null c ≡ some r) × Chosen c (c.free_list ∷ xs) r
scan_free-Chosen fuel c xs h ring =
    let (r, found, best_one) = scan_free-Finds fuel c.free_list null c xs h ring in
    (r, found, Chosen-of_Best c (c.free_list ∷ xs) r best_one)
