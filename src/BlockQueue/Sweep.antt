-- ===== src/BlockQueue/Sweep.antt =====
-- kernel/blk_drv/ll_rw_blk.c: the order in which add_request keeps a queue.
use os_lab2_gui.Prelude.{
  ◌≡◌, ◌⊎◌, refl, inl, inr, Bool, true, false, not, ◌&&◌, ◌||◌, List, [], ◌∷◌, if◌then◌else◌,
  Bool-cases,
}
use os_lab2_gui.BlockQueue.{Request, in_order, fits}

-- the queue with the new request, behind the first place that fits
abbrev pub elevate : Request → List Request → List Request
elevate x [] = x ∷ []
elevate x (t ∷ []) = t ∷ x ∷ []
elevate x (t ∷ n ∷ r) = if fits t x n then t ∷ x ∷ n ∷ r else t ∷ elevate x (n ∷ r)

-- one sweep: each request is in order with the next
abbrev pub Rising : List Request → Type 0
Rising [] = Unit
Rising (t ∷ []) = Unit
Rising (t ∷ n ∷ r) = (in_order t n ≡ true) × Rising (n ∷ r)

-- at most two sweeps
abbrev pub TwoSweeps : List Request → Type 0
TwoSweeps [] = Unit
TwoSweeps (t ∷ []) = Unit
TwoSweeps (t ∷ n ∷ r) = ((in_order t n ≡ true) × TwoSweeps (n ∷ r)) ⊎ Rising (n ∷ r)

-- no request of the list is for the same block, by the same command
abbrev pub Differs : Request → List Request → Type 0
Differs x [] = Unit
Differs x (t ∷ r) = ((in_order x t ≡ true) ⊎ (in_order t x ≡ true)) × Differs x r

Rising-TwoSweeps : (xs : List Request) → Rising xs → TwoSweeps xs
Rising-TwoSweeps [] h = tt
Rising-TwoSweeps (t ∷ []) h = tt
Rising-TwoSweeps (t ∷ n ∷ r) h = inr h.1

-- `elevate` leaves the first request, so what is in order before a queue stays so
abbrev HeadAfter : Request → List Request → Type 0
HeadAfter t [] = Unit
HeadAfter t (n ∷ r) = in_order t n ≡ true

elevate-head :
    (t x n : Request) (r : List Request) → in_order t n ≡ true → HeadAfter t (elevate x (n ∷ r))
elevate-head t x n [] h = h
elevate-head t x n (m ∷ r) h = elim (Bool-cases (fits n x m)) [
  | inl e ↦ rw (e, HeadAfter) h
  | inr e ↦ rw (e, HeadAfter) h
]

Rising-cons : (t : Request) (xs : List Request) → HeadAfter t xs → Rising xs → Rising (t ∷ xs)
Rising-cons t [] h k = tt
Rising-cons t (n ∷ r) h k = (h, k)

TwoSweeps-cons :
    (t : Request) (xs : List Request) → HeadAfter t xs → TwoSweeps xs → TwoSweeps (t ∷ xs)
TwoSweeps-cons t [] h k = tt
TwoSweeps-cons t (n ∷ r) h k = inl (h, k)

TwoSweeps-boundary : (t : Request) (xs : List Request) → Rising xs → TwoSweeps (t ∷ xs)
TwoSweeps-boundary t [] k = tt
TwoSweeps-boundary t (n ∷ r) k = inr k

-- the test of the loop
fits-true : (a b c : Bool) → (a || not b) && c ≡ true → (c ≡ true) × ((a ≡ true) ⊎ (b ≡ false))
fits-true true b c e = (e, inl refl)
fits-true false true c e = cc
fits-true false false c e = (e, inr refl)

fits-false : (a b c : Bool) → (a || not b) && c ≡ false → (c ≡ false) ⊎ ((a ≡ false) × (b ≡ true))
fits-false true b c e = inl e
fits-false false true c e = inr (refl, refl)
fits-false false false c e = inl e

later :
    (x m : Request)
    → (in_order x m ≡ true) ⊎ (in_order m x ≡ true)
    → in_order x m ≡ false
    → in_order m x ≡ true
later x m (inl h) e = cc
later x m (inr h) e = h

-- a later request goes into the sweep
elevate-Rising :
    (x n : Request) (r : List Request)
    → Differs x (n ∷ r)
    → Rising (n ∷ r)
    → in_order n x ≡ true
    → Rising (elevate x (n ∷ r))
elevate-Rising x n [] d h after = (after, tt)
elevate-Rising x n (m ∷ r) d h after = elim (Bool-cases (fits n x m)) [
  | inl e ↦ rw e (after, ((fits-true (in_order n x) (in_order n m) (in_order x m) e).0, h.1))
  | inr e ↦ rw e (
      Rising-cons n (elevate x (m ∷ r)) (elevate-head n x m r h.0) (
        elevate-Rising x m r d.1 h.1
          (elim (fits-false (in_order n x) (in_order n m) (in_order x m) e) [
            | inl not_before ↦ later x m d.1.0 not_before
            | inr (not_after, between) ↦ cc
          ])))
]

-- the new request stands between `t` and `n`
between :
    (x t n : Request) (r : List Request)
    → (in_order x n ≡ true) × ((in_order t x ≡ true) ⊎ (in_order t n ≡ false))
    → TwoSweeps (t ∷ n ∷ r)
    → TwoSweeps (t ∷ x ∷ n ∷ r)
between x t n r (before, inl after) (inl (order, two)) = inl (after, inl (before, two))
between x t n r (before, inl after) (inr rising) = inl (after, inr rising)
between x t n r (before, inr turn) (inl (order, two)) = cc
between x t n r (before, inr turn) (inr rising) = inr (before, rising)

-- A new request for another block, or with another command, leaves a queue of at most two sweeps so.
pub elevate-TwoSweeps :
    (x : Request) (xs : List Request) → Differs x xs → TwoSweeps xs → TwoSweeps (elevate x xs)
elevate-TwoSweeps x [] d h = tt
elevate-TwoSweeps x (t ∷ []) d h = inr tt
elevate-TwoSweeps x (t ∷ n ∷ r) d (inl (order, two)) = elim (Bool-cases (fits t x n)) [
  | inl e ↦ rw e (
      between x t n r (fits-true (in_order t x) (in_order t n) (in_order x n) e) (inl (order, two)))
  | inr e ↦ rw e (
      TwoSweeps-cons t (elevate x (n ∷ r)) (elevate-head t x n r order)
        (elevate-TwoSweeps x (n ∷ r) d.1 two))
]
elevate-TwoSweeps x (t ∷ n ∷ r) d (inr rising) = elim (Bool-cases (fits t x n)) [
  | inl e ↦
      rw e (between x t n r (fits-true (in_order t x) (in_order t n) (in_order x n) e) (inr rising))
  | inr e ↦ rw e (elim (fits-false (in_order t x) (in_order t n) (in_order x n) e) [
    | inl not_before ↦
        TwoSweeps-boundary t (elevate x (n ∷ r))
          (elevate-Rising x n r d.1 rising (later x n d.1.0 not_before))
    | inr (not_after, order) ↦
        TwoSweeps-cons t (elevate x (n ∷ r)) (elevate-head t x n r order)
          (elevate-TwoSweeps x (n ∷ r) d.1 (Rising-TwoSweeps (n ∷ r) rising))
  ])
]
