-- ===== src/Prelude/Chain.antt =====
-- Linked lists in memory: what the `next` pointers lead through. A pointer is a number and NULL is 0.
use os_lab2_gui.Prelude.{ℕ, ◌≡◌, ◌≢◌, refl, sym, List, [], ◌∷◌, ◌++◌, arith}
use mathlib.Core.Path.{subst}
use os_lab2_gui.Prelude.Table.{update, update_ne}

abbrev pub null : ℕ
null = 0

-- from `p` the pointers `next` lead through `xs` to NULL
abbrev pub Linked : (ℕ → ℕ) → ℕ → List ℕ → Type 0
Linked next p [] = p ≡ null
Linked next p (x ∷ xs) = (p ≡ x) × (x ≢ null) × Linked next (next x) xs

abbrev pub NotIn : ℕ → List ℕ → Type 0
NotIn a [] = Unit
NotIn a (x ∷ xs) = (a ≢ x) × NotIn a xs

abbrev pub Distinct : List ℕ → Type 0
Distinct [] = Unit
Distinct (x ∷ xs) = NotIn x xs × Distinct xs

abbrev pub last : ℕ → List ℕ → ℕ
last h [] = h
last h (x ∷ xs) = last x xs

pub last-ne : (a h : ℕ) (xs : List ℕ) → a ≢ h → NotIn a xs → a ≢ last h xs
last-ne a h [] ne out = ne
last-ne a h (x ∷ xs) ne out = last-ne a x xs out.0 out.1

pub last-append : (h : ℕ) (xs : List ℕ) (y : ℕ) → last h (xs ++ y ∷ []) ≡ y
last-append h [] y = refl
last-append h (x ∷ xs) y = last-append x xs y

pub NotIn-append : (a : ℕ) (xs ys : List ℕ) → NotIn a xs → NotIn a ys → NotIn a (xs ++ ys)
NotIn-append a [] ys h k = k
NotIn-append a (x ∷ xs) ys h k = (h.0, NotIn-append a xs ys h.1 k)

-- a new last element keeps a list without repetition
pub Distinct-append : (xs : List ℕ) (y : ℕ) → Distinct xs → NotIn y xs → Distinct (xs ++ y ∷ [])
Distinct-append [] y d out = (tt, tt)
Distinct-append (x ∷ xs) y d out =
    (NotIn-append x xs (y ∷ []) d.0 ((λ e. out.0 (e' e)), tt), Distinct-append xs y d.1 out.1)
  where
    e' : x ≡ y → y ≡ x
    e' p = omega arith

pub NotIn-front : (a : ℕ) (xs ys : List ℕ) → NotIn a (xs ++ ys) → NotIn a xs
NotIn-front a [] ys h = tt
NotIn-front a (x ∷ xs) ys h = (h.0, NotIn-front a xs ys h.1)

pub NotIn-back : (a : ℕ) (xs ys : List ℕ) → NotIn a (xs ++ ys) → NotIn a ys
NotIn-back a [] ys h = h
NotIn-back a (x ∷ xs) ys h = NotIn-back a xs ys h.1

pub NotIn-drop : (a u : ℕ) (xs ys : List ℕ) → NotIn a (xs ++ u ∷ ys) → NotIn a (xs ++ ys)
NotIn-drop a u [] ys h = h.1
NotIn-drop a u (x ∷ xs) ys h = (h.0, NotIn-drop a u xs ys h.1)

pub Distinct-drop : (u : ℕ) (xs ys : List ℕ) → Distinct (xs ++ u ∷ ys) → Distinct (xs ++ ys)
Distinct-drop u [] ys d = d.1
Distinct-drop u (x ∷ xs) ys d = (NotIn-drop x u xs ys d.0, Distinct-drop u xs ys d.1)

pub last-append-cons :
    (h u b : ℕ) (xs ys : List ℕ) → last h (xs ++ u ∷ b ∷ ys) ≡ last h (xs ++ b ∷ ys)
last-append-cons h u b [] ys = refl
last-append-cons h u b (x ∷ xs) ys = last-append-cons x u b xs ys

-- nothing before `u` is `u`
pub NotIn-of_Distinct : (u : ℕ) (xs ys : List ℕ) → Distinct (xs ++ u ∷ ys) → NotIn u xs × NotIn u ys
NotIn-of_Distinct u [] ys d = (tt, d.0)
NotIn-of_Distinct u (x ∷ xs) ys d =
    let (before, after) = NotIn-of_Distinct u xs ys d.1 in
    (((λ e. (NotIn-back x xs (u ∷ ys) d.0).0 (sym e)), before), after)

pub last-append-last : (h b : ℕ) (xs ys : List ℕ) → last h (xs ++ b ∷ ys) ≡ last b ys
last-append-last h b [] ys = refl
last-append-last h b (x ∷ xs) ys = last-append-last x b xs ys

module _ (next : ℕ → ℕ) where
  -- a write to a node outside leaves the list
  pub Linked-update :
      (a n p : ℕ) (xs : List ℕ) → NotIn a xs → Linked next p xs → Linked (update next a n) p xs
  Linked-update a n p [] out e = e
  Linked-update a n p (x ∷ xs) out (e, ne, c) = (
    e,
    ne,
    subst (λ k. Linked (update next a n) k xs) same (Linked-update a n (next x) xs out.1 c),
  )
    where
      same : next x ≡ update next a n x
      same = ground (arith, out.0)

  -- the writes `last->next = new; new->next = NULL`
  pub Linked-append :
      (new h : ℕ) (xs : List ℕ)
      → new ≢ null
      → new ≢ h
      → NotIn new xs
      → Distinct (h ∷ xs)
      → Linked next (next h) xs
      → let next' = update (update next (last h xs) new) new null in
        Linked next' (next' h) (xs ++ new ∷ [])
  Linked-append new h [] ne neh out d e = (ground arith, ne, ground arith)
  Linked-append new h (x ∷ xs) ne neh out d (e, ne', c) =
      (ground (arith, last-ne h x xs d.0.0 d.0.1), ne', Linked-append new x xs ne out.0 out.1 d.1 c)

  -- the write `before->next = u->next`
  pub Linked-unlink :
      (u p y : ℕ) (front back : List ℕ)
      → Distinct (y ∷ front ++ u ∷ back)
      → Linked next p (y ∷ front ++ u ∷ back)
      → Linked (update next (last y front) (next u)) p (y ∷ front ++ back)
  Linked-unlink u p y [] back d (e, ne, (e', ne', c)) = (
    e,
    ne,
    subst (λ k. Linked (update next y (next u)) k back) same
        (Linked-update y (next u) (next u) back d.0.1 c),
  )
    where
      same : next u ≡ update next y (next u) y
      same = ground arith
  Linked-unlink u p y (z ∷ front) back d (e, ne, c) = (
    e,
    ne,
    subst (λ k. Linked (update next (last z front) (next u)) k (z ∷ front ++ back)) same
        (Linked-unlink u (next y) z front back d.1 c),
  )
    where
      apart : y ≢ last z front
      apart = last-ne y z front d.0.0 (NotIn-front y front (u ∷ back) d.0.1)

      same : next y ≡ update next (last z front) (next u) y
      same = sym (update_ne next (last z front) (next u) y (λ e. apart (sym e)))
