-- ===== src/Prelude/Members.antt =====
-- The members of a list of numbers, and the list without one of them.
use mathlib.Core.Path.{subst}
use os_lab2_gui.Prelude.{
  ℕ, ◌≡◌, ◌≢◌, ◌⊎◌, refl, sym, ◌∙◌, inl, inr, List, [], ◌∷◌, arith, ◌==◌, if◌then◌else◌, Bool-cases,
  ==_iff, false,
}
use os_lab2_gui.Prelude.Chain.{NotIn, Distinct}

abbrev pub In : ℕ → List ℕ → Type 0
In x [] = ⊥
In x (y ∷ ys) = (x ≡ y) ⊎ In x ys

abbrev pub erase : ℕ → List ℕ → List ℕ
erase x [] = []
erase x (y ∷ ys) = if x == y then ys else y ∷ erase x ys

pub In-ne : (q x : ℕ) (xs : List ℕ) → NotIn q xs → In x xs → x ≢ q
In-ne q x [] out member e = absurd member
In-ne q x (y ∷ ys) out (inl same) e = absurd (out.0 (sym e ∙ same))
In-ne q x (y ∷ ys) out (inr later) e = In-ne q x ys out.1 later e

In-later : (b y : ℕ) (xs ys : List ℕ) → (In b xs → In b ys) → In b (y ∷ xs) → In b (y ∷ ys)
In-later b y xs ys f (inl same) = inl same
In-later b y xs ys f (inr member) = inr (f member)

pub In-erase : (x b : ℕ) (xs : List ℕ) → In b (erase x xs) → In b xs
In-erase x b [] member = member
In-erase x b (y ∷ ys) member = elim (Bool-cases (x == y)) [
  | inl e ↦ inr (rw e at member)
  | inr e ↦ In-later b y (erase x ys) ys (In-erase x b ys) (rw e at member)
]

pub NotIn-erase : (x b : ℕ) (xs : List ℕ) → NotIn b xs → NotIn b (erase x xs)
NotIn-erase x b [] out = out
NotIn-erase x b (y ∷ ys) out = elim (Bool-cases (x == y)) [
  | inl e ↦ rw e out.1
  | inr e ↦ rw e (out.0, NotIn-erase x b ys out.1)
]

pub Distinct-erase : (x : ℕ) (xs : List ℕ) → Distinct xs → Distinct (erase x xs)
Distinct-erase x [] d = d
Distinct-erase x (y ∷ ys) d = elim (Bool-cases (x == y)) [
  | inl e ↦ rw e d.1
  | inr e ↦ rw e (NotIn-erase x y ys d.0, Distinct-erase x ys d.1)
]

pub erase-NotIn : (x : ℕ) (xs : List ℕ) → Distinct xs → NotIn x (erase x xs)
erase-NotIn x [] d = tt
erase-NotIn x (y ∷ ys) d = elim (Bool-cases (x == y)) [
  | inl e ↦ rw e (subst (λ z. NotIn z ys) (sym ((==_iff x y).0 e)) d.0)
  | inr e ↦ rw e ((ground arith), erase-NotIn x ys d.1)
]

pub erase_same : (x : ℕ) (xs : List ℕ) → NotIn x xs → erase x xs ≡ xs
erase_same x [] out = refl
erase_same x (y ∷ ys) out =
    let other : (x == y) ≡ false = ground (arith, out.0) in rw (other, erase_same x ys out.1) refl

pub NotIn-of_not : (x : ℕ) (xs : List ℕ) → ¬ (In x xs) → NotIn x xs
NotIn-of_not x [] out = tt
NotIn-of_not x (y ∷ ys) out = ((λ e. out (inl e)), NotIn-of_not x ys (λ member. out (inr member)))
