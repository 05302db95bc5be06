-- ===== src/KernelTimer/Sink.antt =====
-- kernel/sched.c: the loop of add_timer that moves a new timer behind the earlier ones.
use mathlib.Core.Path.{fun_ext, subst}
use os_lab2_gui.Prelude.{
  ℕ, zero, suc, ◌<◌, ◌≡◌, ◌≢◌, refl, sym, ap, ◌∙◌, inl, inr, Bool-cases, false, some, List, [], ◌∷◌,
  length, arith, if◌then◌else◌,
}
use os_lab2_gui.Prelude.Int.{ℤ, ◌-ℤ◌, ltb_ℤ}
use os_lab2_gui.Prelude.Chain.{null, Linked, NotIn, Distinct}
use os_lab2_gui.KernelTimer.{Timer, Slots, swap_next, goes_on, sink}

-- a timer as the list sees it: the ticks after the one before it, and its function
abbrev pub Entry : Type 0
Entry = ℤ × ℕ

abbrev pub entry : Timer → Entry
entry t = (t.jiffies, t.fn)

abbrev pub entries : Slots → List ℕ → List Entry
entries m [] = []
entries m (x ∷ xs) = entry (m x) ∷ entries m xs

-- where the loop puts a timer
abbrev pub insert : ℤ → ℕ → List Entry → List Entry
insert j f [] = (j, f) ∷ []
insert j f ((d, g) ∷ es) = if ltb_ℤ d j then (d, g) ∷ insert (j -ℤ d) f es else (j, f) ∷ (d, g) ∷ es

abbrev pub next_of : Slots → ℕ → ℕ
next_of m a = (m a).next

swap_next-p : (p : ℕ) (m : Slots) → (m p).next ≢ p → entry (swap_next p m p) ≡ entry (m (m p).next)
unfolding swap_next
swap_next-p p m ne = ground arith

swap_next-q :
    (p : ℕ) (m : Slots)
    → (m p).next ≢ p
    → entry (swap_next p m (m p).next) ≡ ((m p).jiffies -ℤ (m (m p).next).jiffies, (m p).fn)
unfolding swap_next
swap_next-q p m ne = ground arith

swap_next-other : (p : ℕ) (m : Slots) (a : ℕ) → a ≢ p → a ≢ (m p).next → swap_next p m a ≡ m a
unfolding swap_next
swap_next-other p m a ne ne' = ground arith

swap_next-next : (p : ℕ) (m : Slots) → next_of (swap_next p m) ≡ next_of m
unfolding swap_next
swap_next-next p m = fun_ext λ a. ground arith

entries-swap :
    (p : ℕ) (m : Slots) (xs : List ℕ)
    → NotIn p xs
    → NotIn (m p).next xs
    → entries (swap_next p m) xs ≡ entries m xs
entries-swap p m [] out out' = refl
entries-swap p m (x ∷ xs) out out' =
    ap (λ t. entry t ∷ entries (swap_next p m) xs)
      (swap_next-other p m x (λ e. out.0 (sym e)) (λ e. out'.0 (sym e)))
    ∙ ap (λ es. entry (m x) ∷ es) (entries-swap p m xs out.1 out'.1)

goes_on-last : (p : ℕ) (m : Slots) → (m p).next ≡ null → goes_on p m ≡ false
unfolding goes_on
goes_on-last p m e = rw e refl

goes_on-next :
    (p x : ℕ) (m : Slots)
    → (m p).next ≡ x
    → x ≢ null
    → goes_on p m ≡ ltb_ℤ (m x).jiffies (m p).jiffies
unfolding goes_on
goes_on-next p x m e ne = ground (arith, e)

-- what the loop makes of the elements at `p ∷ xs`
abbrev pub Sunk : ℕ → List ℕ → Slots → Slots → Type 0
Sunk p xs m m' =
    (next_of m' ≡ next_of m)
    × (entries m' (p ∷ xs) ≡ insert (m p).jiffies (m p).fn (entries m xs))
    × ((a : ℕ) → NotIn a (p ∷ xs) → m' a ≡ m a)

-- The loop started at an element `p` before those at `xs`, with more fuel than there are, ends; it keeps the
-- links and inserts the timer of `p` into the entries of the others.
pub sink-Sunk :
    (fuel p : ℕ) (m : Slots) (xs : List ℕ)
    → length xs < fuel
    → Linked (next_of m) (next_of m p) xs
    → Distinct (p ∷ xs)
    → (m' : Slots) × (sink fuel p m ≡ some m') × Sunk p xs m m'
unfolding sink
sink-Sunk zero p m xs lt c d = absurd (omega arith)
sink-Sunk (suc fuel) p m [] lt c d = (m, rw (goes_on-last p m c) refl, (refl, refl, λ a out. refl))
sink-Sunk (suc fuel) p m (x ∷ xs) lt (e, ne, c) ((p_ne, p_out), (x_out, d)) =
    elim (Bool-cases (ltb_ℤ (m x).jiffies (m p).jiffies)) [
      | inl h ↦
          let m1 : Slots = swap_next p m in
          let links : Linked (next_of m1) (next_of m1 x) xs =
            subst (λ n. Linked n (n x) xs) (sym (swap_next-next p m)) c in
          let (m', run, (n, es, other)) = sink-Sunk fuel x m1 xs (omega arith) links (x_out, d) in
          (
            m',
            rw (goes_on-next p x m e ne ∙ h) (ap (λ q. sink fuel q m1) e ∙ run),
            (
              n ∙ swap_next-next p m,
              rw h (ap (λ t. entry t ∷ entries m' (x ∷ xs)) (other p (p_ne, p_out)) ∙ moved m' es),
              λ a out. other a out.1 ∙ swap_next-other p m a out.0 (λ q. out.1.0 (q ∙ e)),
            ),
          )
      | inr h ↦ (m, rw (goes_on-next p x m e ne ∙ h) refl, (refl, rw h refl, λ a out. refl))
    ]
  where
    apart : (m p).next ≢ p
    apart q = p_ne (sym q ∙ e)

    at_x : entry (swap_next p m x) ≡ ((m p).jiffies -ℤ (m x).jiffies, (m p).fn)
    at_x =
        ap (λ q. entry (swap_next p m q)) (sym e)
        ∙ swap_next-q p m apart
        ∙ ap (λ q. ((m p).jiffies -ℤ (m q).jiffies, (m p).fn)) e

    moved :
        (m' : Slots)
        → entries m' (x ∷ xs)
          ≡ insert (swap_next p m x).jiffies (swap_next p m x).fn (entries (swap_next p m) xs)
        → entry (swap_next p m p) ∷ entries m' (x ∷ xs)
          ≡ entry (m x) ∷ insert ((m p).jiffies -ℤ (m x).jiffies) (m p).fn (entries m xs)
    moved m' es =
        ap (λ en. en ∷ entries m' (x ∷ xs)) (swap_next-p p m apart ∙ ap (λ q. entry (m q)) e)
        ∙ ap (λ l. entry (m x) ∷ l)
            (es
              ∙ ap (λ en. insert en.0 en.1 (entries (swap_next p m) xs)) at_x
              ∙ ap (insert ((m p).jiffies -ℤ (m x).jiffies) (m p).fn)
                  (entries-swap p m xs p_out (subst (λ q. NotIn q xs) (sym e) x_out)))
