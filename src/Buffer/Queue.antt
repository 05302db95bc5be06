-- ===== src/Buffer/Queue.antt =====
-- fs/buffer.c: a hash queue as a list of buffers, linked both ways, and what the writes to it do.
use mathlib.Core.Path.{subst}
use os_lab2_gui.Prelude.{
  ℕ, ◌≡◌, ◌≢◌, refl, sym, ap, ◌∙◌, inl, inr, true, false, List, [], ◌∷◌, arith, ◌==◌, if◌then◌else◌,
  Bool-cases, ==_iff,
}
use os_lab2_gui.Prelude.Chain.{null, NotIn, Distinct}
use os_lab2_gui.Prelude.Members.{In, erase, In-ne}

abbrev pub Links : Type 0
Links = ℕ → ℕ

-- from `a`, with `p` before it, the buffers `xs` are linked both ways up to NULL
abbrev pub Queue : Links → Links → ℕ → ℕ → List ℕ → Type 0
Queue prev next p a [] = a ≡ null
Queue prev next p a (x ∷ xs) = (a ≡ x) × (x ≢ null) × (prev x ≡ p) × Queue prev next x (next x) xs

pub Queue-null :
    (prev next : Links) (p a b : ℕ) (xs : List ℕ) → Queue prev next p a xs → In b xs → b ≢ null
Queue-null prev next p a b [] queue member = absurd member
Queue-null prev next p a b (x ∷ xs) (e, ne, before, rest) (inl same) = λ z. ne (sym same ∙ z)
Queue-null prev next p a b (x ∷ xs) (e, ne, before, rest) (inr later) =
    Queue-null prev next x (next x) b xs rest later

pub Queue-congr :
    (prev next prev' next' : Links) (p a : ℕ) (xs : List ℕ)
    → ((b : ℕ) → In b xs → (prev' b ≡ prev b) × (next' b ≡ next b))
    → Queue prev next p a xs
    → Queue prev' next' p a xs
Queue-congr prev next prev' next' p a [] same queue = queue
Queue-congr prev next prev' next' p a (x ∷ xs) same (e, ne, before, rest) = (
  e,
  ne,
  (same x (inl refl)).0 ∙ before,
  subst (λ n. Queue prev' next' x n xs) (sym (same x (inl refl)).1)
      (Queue-congr prev next prev' next' x (next x) xs (λ b member. same b (inr member)) rest),
)

module _ (prev next : Links) (x : ℕ) where
  pub next-outside :
      (q p a : ℕ) (xs : List ℕ)
      → q ≢ null
      → NotIn q xs
      → In x xs
      → Queue prev next p a xs
      → next x ≢ q
  next-outside q p a [] ne out member queue = absurd member
  next-outside q p a (y ∷ []) ne out (inl same) (e, ny, before, rest) =
      λ z. ne (sym z ∙ ap next same ∙ rest)
  next-outside q p a (y ∷ []) ne out (inr later) queue = absurd later
  next-outside q p a (y ∷ z ∷ ys) ne out (inl same) (e, ny, before, (e', nz, before', more)) =
      λ w. out.1.0 (sym w ∙ ap next same ∙ e')
  next-outside q p a (y ∷ z ∷ ys) ne out (inr later) (e, ny, before, rest) =
      next-outside q y (next y) (z ∷ ys) ne out.1 later rest

  pub prev-first :
      (p a : ℕ) (xs : List ℕ) → In x xs → a ≡ x → Distinct xs → Queue prev next p a xs → prev x ≡ p
  prev-first p a [] member e d queue = absurd member
  prev-first p a (y ∷ ys) (inl same) e d (e', ne, before, rest) = ap prev same ∙ before
  prev-first p a (y ∷ ys) (inr later) e d (e', ne, before, rest) =
      absurd (In-ne y x ys d.0 later (sym e ∙ e'))

  pub prev-later :
      (q p a : ℕ) (xs : List ℕ)
      → In x xs
      → a ≢ x
      → NotIn q xs
      → Distinct xs
      → Queue prev next p a xs
      → prev x ≢ q
  prev-later q p a [] member ne out d queue = absurd member
  prev-later q p a (y ∷ ys) (inl same) ne out d (e, ny, before, rest) = absurd (ne (e ∙ sym same))
  prev-later q p a (y ∷ ys) (inr later) ne out d (e, ny, before, rest) =
      elim (Bool-cases (next y == x)) [
        | inl second ↦ λ z.
            out.0 (sym z ∙ prev-first y (next y) ys later ((==_iff (next y) x).0 second) d.1 rest)
        | inr further ↦ prev-later q y (next y) ys later (ground arith) out.1 d.1 rest
      ]

pub prev-outside :
    (prev next : Links) (x q p a : ℕ) (xs : List ℕ)
    → q ≢ p
    → NotIn q xs
    → In x xs
    → Queue prev next p a xs
    → prev x ≢ q
prev-outside prev next x q p a [] ne out member queue = absurd member
prev-outside prev next x q p a (y ∷ ys) ne out (inl same) (e, ny, before, rest) =
    λ w. ne (sym w ∙ ap prev same ∙ before)
prev-outside prev next x q p a (y ∷ ys) ne out (inr member) (e, ny, before, rest) =
    prev-outside prev next x q y (next y) ys out.0 out.1 member rest

pub next_self :
    (prev next : Links) (x p a : ℕ) (xs : List ℕ)
    → Distinct xs
    → In x xs
    → Queue prev next p a xs
    → next x ≢ x
next_self prev next x p a [] d member queue = absurd member
next_self prev next x p a (y ∷ []) d (inl same) (e, ne, before, rest) =
    λ w. ne (sym same ∙ sym w ∙ ap next same ∙ rest)
next_self prev next x p a (y ∷ z ∷ ys) d (inl same) (e, ne, before, (e', ne', before', more)) =
    λ w. d.0.0 (sym same ∙ sym w ∙ ap next same ∙ e')
next_self prev next x p a (y ∷ ys) d (inr member) (e, ne, before, rest) =
    next_self prev next x y (next y) ys d.1 member rest

pub prev_self :
    (prev next : Links) (x p a : ℕ) (xs : List ℕ)
    → Distinct xs
    → NotIn p xs
    → In x xs
    → Queue prev next p a xs
    → prev x ≢ x
prev_self prev next x p a [] d out member queue = absurd member
prev_self prev next x p a (y ∷ ys) d out (inl same) (e, ne, before, rest) =
    λ w. out.0 (sym before ∙ ap prev (sym same) ∙ w ∙ same)
prev_self prev next x p a (y ∷ ys) d out (inr member) (e, ne, before, rest) =
    prev_self prev next x y (next y) ys d.1 d.0 member rest

pub Queue-NotIn :
    (prev next : Links) (p a : ℕ) (xs : List ℕ) → Queue prev next p a xs → NotIn null xs
Queue-NotIn prev next p a [] queue = tt
Queue-NotIn prev next p a (x ∷ xs) (e, ne, before, rest) =
    ((λ w. ne (sym w)), Queue-NotIn prev next x (next x) xs rest)

-- The writes that take `x` out of its queue: `prev'` and `next'` are the links after them.
module _ (prev next prev' next' : Links) (x : ℕ)
    (to_prev : (b : ℕ) → b ≢ null → prev' b ≡ (if b == next x then prev x else prev b))
    (to_next : (b : ℕ) → b ≢ null → next' b ≡ (if b == prev x then next x else next b)) where
  kept :
      (p a b : ℕ) (xs : List ℕ)
      → Queue prev next p a xs
      → In b xs
      → b ≢ next x
      → b ≢ prev x
      → (prev' b ≡ prev b) × (next' b ≡ next b)
  kept p a b xs queue member h k =
      let ne : b ≢ null = Queue-null prev next p a b xs queue member in
      (to_prev b ne ∙ ground arith, to_next b ne ∙ ground arith)

  -- behind `x` only the first buffer changes
  Queue-behind :
      (p : ℕ) (ys : List ℕ)
      → prev x ≡ p
      → NotIn p ys
      → Distinct ys
      → Queue prev next x (next x) ys
      → Queue prev' next' p (next x) ys
  Queue-behind p [] e out d queue = queue
  Queue-behind p (z ∷ zs) e out d (e', ne, before, rest) = (
    e',
    ne,
    to_prev z ne ∙ ground arith,
    subst (λ n. Queue prev' next' z n zs) (sym (to_next z ne ∙ ground (arith, out.0)))
        (Queue-congr prev next prev' next' z (next z) zs
          (λ b member.
            kept z (next z) b zs rest member (λ w. In-ne z b zs d.0 member (w ∙ e'))
              (λ w. In-ne p b zs out.1 member (w ∙ e)))
          rest),
  )

  next-agrees :
      (y : ℕ) (ys : List ℕ)
      → y ≢ null
      → NotIn y ys
      → Distinct ys
      → In x ys
      → Queue prev next y (next y) ys
      → next' y ≡ (if next y == x then next x else next y)
  next-agrees y ys ne out d member queue = elim (Bool-cases (next y == x)) [
    | inl second ↦
        let e : prev x ≡ y =
          prev-first prev next x y (next y) ys member ((==_iff (next y) x).0 second) d queue in
        to_next y ne ∙ ground arith
    | inr further ↦
        let apart : prev x ≢ y =
          prev-later prev next x y y (next y) ys member (ground arith) out d queue in
        to_next y ne ∙ ground arith
  ]

  In-of_In_cons : (y : ℕ) (ys : List ℕ) → (x == y) ≡ false → In x (y ∷ ys) → In x ys
  In-of_In_cons y ys other (inl same) = ground arith
  In-of_In_cons y ys other (inr member) = member

  pub Queue-unlink :
      (p a : ℕ) (xs : List ℕ)
      → Distinct xs
      → NotIn p xs
      → In x xs
      → Queue prev next p a xs
      → Queue prev' next' p (if a == x then next x else a) (erase x xs)
  Queue-unlink p a [] d out member queue = absurd member
  Queue-unlink p a (y ∷ ys) d out member (e, ne, before, rest) = elim (Bool-cases (x == y)) [
    | inl same ↦
        let xy : x ≡ y = (==_iff x y).0 same in
        let first : (a == x) ≡ true = ground arith in
        rw (same, first)
          (Queue-behind p ys (ap prev xy ∙ before) out.1 d.1
            (subst (λ z. Queue prev next z (next z) ys) (sym xy) rest))
    | inr other ↦
        let not_first : (a == x) ≡ false = ground arith in
        let tail : In x ys = In-of_In_cons y ys other member in
        let apart : next x ≢ y = next-outside prev next x y y (next y) ys ne d.0 tail rest in
        rw (other, not_first)
          (
            e,
            ne,
            to_prev y ne ∙ ground arith,
            subst (λ n. Queue prev' next' y n (erase x ys))
                (sym (next-agrees y ys ne d.0 d.1 tail rest))
                (Queue-unlink y (next y) ys d.1 d.0 tail rest),
          )
  ]

-- The writes that put `x` before a queue that starts at `a`.
module _ (prev next prev' next' : Links) (x a : ℕ)
    (to_prev : (b : ℕ) → b ≢ null → b ≢ x → prev' b ≡ (if b == a then x else prev b))
    (to_next : (b : ℕ) → b ≢ null → b ≢ x → next' b ≡ next b) where
  pub Queue-push :
      (p : ℕ) (xs : List ℕ)
      → Distinct xs
      → NotIn x xs
      → Queue prev next p a xs
      → Queue prev' next' x a xs
  Queue-push p [] d out queue = queue
  Queue-push p (z ∷ zs) d out (e, ne, before, rest) =
      let apart : z ≢ x = λ w. out.0 (sym w) in
      (
        e,
        ne,
        to_prev z ne apart ∙ ground arith,
        subst (λ n. Queue prev' next' z n zs) (sym (to_next z ne apart))
            (Queue-congr prev next prev' next' z (next z) zs
              (λ b member.
                let nonnull : b ≢ null = Queue-null prev next z (next z) b zs rest member in
                let not_x : b ≢ x = In-ne x b zs out.1 member in
                let not_a : b ≢ a = λ w. In-ne z b zs d.0 member (w ∙ e) in
                (to_prev b nonnull not_x ∙ ground arith, to_next b nonnull not_x))
              rest),
      )

  -- another queue stays, since `a` is not in it
  pub Queue-beside :
      (p c : ℕ) (xs : List ℕ)
      → NotIn x xs
      → ((b : ℕ) → In b xs → b ≢ a)
      → Queue prev next p c xs
      → Queue prev' next' p c xs
  Queue-beside p c xs out not_a queue =
      Queue-congr prev next prev' next' p c xs
        (λ b member.
          let nonnull : b ≢ null = Queue-null prev next p c b xs queue member in
          let not_x : b ≢ x = In-ne x b xs out member in
          let other : b ≢ a = not_a b member in
          (to_prev b nonnull not_x ∙ ground arith, to_next b nonnull not_x))
        queue
