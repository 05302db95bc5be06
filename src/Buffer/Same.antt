-- ===== src/Buffer/Same.antt =====
-- fs/buffer.c: assignments that do not touch the hash queues.
use mathlib.Core.Path.{subst}
use os_lab2_gui.Prelude.{
  ℕ, ◌≡◌, refl, sym, ◌∙◌, inl, inr, false, List, arith, ◌==◌, Bool-cases, ==_iff,
}
use os_lab2_gui.Prelude.Chain.{null, NotIn}
use os_lab2_gui.Prelude.Members.{In, In-ne}
use os_lab2_gui.Buffer.{
  BufferHead, Cache, in_head, set_prev_free, set_next_free, skip_next, skip_prev, skip_first,
  unlink_free, free_next, free_prev, after_last, before_first, link_free,
}
use os_lab2_gui.Buffer.Queue.{Queue-congr}
use os_lab2_gui.Buffer.Hash.{prev_of, next_of, Lists, HashedAt, Hashed}

-- the fields of the hash queues
abbrev pub SameHead : BufferHead → BufferHead → Type 0
SameHead v w =
    (w.b_prev ≡ v.b_prev)
    × (w.b_next ≡ v.b_next)
    × (w.b_dev ≡ v.b_dev)
    × (w.b_blocknr ≡ v.b_blocknr)

-- they are the same for the buffers of a list
HashedAt-congr :
    (c c' : Cache) (h : ℕ) (xs : List ℕ)
    → c'.hash_table h ≡ c.hash_table h
    → ((b : ℕ) → In b xs → SameHead (c.head b) (c'.head b))
    → HashedAt c h xs
    → HashedAt c' h xs
HashedAt-congr c c' h xs table same (queue, distinct, members) = (
  rw table (
      Queue-congr (prev_of c) (next_of c) (prev_of c') (next_of c') null (c.hash_table h) xs
        (λ b inside. ((same b inside).0, (same b inside).1)) queue),
  distinct,
  λ a inside.
      let (e, ne) = members a inside in
      (rw ((same a inside).2, (same a inside).3) e, λ z. ne (sym (same a inside).2 ∙ z)),
)

-- everywhere
abbrev pub SameLinks : Cache → Cache → Type 0
SameLinks c c' =
    ((b : ℕ) → SameHead (c.head b) (c'.head b)) × ((h : ℕ) → c'.hash_table h ≡ c.hash_table h)

pub SameLinks-Hashed :
    (c c' : Cache) (lists : Lists) → SameLinks c c' → Hashed c lists → Hashed c' lists
SameLinks-Hashed c c' lists (same, table) hashed h =
    HashedAt-congr c c' h (lists h) (table h) (λ b inside. same b) (hashed h)

pub SameLinks-trans : (c c' c'' : Cache) → SameLinks c c' → SameLinks c' c'' → SameLinks c c''
SameLinks-trans c c' c'' (same, table) (same', table') = (
  λ b. (
    (same' b).0 ∙ (same b).0,
    (same' b).1 ∙ (same b).1,
    (same' b).2 ∙ (same b).2,
    (same' b).3 ∙ (same b).3,
  ),
  λ h. table' h ∙ table h,
)

-- an assignment to other fields
pub SameLinks-in_head :
    (a : ℕ) (f : BufferHead → BufferHead) (c : Cache)
    → ((v : BufferHead) → SameHead v (f v))
    → SameLinks c (in_head a f c)
SameLinks-in_head a f c keeps = (
  λ b. elim (Bool-cases (a == b)) [
    | inl e ↦
        rw e (subst (λ k. SameHead (c.head k) (f (c.head a))) ((==_iff a b).0 e) (keeps (c.head a)))
    | inr e ↦ rw e (refl, refl, refl, refl)
  ],
  λ h. refl,
)

-- an assignment to a buffer that is in no queue
pub in_head-Hashed :
    (a : ℕ) (f : BufferHead → BufferHead) (c : Cache) (lists : Lists)
    → ((h : ℕ) → NotIn a (lists h))
    → Hashed c lists
    → Hashed (in_head a f c) lists
in_head-Hashed a f c lists outside hashed h =
    HashedAt-congr c (in_head a f c) h (lists h) refl
      (λ b inside.
        let other : (a == b) ≡ false = ground (arith, In-ne a b (lists h) (outside h) inside) in
        rw other (refl, refl, refl, refl))
      (hashed h)

skip_next-SameLinks : (bh : ℕ) (c : Cache) → SameLinks c (skip_next bh c)
unfolding skip_next
skip_next-SameLinks bh c =
    SameLinks-in_head (c.head bh).b_prev_free (set_next_free (c.head bh).b_next_free) c
      (λ v. (refl, refl, refl, refl))

skip_prev-SameLinks : (bh : ℕ) (c : Cache) → SameLinks c (skip_prev bh c)
unfolding skip_prev
skip_prev-SameLinks bh c =
    SameLinks-in_head (c.head bh).b_next_free (set_prev_free (c.head bh).b_prev_free) c
      (λ v. (refl, refl, refl, refl))

free_next-SameLinks : (bh : ℕ) (c : Cache) → SameLinks c (free_next bh c)
unfolding free_next
free_next-SameLinks bh c =
    SameLinks-in_head bh (set_next_free c.free_list) c (λ v. (refl, refl, refl, refl))

free_prev-SameLinks : (bh : ℕ) (c : Cache) → SameLinks c (free_prev bh c)
unfolding free_prev
free_prev-SameLinks bh c =
    SameLinks-in_head bh (set_prev_free (c.head c.free_list).b_prev_free) c
      (λ v. (refl, refl, refl, refl))

after_last-SameLinks : (bh : ℕ) (c : Cache) → SameLinks c (after_last bh c)
unfolding after_last
after_last-SameLinks bh c =
    SameLinks-in_head (c.head c.free_list).b_prev_free (set_next_free bh) c
      (λ v. (refl, refl, refl, refl))

before_first-SameLinks : (bh : ℕ) (c : Cache) → SameLinks c (before_first bh c)
unfolding before_first
before_first-SameLinks bh c =
    SameLinks-in_head c.free_list (set_prev_free bh) c (λ v. (refl, refl, refl, refl))

skip_first-SameLinks : (bh : ℕ) (c : Cache) → SameLinks c (skip_first bh c)
unfolding skip_first
skip_first-SameLinks bh c = elim (Bool-cases (c.free_list == bh)) [
  | inl e ↦ rw e ((λ b. (refl, refl, refl, refl)), λ h. refl)
  | inr e ↦ rw e ((λ b. (refl, refl, refl, refl)), λ h. refl)
]

pub unlink_free-SameLinks : (bh : ℕ) (c : Cache) → SameLinks c (unlink_free bh c)
unfolding unlink_free
unlink_free-SameLinks bh c =
    let c1 : Cache = skip_next bh c in
    let c2 : Cache = skip_prev bh c1 in
    SameLinks-trans c c1 (skip_first bh c2) (skip_next-SameLinks bh c) (
      SameLinks-trans c1 c2 (skip_first bh c2) (skip_prev-SameLinks bh c1)
        (skip_first-SameLinks bh c2))

pub link_free-SameLinks : (bh : ℕ) (c : Cache) → SameLinks c (link_free bh c)
unfolding link_free
link_free-SameLinks bh c =
    let c1 : Cache = free_next bh c in
    let c2 : Cache = free_prev bh c1 in
    let c3 : Cache = after_last bh c2 in
    let c4 : Cache = before_first bh c3 in
    SameLinks-trans c c1 c4 (free_next-SameLinks bh c) (
      SameLinks-trans c1 c2 c4 (free_prev-SameLinks bh c1)
        (SameLinks-trans c2 c3 c4 (after_last-SameLinks bh c2) (before_first-SameLinks bh c3)))
