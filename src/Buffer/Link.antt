-- ===== src/Buffer/Link.antt =====
-- fs/buffer.c: the part of insert_into_queues about the hash queue.
use mathlib.Core.Path.{subst}
use os_lab2_gui.Prelude.{
  ℕ, ◌≡◌, ◌≢◌, ◌⊎◌, refl, sym, ap, ◌∙◌, inl, inr, true, List, [], ◌∷◌, arith, ◌==◌, if◌then◌else◌,
  Bool-cases, ==_iff,
}
use os_lab2_gui.Prelude.Table.{update, update_self, update_ne}
use os_lab2_gui.Prelude.Chain.{null, NotIn}
use os_lab2_gui.Prelude.Members.{In}
use os_lab2_gui.Buffer.{BufferHead, Cache, set_prev, set_next, push_hash}
use os_lab2_gui.Buffer.Queue.{Queue, Queue-null, Queue-push, Queue-beside}
use os_lab2_gui.Buffer.Hash.{prev_of, next_of, hash_of, Lists, HashedAt, Hashed}

-- the lists with `x` before the list `h`
abbrev pub with_first : ℕ → ℕ → Lists → Lists
with_first h x lists k = if h == k then x ∷ lists k else lists k

-- what push_hash writes
module _ (h x : ℕ) (c : Cache) where
  abbrev first : ℕ
  first = c.hash_table h

  abbrev written : ℕ → BufferHead
  written = update c.head x (set_next first (c.head x))

  push_hash-heads :
      (b : ℕ) → (push_hash h x c).head b ≡ update written first (set_prev x (written first)) b
  unfolding push_hash
  push_hash-heads b = rw (update_self c.head x (set_next first (c.head x))) refl

  push_hash-table : (k : ℕ) → (push_hash h x c).hash_table k ≡ update c.hash_table h x k
  unfolding push_hash
  push_hash-table k = refl

  after-prev :
      (b : ℕ)
      → b ≢ null
      → b ≢ x
      → prev_of (push_hash h x c) b ≡ (if b == first then x else prev_of c b)
  after-prev b ne apart = ap (λ v. v.b_prev) (push_hash-heads b) ∙ ground arith

  after-next : (b : ℕ) → b ≢ null → b ≢ x → next_of (push_hash h x c) b ≡ next_of c b
  after-next b ne apart = ap (λ v. v.b_next) (push_hash-heads b) ∙ ground arith

  own-prev : first ≢ x → prev_of (push_hash h x c) x ≡ prev_of c x
  own-prev apart = ap (λ v. v.b_prev) (push_hash-heads x) ∙ ground arith

  own-next : first ≢ x → next_of (push_hash h x c) x ≡ first
  own-next apart = ap (λ v. v.b_next) (push_hash-heads x) ∙ ground arith

  pub after-dev : (b : ℕ) → ((push_hash h x c).head b).b_dev ≡ (c.head b).b_dev
  after-dev b = ap (λ v. v.b_dev) (push_hash-heads b) ∙ ground arith

  pub after-block : (b : ℕ) → ((push_hash h x c).head b).b_blocknr ≡ (c.head b).b_blocknr
  after-block b = ap (λ v. v.b_blocknr) (push_hash-heads b) ∙ ground arith

  after-hash : (b : ℕ) → hash_of (push_hash h x c) b ≡ hash_of c b
  after-hash b = rw (after-dev b, after-block b) refl

  module _ (lists : Lists) (hashed : Hashed c lists) (outside : (k : ℕ) → NotIn x (lists k))
      (nonnull : x ≢ null) (unlinked : prev_of c x ≡ null) (belongs : hash_of c x ≡ h)
      (has_dev : (c.head x).b_dev ≢ 0) where
    first_of : (p a : ℕ) (xs : List ℕ) → Queue (prev_of c) (next_of c) p a xs → NotIn x xs → a ≢ x
    first_of p a [] e out = λ w. nonnull (sym w ∙ e)
    first_of p a (z ∷ zs) (e, ne, before, rest) out = λ w. out.0 (sym w ∙ e)

    apart_first : first ≢ x
    apart_first = first_of null first (lists h) (hashed h).0 (outside h)

    -- the first buffer of the queue is in no other one
    head_of : (p a : ℕ) (xs : List ℕ) → Queue (prev_of c) (next_of c) p a xs → (a ≡ null) ⊎ In a xs
    head_of p a [] e = inl e
    head_of p a (z ∷ zs) (e, ne, before, rest) = inr (inl e)

    not_first : (k b : ℕ) → h ≢ k → In b (lists k) → b ≢ first
    not_first k b ne inside w = elim (head_of null first (lists h) (hashed h).0) [
      | inl e ↦
          Queue-null (prev_of c) (next_of c) null (c.hash_table k) b (lists k) (hashed k).0 inside
            (w ∙ e)
      | inr member ↦
          ne
            (sym ((hashed h).2 first member).0 ∙ ap (hash_of c) (sym w) ∙ ((hashed k).2 b inside).0)
    ]

    pushed : Queue (prev_of (push_hash h x c)) (next_of (push_hash h x c)) null x (x ∷ lists h)
    pushed = (
      refl,
      nonnull,
      own-prev apart_first ∙ unlinked,
      subst (λ n. Queue (prev_of (push_hash h x c)) (next_of (push_hash h x c)) x n (lists h))
          (sym (own-next apart_first))
          (Queue-push (prev_of c) (next_of c) (prev_of (push_hash h x c))
            (next_of (push_hash h x c)) x first after-prev after-next null (lists h) (hashed h).1
            (outside h) (hashed h).0),
    )

    members :
        (k a : ℕ)
        → In a (lists k)
        → (hash_of (push_hash h x c) a ≡ k) × (((push_hash h x c).head a).b_dev ≢ 0)
    members k a inside =
        let (e, ne) = (hashed k).2 a inside in (after-hash a ∙ e, λ z. ne (sym (after-dev a) ∙ z))

    own_members :
        (a : ℕ)
        → In a (x ∷ lists h)
        → (hash_of (push_hash h x c) a ≡ h) × (((push_hash h x c).head a).b_dev ≢ 0)
    own_members a (inr inside) = members h a inside
    own_members a (inl e) =
        subst (λ b. (hash_of (push_hash h x c) b ≡ h) × (((push_hash h x c).head b).b_dev ≢ 0))
          (sym e) (after-hash x ∙ belongs, λ z. has_dev (sym (after-dev x) ∙ z))

    at_own : HashedAt (push_hash h x c) h (x ∷ lists h)
    at_own = (
      rw (push_hash-table h ∙ update_self c.hash_table h x) pushed,
      (outside h, (hashed h).1),
      own_members,
    )

    beside :
        (k : ℕ)
        → h ≢ k
        → Queue
            (prev_of (push_hash h x c))
            (next_of (push_hash h x c))
            null
            ((push_hash h x c).hash_table k)
            (lists k)
    beside k ne = rw (push_hash-table k ∙ update_ne c.hash_table h x k ne) (
        Queue-beside (prev_of c) (next_of c) (prev_of (push_hash h x c)) (next_of (push_hash h x c))
          x first after-prev after-next null (c.hash_table k) (lists k) (outside k)
          (λ b inside. not_first k b ne inside) (hashed k).0)

    -- insert_into_queues puts a buffer at the front of its hash queue, and leaves the others.
    pub push_hash-Hashed : Hashed (push_hash h x c) (with_first h x lists)
    push_hash-Hashed k = elim (Bool-cases (h == k)) [
      | inl e ↦
          subst (λ j. HashedAt (push_hash h x c) j (with_first h x lists j)) ((==_iff h k).0 e)
            (rw same at_own)
      | inr e ↦ rw e (beside k (ground arith), (hashed k).1, members k)
    ]
      where
        same : (h == h) ≡ true
        same = (==_iff h h).1 refl
