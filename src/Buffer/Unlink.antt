-- ===== src/Buffer/Unlink.antt =====
-- fs/buffer.c: the part of remove_from_queues about the hash queue.
use mathlib.Core.Path.{subst}
use os_lab2_gui.Prelude.{
  ℕ, ◌≡◌, ◌≢◌, ◌⊎◌, refl, sym, ◌∙◌, inl, inr, Bool, true, false, ◌&&◌, arith, ◌==◌, if◌then◌else◌,
  Bool-cases, ==_iff,
}
use os_lab2_gui.Prelude.Chain.{null, NotIn}
use os_lab2_gui.Prelude.Members.{In, erase, In-erase, Distinct-erase, NotIn-of_not, erase_same}
use os_lab2_gui.Buffer.{
  BufferHead, Cache, hash_fn, at_pointer, set_prev, set_next, set_hash, unlink_hash,
}
use os_lab2_gui.Buffer.Queue.{
  Queue, Queue-null, Queue-congr, Queue-unlink, Queue-NotIn, next_self, prev_self, next-outside,
  prev-outside,
}
use os_lab2_gui.Buffer.Hash.{
  prev_of, next_of, hash_of, Lists, Hashed, set_prev-prev, set_prev-next, set_next-next,
  set_next-prev,
}

module _ (x : ℕ) (c : Cache) where
  abbrev c1 : Cache
  c1 = at_pointer (next_of c x) (set_prev (prev_of c x)) c

  abbrev c2 : Cache
  c2 = at_pointer (prev_of c x) (set_next (next_of c x)) c1

  -- the same block as before
  same_block :
      (b : ℕ)
      → ((c2.head b).b_dev ≡ (c.head b).b_dev) × ((c2.head b).b_blocknr ≡ (c.head b).b_blocknr)
  same_block b = ground arith

  same_table : (h : ℕ) → c2.hash_table h ≡ c.hash_table h
  same_table h = ground arith

  same_hash : (b : ℕ) → hash_of c2 b ≡ hash_of c b
  same_hash b = rw ((same_block b).0, (same_block b).1) refl

  same_free :
      (b : ℕ)
      → ((c2.head b).b_prev_free ≡ (c.head b).b_prev_free)
        × ((c2.head b).b_next_free ≡ (c.head b).b_next_free)
  same_free b = ground arith

  c2-prev :
      (b : ℕ) → b ≢ null → prev_of c2 b ≡ (if b == next_of c x then prev_of c x else prev_of c b)
  c2-prev b ne =
      set_next-prev (prev_of c x) (next_of c x) c1 b ne
      ∙ set_prev-prev (next_of c x) (prev_of c x) c b ne

  c2-next :
      (b : ℕ) → b ≢ null → next_of c2 b ≡ (if b == prev_of c x then next_of c x else next_of c b)
  c2-next b ne =
      set_next-next (prev_of c x) (next_of c x) c1 b ne
      ∙ rw (set_prev-next (next_of c x) (prev_of c x) c b ne) refl

  module _ (ne : x ≢ null) (next_ne : next_of c x ≢ x) (prev_ne : prev_of c x ≢ x) where
    read_prev : (c1.head x).b_prev ≡ prev_of c x
    read_prev = set_prev-prev (next_of c x) (prev_of c x) c x ne ∙ ground arith

    read_next : (c1.head x).b_next ≡ next_of c x
    read_next = set_prev-next (next_of c x) (prev_of c x) c x ne

    read_next2 : (c2.head x).b_next ≡ next_of c x
    read_next2 = c2-next x ne ∙ ground arith

    unlink_hash_lem :
        unlink_hash x c
        ≡ (if c.hash_table (hash_of c x) == x then set_hash (hash_of c x) (next_of c x) c2 else c2)
    unfolding unlink_hash
    unlink_hash_lem =
        rw (read_prev, read_next) (rw (read_next2, same_hash x, same_table (hash_of c x)) refl)

  -- the table and the links after the writes, whether `x` is the first of its queue or not
  abbrev Unlinked : Cache → Type 0
  Unlinked c' =
      (c'.head ≡ c2.head)
      × ((h : ℕ)
          → c'.hash_table h ≡ (
              if hash_of c x == h && c.hash_table (hash_of c x) == x
              then next_of c x
              else c.hash_table h))

  set_hash-Unlinked :
      (t : Bool)
      → c.hash_table (hash_of c x) == x ≡ t
      → Unlinked (if t then set_hash (hash_of c x) (next_of c x) c2 else c2)
  set_hash-Unlinked true e = (refl, λ h. rw (e, same_table h) (ground arith))
  set_hash-Unlinked false e = (refl, λ h. rw (e, same_table h) (ground arith))

  unlink_hash-Unlinked : x ≢ null → next_of c x ≢ x → prev_of c x ≢ x → Unlinked (unlink_hash x c)
  unlink_hash-Unlinked ne next_ne prev_ne =
      subst Unlinked (sym (unlink_hash_lem ne next_ne prev_ne))
        (set_hash-Unlinked (c.hash_table (hash_of c x) == x) refl)

-- the lists without `x`
abbrev pub without : ℕ → Lists → Lists
without x lists h = erase x (lists h)

module _ (x : ℕ) (c : Cache) (lists : Lists) (hashed : Hashed c lists)
    (member : In x (lists (hash_of c x))) where
  abbrev own : ℕ
  own = hash_of c x

  abbrev c' : Cache
  c' = c2 x c

  own-Queue : Queue (prev_of c) (next_of c) null (c.hash_table own) (lists own)
  own-Queue = (hashed own).0

  at_own :
      Queue
        (prev_of c')
        (next_of c')
        null
        (if c.hash_table own == x then next_of c x else c.hash_table own)
        (erase x (lists own))
  at_own =
      Queue-unlink (prev_of c) (next_of c) (prev_of c') (next_of c') x (c2-prev x c) (c2-next x c)
        null (c.hash_table own) (lists own) (hashed own).1
        (Queue-NotIn (prev_of c) (next_of c) null (c.hash_table own) (lists own) own-Queue) member
        own-Queue

  foreign : (h b : ℕ) → own ≢ h → In b (lists h) → NotIn b (lists own)
  foreign h b ne inside =
      NotIn-of_not b (lists own) (λ k. ne (sym ((hashed own).2 b k).0 ∙ ((hashed h).2 b inside).0))

  kept :
      (h b : ℕ)
      → own ≢ h
      → In b (lists h)
      → (prev_of c' b ≡ prev_of c b) × (next_of c' b ≡ next_of c b)
  kept h b ne inside =
      let nonnull : b ≢ null =
        Queue-null (prev_of c) (next_of c) null (c.hash_table h) b (lists h) (hashed h).0 inside in
      let out : NotIn b (lists own) = foreign h b ne inside in
      let not_next : next_of c x ≢ b =
        next-outside (prev_of c) (next_of c) x b null (c.hash_table own) (lists own) nonnull out
          member own-Queue in
      let not_prev : prev_of c x ≢ b =
        prev-outside (prev_of c) (next_of c) x b null (c.hash_table own) (lists own) nonnull out
          member own-Queue in
      (c2-prev x c b nonnull ∙ ground arith, c2-next x c b nonnull ∙ ground arith)

  at_other :
      (h : ℕ) → own ≢ h → Queue (prev_of c') (next_of c') null (c.hash_table h) (erase x (lists h))
  at_other h ne =
      let same : erase x (lists h) ≡ lists h =
        erase_same x (lists h) (NotIn-of_not x (lists h) (λ k. ne ((hashed h).2 x k).0)) in
      subst (λ xs. Queue (prev_of c') (next_of c') null (c.hash_table h) xs) (sym same)
        (Queue-congr (prev_of c) (next_of c) (prev_of c') (next_of c') null (c.hash_table h)
          (lists h) (λ b inside. kept h b ne inside) (hashed h).0)

  x-null : x ≢ null
  x-null = Queue-null (prev_of c) (next_of c) null (c.hash_table own) x (lists own) own-Queue member

  unlinked : Unlinked x c (unlink_hash x c)
  unlinked =
      unlink_hash-Unlinked x c x-null
        (next_self (prev_of c) (next_of c) x null (c.hash_table own) (lists own) (hashed own).1
          member own-Queue)
        (prev_self (prev_of c) (next_of c) x null (c.hash_table own) (lists own) (hashed own).1
          (Queue-NotIn (prev_of c) (next_of c) null (c.hash_table own) (lists own) own-Queue) member
          own-Queue)

  table_at :
      (h : ℕ)
      → (own == h) ≡ true
      → (unlink_hash x c).hash_table h
        ≡ (if c.hash_table own == x then next_of c x else c.hash_table own)
  table_at h e = unlinked.1 h ∙ rw e (rw ((==_iff own h).0 e) refl)

  unlink_hash-Queue :
      (h : ℕ)
      → Queue (prev_of c') (next_of c') null ((unlink_hash x c).hash_table h) (erase x (lists h))
  unlink_hash-Queue h = elim (Bool-cases (own == h)) [
    | inl e ↦
        subst
          (λ k.
            Queue (prev_of c') (next_of c') null ((unlink_hash x c).hash_table h)
              (erase x (lists k)))
          ((==_iff own h).0 e) (rw (table_at h e) at_own)
    | inr e ↦
        let ne : own ≢ h = ground arith in
        let same : (unlink_hash x c).hash_table h ≡ c.hash_table h = unlinked.1 h ∙ rw e refl in
        rw same (at_other h ne)
  ]

  abbrev At : ℕ → (ℕ → BufferHead) → Type 0
  At h head =
      Queue (λ a. (head a).b_prev) (λ a. (head a).b_next) null ((unlink_hash x c).hash_table h)
        (erase x (lists h))
      × ((a : ℕ)
          → In a (erase x (lists h))
          → (hash_fn (head a).b_dev (head a).b_blocknr ≡ h) × ((head a).b_dev ≢ 0))

  members_at : (h a : ℕ) → In a (erase x (lists h)) → (hash_of c' a ≡ h) × ((c'.head a).b_dev ≢ 0)
  members_at h a inside =
      let (e, ne) = (hashed h).2 a (In-erase x a (lists h) inside) in
      (same_hash x c a ∙ e, λ z. ne (sym (same_block x c a).0 ∙ z))

  -- remove_from_queues takes a buffer out of its hash queue, and leaves the others.
  pub unlink_hash-Hashed : Hashed (unlink_hash x c) (without x lists)
  unlink_hash-Hashed h =
      let (queue, members) = subst (At h) (sym unlinked.0) (unlink_hash-Queue h, members_at h) in
      (queue, Distinct-erase x (lists h) (hashed h).1, members)

-- a buffer without a device, in no queue
abbrev pub IsLoose : Cache → ℕ → Type 0
IsLoose c x =
    ((c.head x).b_dev ≡ 0)
    × (prev_of c x ≡ null)
    × (next_of c x ≡ null)
    × (c.hash_table (hash_of c x) ≢ x)

abbrev pub IsPlaced : Cache → Lists → ℕ → Type 0
IsPlaced c lists x = In x (lists (hash_of c x)) ⊎ IsLoose c x

-- what the first half of remove_from_queues leaves
abbrev pub Removed : ℕ → Cache → Lists → Cache → Type 0
Removed x c lists c' =
    Hashed c' (without x lists)
    × ((b : ℕ)
        → ((c'.head b).b_prev_free ≡ (c.head b).b_prev_free)
          × ((c'.head b).b_next_free ≡ (c.head b).b_next_free)
          × ((c'.head b).b_dev ≡ (c.head b).b_dev)
          × ((c'.head b).b_blocknr ≡ (c.head b).b_blocknr))

loose_lem : (x : ℕ) (c : Cache) → IsLoose c x → unlink_hash x c ≡ c
unfolding unlink_hash
loose_lem x c (e, p, n, apart) =
    let other : (c.hash_table (hash_of c x) == x) ≡ false = ground arith in
    ground (arith, e, p, n, other)

without_loose :
    (x : ℕ) (c : Cache) (lists : Lists)
    → Hashed c lists
    → (c.head x).b_dev ≡ 0
    → Hashed c (without x lists)
without_loose x c lists hashed e h =
    let same : erase x (lists h) ≡ lists h =
      erase_same x (lists h) (NotIn-of_not x (lists h) (λ k. ((hashed h).2 x k).1 e)) in
    rw same (hashed h)

pub unlink_hash-Removed :
    (x : ℕ) (c : Cache) (lists : Lists)
    → Hashed c lists
    → IsPlaced c lists x
    → Removed x c lists (unlink_hash x c)
unlink_hash-Removed x c lists hashed (inl member) = (
  unlink_hash-Hashed x c lists hashed member,
  λ b.
      rw ((unlinked x c lists hashed member).0)
        ((same_free x c b).0, (same_free x c b).1, (same_block x c b).0, (same_block x c b).1),
)
unlink_hash-Removed x c lists hashed (inr loose) =
    rw (loose_lem x c loose) (without_loose x c lists hashed loose.0, λ b. (refl, refl, refl, refl))
