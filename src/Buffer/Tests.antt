-- ===== src/Buffer/Tests.antt =====
-- Two buffers of fs/buffer.c, one of them in a hash queue, and the theorem at them.
use mathlib.Core.Path.{subst}
use os_lab2_gui.Prelude.{
  ℕ, ◌≤◌, ◌≡◌, ◌≢◌, refl, false, some, [], ◌∷◌, arith, ◌==◌, if◌then◌else◌, inl, inr, Bool-cases,
  ==_iff, sym,
}
use os_lab2_gui.Prelude.Chain.{null}
use os_lab2_gui.Prelude.Members.{In}
use os_lab2_gui.Buffer.{
  BufferHead, Cache, Getblk, returned, take_buffer, getblk, claim, find_buffer, find_loop,
  scan_free, remove_from_queues, insert_into_queues, unlink_hash, unlink_free, skip_next, skip_prev,
  skip_first, link_free, free_next, free_prev, after_last, before_first, link_hash, push_hash,
}
use os_lab2_gui.Buffer.Hash.{hash_of, Lists, HashedAt, Hashed}
use os_lab2_gui.Buffer.Claim.{Claimed, claim-Claimed}
use os_lab2_gui.Buffer.Scan.{Chosen, scan_free-Chosen}

abbrev free_buffer : ℕ → BufferHead
free_buffer other = record {
  b_blocknr = 0;
  b_dev = 0;
  b_uptodate = false;
  b_dirt = false;
  b_count = 0;
  b_lock = false;
  b_prev = null;
  b_next = null;
  b_prev_free = other;
  b_next_free = other;
}

-- buffer 1 holds block 5 of device 3, buffer 2 is free
abbrev cache : Cache
cache = record {
  head = λ a. if a == 1 then record (free_buffer 2) { b_dev = 3; b_blocknr = 5 } else free_buffer 1;
  hash_table = λ h. if h == 6 then 1 else null;
  free_list = 1;
}

abbrev lists : Lists
lists h = if h == 6 then 1 ∷ [] else []

nonnull : {n : ℕ} → 1 ≤ n → n ≢ null
nonnull h e = omega (arith, e)

one_member : (a : ℕ) → In a (1 ∷ []) → (hash_of cache a ≡ 6) × ((cache.head a).b_dev ≢ 0)
one_member a (inr member) = absurd member
one_member a (inl e) =
    subst (λ b. (hash_of cache b ≡ 6) × ((cache.head b).b_dev ≢ 0)) (sym e)
      (refl, nonnull (omega arith))

cache-Hashed : Hashed cache lists
cache-Hashed h = elim (Bool-cases (h == 6)) [
  | inl e ↦
      subst (λ k. HashedAt cache k (lists k)) (sym ((==_iff h 6).0 e))
        ((refl, nonnull (omega arith), refl, refl), (tt, tt), one_member)
  | inr e ↦ rw e (refl, tt, λ a member. absurd member)
]

found_of : Getblk → ℕ
found_of (returned bh c) = bh
found_of _ = null

-- block 5 is found, and another block takes buffer 1, the first of the free list
runs : (found_of (getblk 4 3 5 cache) ≡ 1) × (found_of (getblk 4 3 9 cache) ≡ 1)
unfolding found_of getblk take_buffer find_buffer find_loop scan_free claim remove_from_queues
    insert_into_queues unlink_hash unlink_free skip_next skip_prev skip_first link_free free_next
    free_prev after_last before_first link_hash push_hash
runs = (refl, refl)

claim-Claimed_example : (c' : Cache) × (claim 3 9 1 cache ≡ some c') × Claimed 4 1 3 9 lists c'
claim-Claimed_example =
    claim-Claimed 1 3 9 cache lists cache-Hashed (inl (inl refl))
      (nonnull (omega arith), nonnull (omega arith)) 4 (nonnull (omega arith))
      (nonnull (omega arith)) (omega arith)

two_ne_one : ◌≢◌ {A = ℕ} 2 1
two_ne_one e = omega (arith, e)

scan_free-Chosen_example :
    (r : ℕ) × (scan_free 2 1 null cache ≡ some r) × Chosen cache (1 ∷ 2 ∷ []) r
scan_free-Chosen_example =
    scan_free-Chosen 2 cache (2 ∷ []) (omega arith)
      (nonnull (omega arith), refl, two_ne_one, (nonnull (omega arith), refl))
