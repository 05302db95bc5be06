-- ===== src/Buffer/Claim.antt =====
-- fs/buffer.c: the end of getblk, where a buffer gets a new block, and the search for it.
use os_lab2_gui.Prelude.{
  ℕ, ◌+◌, ◌%◌, ◌<◌, ◌≡◌, ◌≢◌, ◌⊎◌, refl, sym, ap, ◌∙◌, Bool, true, false, some, ◌∷◌, arith, ◌==◌,
  if◌then◌else◌, ==_iff, length,
}
use mathlib.Core.Path.{subst}
use os_lab2_gui.Prelude.Table.{update_self}
use os_lab2_gui.Prelude.Chain.{null, NotIn}
use os_lab2_gui.Prelude.Members.{In, erase-NotIn}
use os_lab2_gui.Buffer.{
  BufferHead, Cache, hash_fn, in_head, set_prev, set_next, held_clean, set_block, unlink_hash,
  unlink_free, link_free, push_hash, link_hash, remove_from_queues, insert_into_queues, claim,
  find_buffer, holds_block,
}
use os_lab2_gui.Buffer.Hash.{Lists, Hashed, find_buffer_lem}
use os_lab2_gui.Buffer.Same.{
  SameLinks, SameLinks-Hashed, SameLinks-in_head, in_head-Hashed, unlink_free-SameLinks,
  link_free-SameLinks,
}
use os_lab2_gui.Buffer.Unlink.{without, IsPlaced, Removed, unlink_hash-Removed}
use os_lab2_gui.Buffer.Link.{with_first, push_hash-Hashed, after-dev, after-block}

-- the fields of a block
abbrev with_block : ℕ → ℕ → BufferHead → BufferHead
with_block dev block b = record b { b_dev = dev; b_blocknr = block }

-- the buffer gets a block, and its place in the queues
module _ (x dev block : ℕ) (c : Cache) (lists : Lists) (hashed : Hashed c lists)
    (outside : (h : ℕ) → NotIn x (lists h)) (nonnull : x ≢ null) (has_dev : dev ≢ 0) where
  abbrev named : Cache
  named = in_head x (with_block dev block) c

  abbrev on_free : Cache
  on_free = link_free x named

  abbrev cleared : Cache
  cleared = in_head x (λ b. set_next null (set_prev null b)) on_free

  on_free-Hashed : Hashed on_free lists
  on_free-Hashed =
      SameLinks-Hashed named on_free lists (link_free-SameLinks x named)
        (in_head-Hashed x (with_block dev block) c lists outside hashed)

  cleared-Hashed : Hashed cleared lists
  cleared-Hashed =
      in_head-Hashed x (λ b. set_next null (set_prev null b)) on_free lists outside on_free-Hashed

  named-at : named.head x ≡ with_block dev block (c.head x)
  named-at = update_self c.head x (with_block dev block (c.head x))

  on_free-dev : (on_free.head x).b_dev ≡ dev
  on_free-dev = ((link_free-SameLinks x named).0 x).2 ∙ ap (λ v. v.b_dev) named-at

  on_free-block : (on_free.head x).b_blocknr ≡ block
  on_free-block = ((link_free-SameLinks x named).0 x).3 ∙ ap (λ v. v.b_blocknr) named-at

  cleared-at : cleared.head x ≡ set_next null (set_prev null (on_free.head x))
  cleared-at = update_self on_free.head x (set_next null (set_prev null (on_free.head x)))

  cleared-dev : (cleared.head x).b_dev ≡ dev
  cleared-dev = ap (λ v. v.b_dev) cleared-at ∙ on_free-dev

  cleared-block : (cleared.head x).b_blocknr ≡ block
  cleared-block = ap (λ v. v.b_blocknr) cleared-at ∙ on_free-block

  abbrev h : ℕ
  h = hash_fn dev block

  inserted : insert_into_queues x named ≡ push_hash h x cleared
  unfolding insert_into_queues link_hash
  inserted =
      let some_dev : (dev == 0) ≡ false = ground arith in
      rw (on_free-dev, on_free-block) (rw some_dev refl)

  abbrev pub Inserted : Cache → Type 0
  Inserted c' =
      Hashed c' (with_first h x lists) × ((c'.head x).b_dev ≡ dev) × ((c'.head x).b_blocknr ≡ block)

  insert-Inserted : Inserted (insert_into_queues x named)
  insert-Inserted = subst Inserted (sym inserted) (
    push_hash-Hashed h x cleared lists cleared-Hashed outside nonnull
        (ap (λ v. v.b_prev) cleared-at) (rw (cleared-dev, cleared-block) refl)
        (λ z. has_dev (sym cleared-dev ∙ z)),
    after-dev h x cleared x ∙ cleared-dev,
    after-block h x cleared x ∙ cleared-block,
  )

-- the buffer `x` is in the cache for the block, and nothing else has moved
abbrev pub Claimed : ℕ → ℕ → ℕ → ℕ → Lists → Cache → Type 0
Claimed fuel x dev block lists c' =
    Hashed c' (with_first (hash_fn dev block) x (without x lists))
    × ((c'.head x).b_dev ≡ dev)
    × ((c'.head x).b_blocknr ≡ block)
    × (find_buffer fuel dev block c' ≡ x)

module _ (x dev block : ℕ) (c : Cache) (lists : Lists) (hashed : Hashed c lists)
    (placed : IsPlaced c lists x)
    (on_list : ((c.head x).b_prev_free ≢ null) × ((c.head x).b_next_free ≢ null)) where
  abbrev held : Cache
  held = in_head x held_clean c

  abbrev off_hash : Cache
  off_hash = unlink_hash x held

  abbrev off : Cache
  off = unlink_free x off_hash

  held-SameLinks : SameLinks c held
  held-SameLinks = SameLinks-in_head x held_clean c (λ v. (refl, refl, refl, refl))

  held-at : held.head x ≡ held_clean (c.head x)
  held-at = update_self c.head x (held_clean (c.head x))

  -- the place depends on the fields of the queues only
  abbrev PlacedAs : BufferHead → Type 0
  PlacedAs v =
      In x (lists (hash_fn v.b_dev v.b_blocknr))
      ⊎ ((v.b_dev ≡ 0)
          × (v.b_prev ≡ null)
          × (v.b_next ≡ null)
          × (c.hash_table (hash_fn v.b_dev v.b_blocknr) ≢ x))

  held-IsPlaced : IsPlaced held lists x
  held-IsPlaced = subst PlacedAs (sym held-at) placed

  removed : Removed x held lists off_hash
  removed =
      unlink_hash-Removed x held lists (SameLinks-Hashed c held lists held-SameLinks hashed)
        held-IsPlaced

  off-Hashed : Hashed off (without x lists)
  off-Hashed =
      SameLinks-Hashed off_hash off (without x lists) (unlink_free-SameLinks x off_hash) removed.0

  prev_nonnull : ((off_hash.head x).b_prev_free == null) ≡ false
  prev_nonnull = rw ((removed.1 x).0, held-at) (ground (arith, on_list.0))

  next_nonnull : ((off_hash.head x).b_next_free == null) ≡ false
  next_nonnull = rw ((removed.1 x).1, held-at) (ground (arith, on_list.1))

  taken_off : remove_from_queues x held ≡ some off
  unfolding remove_from_queues
  taken_off = rw (prev_nonnull, next_nonnull) refl

  outside : (h : ℕ) → NotIn x (without x lists h)
  outside h = erase-NotIn x (lists h) (hashed h).1

  claimed : claim dev block x c ≡ some (insert_into_queues x (in_head x (set_block dev block) off))
  unfolding claim
  claimed = rw (taken_off, claim) refl

  abbrev final : Cache
  final = insert_into_queues x (in_head x (set_block dev block) off)

  first_is : (b : Bool) (rest : ℕ) → b ≡ true → (if b then x else rest) ≡ x
  first_is true rest e = refl
  first_is false rest e = cc

  -- The field b_dev has 16 bits. If a buffer is in the hash queue of its block, or has no device and is in
  -- none, and is on the free list, and the device on 16 bits is not 0, then the end of getblk does not panic. It
  -- takes the buffer out of its queue and puts it at the front of the queue of the new block, all queues stay
  -- lists that are linked both ways, and find_buffer, with fuel for that queue, finds this buffer for the block.
  pub claim-Claimed :
      (fuel : ℕ)
      → x ≢ null
      → dev % 65536 ≢ 0
      → length (without x lists (hash_fn (dev % 65536) block)) + 1 < fuel
      → (c' : Cache) × (claim dev block x c ≡ some c') × Claimed fuel x (dev % 65536) block lists c'
  claim-Claimed fuel nonnull has_dev enough =
      let (queues, is_dev, is_block) =
        insert-Inserted x (dev % 65536) block off (without x lists) off-Hashed outside nonnull
          has_dev in
      let h : ℕ = hash_fn (dev % 65536) block in
      let own : with_first h x (without x lists) h ≡ x ∷ without x lists h =
        rw ((==_iff h h).1 refl) refl in
      let long : length (with_first h x (without x lists) h) < fuel = rw own (omega arith) in
      let holds : holds_block (dev % 65536) block (final.head x) ≡ true =
        rw (is_dev, is_block) (ground arith) in
      (
        final,
        claimed,
        (
          queues,
          is_dev,
          is_block,
          find_buffer_lem fuel (dev % 65536) block final (with_first h x (without x lists)) queues
                long
              ∙ rw own (first_is _ _ holds),
        ),
      )
