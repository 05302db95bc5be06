-- ===== src/Bitmap/Free.antt =====
-- fs/bitmap.c: free_block.
use mathlib.Core.Path.{subst}
use os_lab2_gui.Prelude.{
  ℕ, zero, suc, ◌+◌, ◌-◌, ◌*◌, ◌/◌, ◌%◌, ◌≤◌, ◌<◌, ◌≡◌, ◌≢◌, ◌⊎◌, refl, sym, ap, ◌∙◌, inl, inr,
  Bool, true, false, ◌||◌, Option, none, some, arith, ◌==◌, ltb, leb, if◌then◌else◌, Bool-cases,
  ==_iff,
}
use os_lab2_gui.Prelude.Table.{update, update_self}
use os_lab2_gui.Prelude.Chain.{null}
use os_lab2_gui.Buffer.{Cache, find_buffer, in_head, count_once_more}
use os_lab2_gui.Bitmap.{
  MapBlock, Super, Disk, BlockRun, done, panicked, faulted, asleep, find_super, get_super, put_bit,
  set_zmap, with_cache, release_held, drop_buffer, clear_zone, free_block, new_block,
}
use os_lab2_gui.Bitmap.InUse.{in_use, put_bit_lem}
use os_lab2_gui.Bitmap.Blocks.{zmap, IsLowest, NoneFree, Allocated, new_block-Allocated}

abbrev KeepsMaps : (ℕ → Super) → BlockRun (Bool × Disk) → Type 0
KeepsMaps table (done (free, d)) = d.super_block ≡ table
KeepsMaps table panicked = Unit
KeepsMaps table faulted = Unit
KeepsMaps table asleep = Unit

brelse-KeepsMaps :
    (d : Disk) (o : Option Cache)
    → KeepsMaps d.super_block (elim o [ none ↦ panicked | some c ↦ done (true, with_cache d c) ])
brelse-KeepsMaps d none = tt
brelse-KeepsMaps d (some c) = refl

release_held-KeepsMaps :
    (bh : ℕ) (held : Cache) (d : Disk) → KeepsMaps d.super_block (release_held bh held d)
unfolding release_held
release_held-KeepsMaps bh held d = elim (Bool-cases ((held.head bh).b_count == 1)) [
  | inl one ↦ rw one (brelse-KeepsMaps d _)
  | inr more ↦ rw (more, KeepsMaps) refl
]

if-KeepsMaps :
    (table : ℕ → Super) (b : Bool) (x y : BlockRun (Bool × Disk))
    → KeepsMaps table x
    → KeepsMaps table y
    → KeepsMaps table (if b then x else y)
if-KeepsMaps table true x y h k = h
if-KeepsMaps table false x y h k = k

drop_buffer-KeepsMaps :
    (fuel dev block : ℕ) (d : Disk) → KeepsMaps d.super_block (drop_buffer fuel dev block d)
unfolding drop_buffer
drop_buffer-KeepsMaps fuel dev block d =
    let bh : ℕ = find_buffer fuel dev block d.cache in
    if-KeepsMaps d.super_block (bh == null) _ _ refl (
      if-KeepsMaps d.super_block (d.cache.head bh).b_lock _ _ tt
        (release_held-KeepsMaps bh (in_head bh count_once_more d.cache) d))

-- the maps of a device whose super blocks are the same
find_super-congr :
    (dev i n : ℕ) (t t' : ℕ → Super)
    → ((k : ℕ) → (t' k).s_dev ≡ (t k).s_dev)
    → find_super dev i n t' ≡ find_super dev i n t
unfolding find_super
find_super-congr dev i zero t t' same = refl
find_super-congr dev i (suc n) t t' same =
    rw (same i, find_super-congr dev (i + 1) n t t' same) refl

get_super-congr :
    (dev : ℕ) (d d' : Disk)
    → ((k : ℕ) → (d'.super_block k).s_dev ≡ (d.super_block k).s_dev)
    → get_super dev d' ≡ get_super dev d
unfolding get_super
get_super-congr dev d d' same = rw (find_super-congr dev 0 8 d.super_block d'.super_block same) refl

-- clear_bit, at a bit that is 1
clear_zone-clears :
    (sb k : ℕ) (d : Disk) (b : MapBlock)
    → zmap sb d (k / 8192) ≡ some b
    → b.bits (k % 8192) ≡ true
    → (d' : Disk) × (clear_zone sb k d ≡ done d')
      × ((m : ℕ) → in_use (zmap sb d') m ≡ (if m == k then false else in_use (zmap sb d) m))
unfolding clear_zone
clear_zone-clears sb k d b here set = (
  set_zmap sb (k / 8192) (put_bit (k % 8192) false b) d,
  rw (here, clear_zone, set) refl,
  λ m.
      let cleared : zmap sb (set_zmap sb (k / 8192) (put_bit (k % 8192) false b) d)
          ≡ update (zmap sb d) (k / 8192) (some (put_bit (k % 8192) false b)) =
        ap (λ t. t.s_zmap) (update_self d.super_block sb _) in
      let whole : k % 8192 + k / 8192 * 8192 ≡ k = omega arith in
      rw cleared (
        put_bit_lem (zmap sb d) (k / 8192) (k % 8192) b false m here (omega arith) ∙ rw whole refl),
)

-- free_block of a block of the device whose bit is set and whose buffer is not in the way
free_block-clears :
    (fuel dev sb z : ℕ) (d d1 : Disk) (b : MapBlock)
    → let s : Super = d.super_block sb in
      let k : ℕ = z + 1 - s.s_firstdatazone in
      get_super dev d ≡ some sb
      → s.s_firstdatazone ≤ z
      → z < s.s_nzones
      → drop_buffer fuel dev z d ≡ done (true, d1)
      → zmap sb d (k / 8192) ≡ some b
      → in_use (zmap sb d) k ≡ true
      → (d' : Disk) × (free_block fuel dev z d ≡ done d')
        × ((m : ℕ) → in_use (zmap sb d') m ≡ (if m == k then false else in_use (zmap sb d) m))
unfolding free_block
free_block-clears fuel dev sb z d d1 b e lo hi dropped here set =
    let keeps : d1.super_block ≡ d.super_block =
      subst (KeepsMaps d.super_block) dropped (drop_buffer-KeepsMaps fuel dev z d) in
    let bit : b.bits ((z + 1 - (d.super_block sb).s_firstdatazone) % 8192) ≡ true =
      rw here at set in
    let (d', ran, bits) =
      clear_zone-clears sb (z + 1 - (d.super_block sb).s_firstdatazone) d1 b (rw keeps here) bit in
    let in_range : (ltb z (d.super_block sb).s_firstdatazone || leb (d.super_block sb).s_nzones z)
        ≡ false =
      ground arith in
    (d', rw (e, free_block, in_range, dropped) ran, λ m. bits m ∙ rw keeps refl)

true_ne_false : true ≢ false
true_ne_false e = cc

-- A block that new_block returns can be given back. For a device with a super block, with fewer than 65536
-- blocks, whose data blocks do not start at block 0 and whose bit 0 is set, if free_block finds no buffer of the
-- block in use or locked, it returns, and then the same blocks are in use as before new_block.
pub free_block-new_block :
    (fuel dev sb z : ℕ) (d d' d1 : Disk)
    → get_super dev d ≡ some sb
    → 1 ≤ (d.super_block sb).s_firstdatazone
    → (d.super_block sb).s_nzones < 65536
    → in_use (zmap sb d) 0 ≡ true
    → new_block fuel dev d ≡ done (z, d')
    → z ≢ 0
    → drop_buffer fuel dev z d' ≡ done (true, d1)
    → (d2 : Disk) × (free_block fuel dev z d' ≡ done d2)
      × ((m : ℕ) → in_use (zmap sb d2) m ≡ in_use (zmap sb d) m)
free_block-new_block fuel dev sb z d d' d1 e first few reserved ran nonzero dropped =
    back (subst (Allocated sb d) ran (new_block-Allocated fuel dev sb d e first few))
  where
    back :
        ((z ≡ 0) × NoneFree sb d) ⊎ IsLowest sb d z d'
        → (d2 : Disk) × (free_block fuel dev z d' ≡ done d2)
          × ((m : ℕ) → in_use (zmap sb d2) m ≡ in_use (zmap sb d) m)
    back (inl (zero_block, rest)) = absurd (nonzero zero_block)
    back (inr (lo, hi, free, below, bits, unmoved, b, here)) =
        let same_first : (d'.super_block sb).s_firstdatazone ≡ (d.super_block sb).s_firstdatazone =
          (unmoved sb).1 in
        let same_zones : (d'.super_block sb).s_nzones ≡ (d.super_block sb).s_nzones =
          (unmoved sb).2 in
        let k : ℕ = z + 1 - (d.super_block sb).s_firstdatazone in
        let k_ne : k ≢ 0 =
          λ z0. true_ne_false (sym reserved ∙ ap (in_use (zmap sb d)) (sym z0) ∙ free) in
        let set : in_use (zmap sb d') k ≡ true = bits k ∙ rw ((==_iff k k).1 refl) refl in
        let (d2, freed, after) =
          free_block-clears fuel dev sb z d' d1 b
            (get_super-congr dev d d' (λ n. (unmoved n).0) ∙ e)
            (omega (arith, same_first, k_ne, lo)) (omega (arith, hi, same_zones)) dropped
            (rw same_first here) (rw same_first set) in
        (
          d2,
          freed,
          λ m. elim (Bool-cases (m == k)) [
            | inl at ↦
                after m
                ∙ rw (same_first, at) (sym free ∙ ap (in_use (zmap sb d)) (sym ((==_iff m k).0 at)))
            | inr away ↦ after m ∙ rw (same_first, away) (bits m ∙ rw away refl)
          ],
        )

release_held-busy :
    (bh : ℕ) (held : Cache) (d : Disk)
    → ((held.head bh).b_count == 1) ≡ false
    → release_held bh held d ≡ done (false, with_cache d held)
unfolding release_held
release_held-busy bh held d e = rw e refl

if_false : {A : Type 0} (b : Bool) (x y : A) → b ≡ false → (if b then x else y) ≡ y
if_false true x y e = cc
if_false false x y e = refl

drop_buffer-busy :
    (fuel dev z : ℕ) (d : Disk)
    → let bh : ℕ = find_buffer fuel dev z d.cache in
      let held : Cache = in_head bh count_once_more d.cache in
      (bh == null) ≡ false
      → (d.cache.head bh).b_lock ≡ false
      → ((held.head bh).b_count == 1) ≡ false
      → drop_buffer fuel dev z d ≡ done (false, with_cache d held)
unfolding drop_buffer
drop_buffer-busy fuel dev z d there open_lock more =
    let bh : ℕ = find_buffer fuel dev z d.cache in
    if_false (bh == null) _ _ there
    ∙ if_false (d.cache.head bh).b_lock _ _ open_lock
    ∙ release_held-busy bh (in_head bh count_once_more d.cache) d more

-- If the buffer of a block of the device is in use, by fewer than 255 users and not locked, then free_block
-- returns with the super blocks as they were, and with one more user of the buffer than before.
pub free_block-busy :
    (fuel dev sb z : ℕ) (d : Disk)
    → let bh : ℕ = find_buffer fuel dev z d.cache in
      get_super dev d ≡ some sb
      → (d.super_block sb).s_firstdatazone ≤ z
      → z < (d.super_block sb).s_nzones
      → bh ≢ null
      → (d.cache.head bh).b_lock ≡ false
      → 1 ≤ (d.cache.head bh).b_count
      → (d.cache.head bh).b_count < 255
      → (d' : Disk) × (free_block fuel dev z d ≡ done d')
        × (d'.super_block ≡ d.super_block)
        × ((d'.cache.head bh).b_count ≡ (d.cache.head bh).b_count + 1)
unfolding free_block
free_block-busy fuel dev sb z d e lo hi found open_lock used few =
    let bh : ℕ = find_buffer fuel dev z d.cache in
    let held : Cache = in_head bh count_once_more d.cache in
    let in_range : (ltb z (d.super_block sb).s_firstdatazone || leb (d.super_block sb).s_nzones z)
        ≡ false =
      ground arith in
    let there : (bh == null) ≡ false = ground arith in
    let count : (held.head bh).b_count ≡ (d.cache.head bh).b_count + 1 =
      ap (λ b. b.b_count) (update_self d.cache.head bh (count_once_more (d.cache.head bh)))
      ∙ omega (arith, few) in
    let more : ((held.head bh).b_count == 1) ≡ false = ground (arith, count) in
    let dropped : drop_buffer fuel dev z d ≡ done (false, with_cache d held) =
      drop_buffer-busy fuel dev z d there open_lock more in
    (with_cache d held, rw (e, free_block, in_range, dropped) refl, refl, count)
