-- ===== src/Bitmap/Blocks.antt =====
-- fs/bitmap.c: new_block and free_block, as changes of the bits of a device.
use mathlib.Core.Path.{subst}
use os_lab2_gui.Prelude.{
  ℕ, ◌+◌, ◌-◌, ◌*◌, ◌/◌, ◌%◌, ◌≤◌, ◌<◌, ◌≡◌, ◌⊎◌, refl, ap, inl, inr, true, false, Option, none,
  some, arith, ◌==◌, leb, leb→le, if◌then◌else◌, Bool-cases, ==_iff,
}
use os_lab2_gui.Prelude.Table.{update, update_self}
use os_lab2_gui.Buffer.{
  Cache, Getblk, returned, waits, writes_back, no_buffer, repeats, panics, endless, getblk,
}
use os_lab2_gui.Bitmap.{
  MapBlock, Super, Disk, BlockRun, done, panicked, faulted, asleep, then_do, get_super, find_map,
  put_bit, set_zmap, fill_buffer, fresh_buffer, new_block,
}
use os_lab2_gui.Bitmap.Search.{FirstFree, find_map-FirstFree}
use os_lab2_gui.Bitmap.InUse.{Maps, in_use, full_bit, at_bit, below_bit, put_bit_lem}

-- what follows the allocation of a bit leaves the super blocks
abbrev Keeps : (ℕ → Super) → BlockRun Disk → Type 0
Keeps table (done d) = d.super_block ≡ table
Keeps table panicked = Unit
Keeps table faulted = Unit
Keeps table asleep = Unit

brelse-Keeps :
    (d : Disk) (bh : ℕ) (o : Option Cache)
    → Keeps d.super_block (elim o [
      | none ↦ panicked
      | some c1 ↦ done (record d { cache = c1; contents = update d.contents bh (λ k. 0) })
    ])
brelse-Keeps d bh none = tt
brelse-Keeps d bh (some c) = refl

fill_buffer-Keeps : (d : Disk) (g : Getblk) → Keeps d.super_block (fill_buffer d g)
unfolding fill_buffer
fill_buffer-Keeps d (returned bh c) = elim (Bool-cases ((c.head bh).b_count == 1)) [
  | inl e ↦ rw e (brelse-Keeps d bh _)
  | inr e ↦ rw (e, Keeps) tt
]
fill_buffer-Keeps d (waits bh c) = tt
fill_buffer-Keeps d (writes_back bh c) = tt
fill_buffer-Keeps d no_buffer = tt
fill_buffer-Keeps d repeats = tt
fill_buffer-Keeps d panics = tt
fill_buffer-Keeps d endless = tt

fresh_buffer-Keeps : (fuel dev j : ℕ) (d : Disk) → Keeps d.super_block (fresh_buffer fuel dev j d)
unfolding fresh_buffer
fresh_buffer-Keeps fuel dev j d = fill_buffer-Keeps d (getblk fuel dev j d.cache)

abbrev pub zmap : ℕ → Disk → Maps
zmap sb d = (d.super_block sb).s_zmap

-- The numbers in the super blocks stay.
abbrev pub Unmoved : Disk → Disk → Type 0
Unmoved d d' =
    (k : ℕ)
    → ((d'.super_block k).s_dev ≡ (d.super_block k).s_dev)
      × ((d'.super_block k).s_firstdatazone ≡ (d.super_block k).s_firstdatazone)
      × ((d'.super_block k).s_nzones ≡ (d.super_block k).s_nzones)

set_zmap-Unmoved : (sb i : ℕ) (b : MapBlock) (d : Disk) → Unmoved d (set_zmap sb i b d)
set_zmap-Unmoved sb i b d k = elim (Bool-cases (sb == k)) [
  | inl e ↦ rw e (
      subst
        (λ n.
          ((d.super_block sb).s_dev ≡ (d.super_block n).s_dev)
          × ((d.super_block sb).s_firstdatazone ≡ (d.super_block n).s_firstdatazone)
          × ((d.super_block sb).s_nzones ≡ (d.super_block n).s_nzones))
        ((==_iff sb k).0 e) (refl, refl, refl))
  | inr e ↦ rw e (refl, refl, refl)
]

-- The block `z` is the lowest that was free, and its bit is set.
abbrev pub IsLowest : ℕ → Disk → ℕ → Disk → Type 0
IsLowest sb d z d' =
    let s : Super = d.super_block sb in
    let k : ℕ = z + 1 - s.s_firstdatazone in
    (s.s_firstdatazone ≤ z + 1)
    × (z < s.s_nzones)
    × (in_use (zmap sb d) k ≡ false)
    × ((m : ℕ) → m < k → in_use (zmap sb d) m ≡ true)
    × ((m : ℕ) → in_use (zmap sb d') m ≡ (if m == k then true else in_use (zmap sb d) m))
    × Unmoved d d'
    × (b : MapBlock) × (zmap sb d' (k / 8192) ≡ some b)

-- No block of the device is free.
abbrev pub NoneFree : ℕ → Disk → Type 0
NoneFree sb d =
    let s : Super = d.super_block sb in
    (m : ℕ) → m + s.s_firstdatazone ≤ s.s_nzones → in_use (zmap sb d) m ≡ true

-- how new_block ends
abbrev pub Allocated : ℕ → Disk → BlockRun (ℕ × Disk) → Type 0
Allocated sb d (done (z, d')) = ((z ≡ 0) × NoneFree sb d) ⊎ IsLowest sb d z d'
Allocated sb d panicked = Unit
Allocated sb d faulted = Unit
Allocated sb d asleep = Unit

module _ (fuel dev sb : ℕ) (d : Disk) where
  abbrev s : Super
  s = d.super_block sb

  -- the block of the bit that was found
  module _ (i j : ℕ) (b : MapBlock) (found : FirstFree 0 8 s.s_zmap (some (i, j, b)))
      (some_first : 1 ≤ s.s_firstdatazone) where
    abbrev zone : ℕ
    zone = j + i * 8192 + s.s_firstdatazone - 1

    abbrev marked : Disk
    marked = set_zmap sb i (put_bit j true b) d

    marked-zmap : zmap sb marked ≡ update s.s_zmap i (some (put_bit j true b))
    marked-zmap = ap (λ t. t.s_zmap) (update_self d.super_block sb _)

    lowest :
        (d' : Disk)
        → zone < s.s_nzones
        → d'.super_block ≡ marked.super_block
        → IsLowest sb d zone d'
    lowest d' small same =
        let k : zone + 1 - s.s_firstdatazone ≡ j + i * 8192 = omega (arith, some_first) in
        (
          omega (arith, some_first),
          small,
          rw k (at_bit s.s_zmap i j b found),
          (λ m lt. below_bit s.s_zmap i j b found m (omega (arith, k, lt))),
          (λ m. rw (same, marked-zmap, k) (put_bit_lem s.s_zmap i j b true m found.2 found.3)),
          (λ n. rw same (set_zmap-Unmoved sb i (put_bit j true b) d n)),
          put_bit j true b,
          rw (same, marked-zmap, k)
              (rw (quotient j (found.3)) (update_self s.s_zmap i (some (put_bit j true b)))),
        )
      where
        quotient : (n : ℕ) → n < 8192 → (n + i * 8192) / 8192 ≡ i
        quotient n lt = omega (arith, lt)

    after_mark :
        (o : BlockRun Disk)
        → zone < s.s_nzones
        → Keeps marked.super_block o
        → Allocated sb d (then_do o (λ d2. done (zone, d2)))
    after_mark (done d2) small keeps = inr (lowest d2 small keeps)
    after_mark panicked small keeps = tt
    after_mark faulted small keeps = tt
    after_mark asleep small keeps = tt

    decide : Allocated sb d (
        if b.bits j
        then panicked
        else if leb s.s_nzones zone
        then done (0, marked)
        else then_do (fresh_buffer fuel dev zone marked) (λ d2. done (zone, d2)))
    decide = elim (Bool-cases (leb s.s_nzones zone)) [
      | inl e ↦
          rw (found.4, e, Allocated)
            (inl (
              refl,
              λ m small.
                  below_bit s.s_zmap i j b found m
                    (omega (arith, some_first, leb→le s.s_nzones zone e, small)),
            ))
      | inr e ↦
          rw (found.4, e)
            (after_mark (fresh_buffer fuel dev zone marked) (ground arith)
              (fresh_buffer-Keeps fuel dev zone marked))
    ]

  decide_all :
      (o : Option (ℕ × ℕ × MapBlock))
      → FirstFree 0 8 s.s_zmap o
      → 1 ≤ s.s_firstdatazone
      → s.s_nzones < 65536
      → Allocated sb d (elim o [
        | none ↦ done (0, d)
        | some (i, j, b) ↦
            let zone : ℕ = j + i * 8192 + s.s_firstdatazone - 1 in
            let d1 : Disk = set_zmap sb i (put_bit j true b) d in
            if b.bits j
            then panicked
            else if leb s.s_nzones zone
            then done (0, d1)
            else then_do (fresh_buffer fuel dev zone d1) (λ d2. done (zone, d2))
      ])
  decide_all none full first few = inl (
    refl,
    λ m small.
        full_bit (s.s_zmap (m / 8192)) (m % 8192)
          (full (m / 8192) (omega arith) (omega (arith, few, small, first))) (omega arith),
  )
  decide_all (some (i, j, b)) found first few = decide i j b found first

  -- For a device with a super block, whose data blocks do not start at block 0, and with fewer than 65536
  -- blocks, new_block that returns gives 0 only if no block below s_nzones is free; otherwise it gives a block
  -- below s_nzones, the lowest that was free, and its bit is set and no other changed.
  pub new_block-Allocated :
      get_super dev d ≡ some sb
      → 1 ≤ s.s_firstdatazone
      → s.s_nzones < 65536
      → Allocated sb d (new_block fuel dev d)
  unfolding new_block
  new_block-Allocated e first few =
      rw (e, Allocated)
        (decide_all (find_map 0 8 s.s_zmap) (find_map-FirstFree 0 8 s.s_zmap) first few)
