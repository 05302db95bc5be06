-- ===== src/Bitmap.antt =====
-- fs/bitmap.c, with get_super of fs/super.c: the bits of blocks and inodes in use. The data of a map is a
-- function from bit numbers. A buffer of a map is its slot in `s_zmap` or `s_imap`, with its `b_dirt`.
pub mod Search
pub mod InUse
pub mod Blocks
pub mod Free
mod Tests
use os_lab2_gui.Prelude.{
  ℕ, zero, suc, ◌+◌, ◌-◌, ◌*◌, ◌/◌, ◌%◌, Bool, true, false, not, ◌&&◌, ◌||◌, Option, none, some,
  ltb, leb, ◌==◌, if◌then◌else◌,
}
use os_lab2_gui.Prelude.Bits.{Bits}
use os_lab2_gui.Prelude.Table.{update}
use os_lab2_gui.Prelude.Chain.{null}
use os_lab2_gui.Buffer.{
  BufferHead, Cache, Getblk, returned, panics, in_head, count_once_more, find_buffer, getblk,
  brelse,
}

-- the buffer of a bitmap block: its bits and `b_dirt`
pub record MapBlock : Type 0 where
  pub bits : Bits
  pub dirt : Bool

-- `struct super_block`
pub record Super : Type 0 where
  pub s_dev : ℕ
  pub s_ninodes : ℕ
  pub s_nzones : ℕ
  pub s_firstdatazone : ℕ
  pub s_imap : ℕ → Option MapBlock
  pub s_zmap : ℕ → Option MapBlock

-- `super_block[]`, the buffers and what they hold
pub record Disk : Type 0 where
  pub super_block : ℕ → Super
  pub cache : Cache
  pub contents : ℕ → ℕ → ℕ

-- How a function ends: it returns, it calls `panic`, it reads through a NULL pointer, or it
-- does not come to its end without sleep, or within the fuel.
pub data BlockRun (A : Type 0) : Type 0 where
  done : A → BlockRun A
  panicked faulted asleep : BlockRun A

abbrev pub then_do : {A B : Type 0} → BlockRun A → (A → BlockRun B) → BlockRun B
then_do (done a) f = f a
then_do panicked f = panicked
then_do faulted f = faulted
then_do asleep f = asleep

-- `get_super(dev)`, for super blocks that are not locked: the index of its element, of `n` from `i` on
unfoldable pub find_super : ℕ → ℕ → ℕ → (ℕ → Super) → Option ℕ
find_super dev i zero table = none
find_super dev i (suc n) table =
    if (table i).s_dev == dev then some i else find_super dev (i + 1) n table

unfoldable pub get_super : ℕ → Disk → Option ℕ
get_super dev d = if dev == 0 then none else find_super dev 0 8 d.super_block

-- `find_first_zero(addr)`: the first bit from `i` on that is 0, of `n`; `i + n` if there is none
unfoldable pub first_zero : ℕ → ℕ → Bits → ℕ
first_zero i zero bits = i
first_zero i (suc n) bits = if bits i then first_zero (i + 1) n bits else i

abbrev pub find_first_zero : Bits → ℕ
find_first_zero bits = first_zero 0 8192 bits

-- the loop over the slots of `s_zmap` or `s_imap`, of `n` from `i` on: the slot and the bit
unfoldable pub find_map : ℕ → ℕ → (ℕ → Option MapBlock) → Option (ℕ × ℕ × MapBlock)
find_map i zero maps = none
find_map i (suc n) maps =
    let rest = find_map (i + 1) n maps in
    elim (maps i) [
      | none ↦ rest
      | some b ↦
          if ltb (find_first_zero b.bits) 8192 then some (i, find_first_zero b.bits, b) else rest
    ]

-- `set_bit` or `clear_bit`, with `b_dirt = 1`
abbrev pub put_bit : ℕ → Bool → MapBlock → MapBlock
put_bit j value b = record b { bits = update b.bits j value; dirt = true }

abbrev pub set_zmap : ℕ → ℕ → MapBlock → Disk → Disk
set_zmap sb i b d = record d {
  super_block =
      update d.super_block sb
        (record (d.super_block sb) { s_zmap = update (d.super_block sb).s_zmap i (some b) });
}

abbrev pub with_cache : Disk → Cache → Disk
with_cache d c = record d { cache = c }

-- what free_block does with a buffer of the block: whether the block can be freed
unfoldable pub release_held : ℕ → Cache → Disk → BlockRun (Bool × Disk)
release_held bh held d =
    let clean : Cache = in_head bh (λ b. record b { b_dirt = false; b_uptodate = false }) held in
    if not ((held.head bh).b_count == 1)
    then done (false, with_cache d held)
    else elim (brelse bh clean) [ none ↦ panicked | some c ↦ done (true, with_cache d c) ]

-- `bh = get_hash_table(dev, block)`, and what follows if there is a buffer
unfoldable pub drop_buffer : ℕ → ℕ → ℕ → Disk → BlockRun (Bool × Disk)
drop_buffer fuel dev block d =
    let bh : ℕ = find_buffer fuel dev block d.cache in
    if bh == null
    then done (true, d)
    else if (d.cache.head bh).b_lock
    then asleep
    else release_held bh (in_head bh count_once_more d.cache) d

-- `clear_bit(block & 8191, s_zmap[block / 8192]->b_data)` and what follows it
unfoldable pub clear_zone : ℕ → ℕ → Disk → BlockRun Disk
clear_zone sb block d = elim ((d.super_block sb).s_zmap (block / 8192)) [
  | none ↦ faulted
  | some b ↦
      if b.bits (block % 8192)
      then done (set_zmap sb (block / 8192) (put_bit (block % 8192) false b) d)
      else panicked
]

-- `free_block(dev, block)`
unfoldable pub free_block : ℕ → ℕ → ℕ → Disk → BlockRun Disk
free_block fuel dev block d = elim (get_super dev d) [
  | none ↦ panicked
  | some sb ↦
      let s : Super = d.super_block sb in
      if ltb block s.s_firstdatazone || leb s.s_nzones block
      then panicked
      else then_do (drop_buffer fuel dev block d)
          (λ (free, d1). if free then clear_zone sb (block + 1 - s.s_firstdatazone) d1 else done d1)
]

-- what getblk gives for a new block: a buffer that is cleared, up to date and dirty
unfoldable pub fill_buffer : Disk → Getblk → BlockRun Disk
fill_buffer d (returned bh c) =
    if not ((c.head bh).b_count == 1)
    then panicked
    else elim (brelse bh (in_head bh (λ b. record b { b_uptodate = true; b_dirt = true }) c)) [
      | none ↦ panicked
      | some c1 ↦ done (record d { cache = c1; contents = update d.contents bh (λ k. 0) })
    ]
fill_buffer d panics = panicked
fill_buffer d _ = asleep

unfoldable pub fresh_buffer : ℕ → ℕ → ℕ → Disk → BlockRun Disk
fresh_buffer fuel dev j d = fill_buffer d (getblk fuel dev j d.cache)

-- `new_block(dev)`: the block, or 0
unfoldable pub new_block : ℕ → ℕ → Disk → BlockRun (ℕ × Disk)
new_block fuel dev d = elim (get_super dev d) [
  | none ↦ panicked
  | some sb ↦
      let s : Super = d.super_block sb in
      elim (find_map 0 8 s.s_zmap) [
        | none ↦ done (0, d)
        | some (i, j, b) ↦
            let zone : ℕ = j + i * 8192 + s.s_firstdatazone - 1 in
            let d1 : Disk = set_zmap sb i (put_bit j true b) d in
            if b.bits j
            then panicked
            else if leb s.s_nzones zone
            then done (0, d1)
            else then_do (fresh_buffer fuel dev zone d1) (λ d2. done (zone, d2))
      ]
]
