-- ===== src/Inode/Number/Freed.antt =====
-- fs/bitmap.c: free_inode, when the inode can be freed.
use os_lab2_gui.Prelude.{
  ℕ, ◌+◌, ◌*◌, ◌/◌, ◌%◌, ◌≤◌, ◌≡◌, ◌≢◌, false, Option, none, some, arith, ltb, ◌==◌, if◌then◌else◌,
  ap, ◌∙◌, sym,
}
use os_lab2_gui.Prelude.Table.{update, update_self, update_ne}
use os_lab2_gui.Bitmap.{MapBlock, get_super, put_bit}
use os_lab2_gui.Bitmap.InUse.{in_use, put_bit_lem}
use os_lab2_gui.Inode.{InodeRun, returns, panics, no_inode, set_inode}
use os_lab2_gui.Inode.Number.{Volume, set_imap, clear_number, free_inode}
use os_lab2_gui.Inode.Number.Lowest.{imap}

-- only the bit of the number is cleared, and only the inode in `slot`
abbrev pub Freed : ℕ → ℕ → ℕ → Volume → Volume → Type 0
Freed sb slot num v v' =
    ((m : ℕ) → in_use (imap sb v') m ≡ (if m == num then false else in_use (imap sb v) m))
    × (v'.inodes.table slot ≡ no_inode)
    × ((i : ℕ) → i ≢ slot → v'.inodes.table i ≡ v.inodes.table i)

module _ (slot sb : ℕ) (b : MapBlock) (v : Volume)
    (super : get_super (v.inodes.table slot).i_dev v.disk ≡ some sb)
    (real : (v.inodes.table slot).i_dev ≢ 0) (last_user : (v.inodes.table slot).i_count ≤ 1)
    (unlinked : (v.inodes.table slot).i_nlinks ≡ 0) (positive : 1 ≤ (v.inodes.table slot).i_num)
    (small : (v.inodes.table slot).i_num ≤ (v.disk.super_block sb).s_ninodes)
    (map_there : imap sb v ((v.inodes.table slot).i_num / 8192) ≡ some b) where
  abbrev num : ℕ
  num = (v.inodes.table slot).i_num

  abbrev freed : Volume
  freed = record {
    inodes = set_inode slot no_inode v.inodes;
    disk = set_imap sb (num / 8192) (put_bit (num % 8192) false b) v.disk;
  }

  -- what clear_number does with the buffer of a map, or without one
  abbrev with_map : Option MapBlock → InodeRun Volume
  with_map none = panics
  with_map (some c) = returns (record {
    inodes = set_inode slot no_inode v.inodes;
    disk = set_imap sb (num / 8192) (put_bit (num % 8192) false c) v.disk;
  })

  cleared : clear_number slot sb v ≡ returns freed
  unfolding clear_number
  cleared = ap with_map map_there

  freed-imap : imap sb freed ≡ update (imap sb v) (num / 8192) (some (put_bit (num % 8192) false b))
  freed-imap = ap (λ t. t.s_imap) (update_self v.disk.super_block sb _)

  number_again : num % 8192 + num / 8192 * 8192 ≡ num
  number_again = omega arith

  freed-Freed : Freed sb slot num v freed
  freed-Freed = (
    λ m.
        ap (λ maps. in_use maps m) freed-imap
        ∙ put_bit_lem (imap sb v) (num / 8192) (num % 8192) b false m map_there (omega arith)
        ∙ ap (λ k. if m == k then false else in_use (imap sb v) m) number_again,
    update_self v.inodes.table slot no_inode,
    λ i ne. update_ne v.inodes.table slot no_inode i (λ e. ne (sym e)),
  )

  -- If an inode of a device with a super block has no link and at most one user, its number is from 1 to
  -- s_ninodes and there is a map for it, free_inode returns; then exactly the bit of the number is cleared,
  -- and the inode, and no other of the table, is empty.
  pub free_inode-Freed : (v' : Volume) × (free_inode slot v ≡ returns v') × Freed sb slot num v v'
  unfolding free_inode
  free_inode-Freed =
      let device : ((v.inodes.table slot).i_dev == 0) ≡ false = ground (arith, real) in
      let alone : ltb 1 (v.inodes.table slot).i_count ≡ false = ground (arith, last_user) in
      let above : ltb num 1 ≡ false = ground (arith, positive) in
      let within : ltb (v.disk.super_block sb).s_ninodes num ≡ false = ground (arith, small) in
      (freed, rw (device, alone, unlinked, super, above, within) cleared, freed-Freed)
