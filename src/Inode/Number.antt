-- ===== src/Inode/Number.antt =====
-- fs/bitmap.c: new_inode and free_inode, over the table of inodes and the maps of Bitmap. The user, the group
-- and the times of an inode are not modelled.
pub mod Lowest
pub mod Freed
use os_lab2_gui.Prelude.{
  ℕ, ◌+◌, ◌*◌, ◌/◌, ◌%◌, Bool, true, false, not, ◌||◌, Option, none, some, ltb, ◌==◌, if◌then◌else◌,
}
use os_lab2_gui.Prelude.Table.{update}
use os_lab2_gui.Bitmap.{MapBlock, Super, Disk, get_super, find_map, put_bit}
use os_lab2_gui.Inode.{
  Inode, Inodes, InodeRun, returns, panics, go_on, no_inode, set_inode, get_empty_inode, iput,
}

-- the inodes in memory, and the super blocks with their maps
pub record Volume : Type 0 where
  pub inodes : Inodes
  pub disk : Disk

abbrev pub set_imap : ℕ → ℕ → MapBlock → Disk → Disk
set_imap sb i b d = record d {
  super_block =
      update d.super_block sb
        (record (d.super_block sb) { s_imap = update (d.super_block sb).s_imap i (some b) });
}

-- the assignments to the new inode, with fields of 16 bits
abbrev pub fresh_inode : ℕ → ℕ → Inode → Inode
fresh_inode dev num n = record n {
  i_count = 1;
  i_nlinks = 1;
  i_dev = dev % 65536;
  i_dirt = true;
  i_num = num % 65536;
}

-- `iput(inode); return NULL;`
unfoldable pub no_number : ℕ → Volume → InodeRun (Option ℕ × Volume)
no_number inode v = go_on (iput inode v.inodes) (λ s. returns (none, record v { inodes = s }))

-- what follows the search for a free bit
unfoldable pub number_inode :
    ℕ → ℕ → Option (ℕ × ℕ × MapBlock) → ℕ → Volume → InodeRun (Option ℕ × Volume)
number_inode dev sb none inode v = no_number inode v
number_inode dev sb (some (i, j, b)) inode v =
    if ltb (v.disk.super_block sb).s_ninodes (j + i * 8192)
    then no_number inode v
    else if b.bits j
    then panics
    else returns (
      some inode,
      record {
        inodes = set_inode inode (fresh_inode dev (j + i * 8192) (v.inodes.table inode)) v.inodes;
        disk = set_imap sb i (put_bit j true b) v.disk;
      },
    )

-- `new_inode(dev)`
unfoldable pub new_inode : ℕ → Volume → InodeRun (Option ℕ × Volume)
new_inode dev v = go_on (get_empty_inode v.inodes) (λ (inode, s). elim (get_super dev v.disk) [
  | none ↦ panics
  | some sb ↦
      number_inode dev sb (find_map 0 8 (v.disk.super_block sb).s_imap) inode
        (record v { inodes = s })
])

-- `clear_bit(inode->i_num&8191, bh->b_data)` and what follows it
unfoldable pub clear_number : ℕ → ℕ → Volume → InodeRun Volume
clear_number inode sb v =
    let num : ℕ = (v.inodes.table inode).i_num in
    elim ((v.disk.super_block sb).s_imap (num / 8192)) [
      | none ↦ panics
      | some b ↦ returns (record {
        inodes = set_inode inode no_inode v.inodes;
        disk = set_imap sb (num / 8192) (put_bit (num % 8192) false b) v.disk;
      })
    ]

-- `free_inode(inode)`
unfoldable pub free_inode : ℕ → Volume → InodeRun Volume
free_inode inode v =
    let n : Inode = v.inodes.table inode in
    if n.i_dev == 0
    then returns (record v { inodes = set_inode inode no_inode v.inodes })
    else if ltb 1 n.i_count
    then panics
    else if not (n.i_nlinks == 0)
    then panics
    else elim (get_super n.i_dev v.disk) [
      | none ↦ panics
      | some sb ↦
          if ltb n.i_num 1 || ltb (v.disk.super_block sb).s_ninodes n.i_num
          then panics
          else clear_number inode sb v
    ]
