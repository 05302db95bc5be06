-- ===== src/Inode/Tests.antt =====
-- A table with the inode 7 of the device 3 in slot 1, and the theorems at it.
use os_lab2_gui.Prelude.{◌≡◌, refl, none, some, arith, ◌==◌, if◌then◌else◌, ℕ, ltb, Option, false}
use os_lab2_gui.Memory.{Memory, get_free_page, scan_map}
use os_lab2_gui.Inode.Release.{Released, get_pipe_inode-Released}
use os_lab2_gui.Inode.{iput, get_pipe_inode, Inodes, returns, no_inode, iget}
use os_lab2_gui.Inode.Empty.{IsFirst}
use os_lab2_gui.Inode.Get.{IsUnique, After, iget-IsUnique}
use os_lab2_gui.Inode.Shared.{Counted, iget-Counted}
use os_lab2_gui.Prelude.Chain.{null}
use os_lab2_gui.Buffer.{Cache}
use os_lab2_gui.Bitmap.{Disk, find_super, get_super}
use os_lab2_gui.Inode.Number.{Volume, new_inode, free_inode}
use os_lab2_gui.Inode.Number.Lowest.{Numbered, new_inode-Numbered}
use os_lab2_gui.Inode.Number.Freed.{Freed, free_inode-Freed}

abbrev pages : Memory
pages = record { mem_map = λ i. if i == 9 then 0 else 100; mem = λ a. 5; high_memory = 16777216 }

-- slot 1 holds the inode, the others are unused
abbrev inodes : Inodes
inodes = record {
  table = λ i. record no_inode {
    i_mode = 33188;
    i_nlinks = 1;
    i_dev = if i == 1 then 3 else 0;
    i_num = if i == 1 then 7 else 0;
    i_count = if i == 1 then 2 else 0;
  };
  last_inode = 0;
  s_dev = λ j. 0;
  s_imount = λ j. none;
  memory = pages;
}

inodes-IsUnique : IsUnique inodes.table
inodes-IsUnique i j hi hj dev same_dev same_num = ground arith

-- slot 1 is in use, so slot 2 is the first
second-IsFirst : IsFirst 1 0 inodes.table
second-IsFirst = (refl, λ e below. ground arith)

iget-IsUnique_example : After IsUnique (λ r. r.1) (iget 9 3 8 inodes)
iget-IsUnique_example = iget-IsUnique 9 3 8 inodes (omega arith) (omega arith) inodes-IsUnique

iget-Counted_example : (s' : Inodes) × (iget 1 3 7 inodes ≡ returns (1, s')) × Counted 1 2 inodes s'
iget-Counted_example =
    iget-Counted 0 1 1 inodes inodes-IsUnique (omega arith) (omega arith) second-IsFirst
      (omega arith) (omega arith) (omega arith) refl refl

page_of_9 : (get_free_page pages).0 ≡ 1085440
unfolding get_free_page scan_map
page_of_9 = refl

get_pipe_inode-Released_example :
    (s1 s2 s3 : Inodes) × (get_pipe_inode inodes ≡ returns (some 2, s1))
    × (iput 2 s1 ≡ returns s2)
    × (iput 2 s2 ≡ returns s3)
    × Released 2 inodes s3
get_pipe_inode-Released_example =
    get_pipe_inode-Released 1 inodes (omega arith) (omega arith) second-IsFirst
      (omega (arith, page_of_9)) (omega (arith, page_of_9))

abbrev no_buffers : Cache
no_buffers = record {
  head = λ a. record {
    b_blocknr = 0;
    b_dev = 0;
    b_uptodate = false;
    b_dirt = false;
    b_count = 0;
    b_lock = false;
    b_prev = null;
    b_next = null;
    b_prev_free = a;
    b_next_free = a;
  };
  hash_table = λ h. null;
  free_list = 1;
}

-- the device 3, with 32 inodes, of which the numbers below 8 are in use
abbrev disk : Disk
disk = record {
  super_block = λ k. record {
    s_dev = if k == 0 then 3 else 0;
    s_ninodes = 32;
    s_nzones = 100;
    s_firstdatazone = 5;
    s_imap = λ i. if i == 0 then some (record { bits = λ k. ltb k 8; dirt = false }) else none;
    s_zmap = λ i. none;
  };
  cache = no_buffers;
  contents = λ bh k. 0;
}

has_super : get_super 3 disk ≡ some 0
unfolding get_super find_super
has_super = refl

abbrev volume : Volume
volume = record { inodes = inodes; disk = disk }

new_inode-Numbered_example :
    (o : Option ℕ) × (v' : Volume) × (new_inode 3 volume ≡ returns (o, v'))
    × Numbered 3 0 2 volume o v'
new_inode-Numbered_example =
    new_inode-Numbered 3 0 1 volume has_super (omega arith) (omega arith) second-IsFirst

-- the last user of the inode 7, which has no link any more
abbrev unlinked : Volume
unlinked = record {
  inodes = record inodes {
    table = λ i. record (inodes.table i) { i_nlinks = 0; i_count = if i == 1 then 1 else 0 };
  };
  disk = disk;
}

free_inode-Freed_example :
    (v' : Volume) × (free_inode 1 unlinked ≡ returns v') × Freed 0 1 7 unlinked v'
free_inode-Freed_example =
    free_inode-Freed 1 0 (record { bits = λ k. ltb k 8; dirt = false }) unlinked has_super
      (omega arith) (omega arith) refl (omega arith) (omega arith) refl
