-- ===== src/Bitmap/Tests.antt =====
-- A device with blocks 11 to 99 free for fs/bitmap.c, and the theorems at it.
use os_lab2_gui.Prelude.{
  ℕ, ◌+◌, ◌≡◌, ◌≢◌, refl, Bool, true, false, none, some, arith, ◌==◌, ltb, if◌then◌else◌,
}
use os_lab2_gui.Prelude.Chain.{null}
use os_lab2_gui.Buffer.{
  Cache, take_buffer, getblk, claim, find_buffer, find_loop, scan_free, remove_from_queues,
  insert_into_queues, unlink_hash, unlink_free, skip_next, skip_prev, skip_first, link_free,
  free_next, free_prev, after_last, before_first, link_hash, push_hash, brelse,
}
use os_lab2_gui.Bitmap.{
  Disk, BlockRun, done, get_super, find_super, first_zero, find_map, release_held, drop_buffer,
  free_block, fill_buffer, fresh_buffer, new_block,
}
use os_lab2_gui.Bitmap.InUse.{in_use}
use os_lab2_gui.Bitmap.Blocks.{zmap, Allocated, new_block-Allocated}
use os_lab2_gui.Bitmap.Free.{free_block-new_block, free_block-busy}

abbrev two_buffers : ℕ → Cache
two_buffers users = record {
  head = λ a. record {
    b_blocknr = if a == 1 then 5 else 0;
    b_dev = if a == 1 then 3 else 0;
    b_uptodate = false;
    b_dirt = false;
    b_count = if a == 1 then users else 0;
    b_lock = false;
    b_prev = null;
    b_next = null;
    b_prev_free = if a == 1 then 2 else 1;
    b_next_free = if a == 1 then 2 else 1;
  };
  hash_table = λ h. if h == 6 then 1 else null;
  free_list = 1;
}

abbrev disk : ℕ → Disk
disk users = record {
  super_block = λ k. record {
    s_dev = if k == 0 then 3 else 0;
    s_ninodes = 32;
    s_nzones = 100;
    s_firstdatazone = 5;
    s_imap = λ i. none;
    s_zmap = λ i. if i == 0 then some (record { bits = λ k. ltb k 7; dirt = false }) else none;
  };
  cache = two_buffers users;
  contents = λ bh k. 255;
}

has_super : get_super 3 (disk 0) ≡ some 0
unfolding get_super find_super
has_super = refl

new_block-Allocated_example : Allocated 0 (disk 0) (new_block 4 3 (disk 0))
new_block-Allocated_example =
    new_block-Allocated 4 3 0 (disk 0) has_super (omega arith) (omega arith)

abbrev left : BlockRun (ℕ × Disk) → Disk
left (done (z, d)) = d
left _ = disk 0

after : Disk
unfolding new_block
after = left (new_block 4 3 (disk 0))

-- the lowest free block
allocates : new_block 4 3 (disk 0) ≡ done (11, after)
unfolding after new_block get_super find_super find_map first_zero fresh_buffer fill_buffer getblk
    take_buffer find_buffer find_loop scan_free claim remove_from_queues insert_into_queues
    unlink_hash unlink_free skip_next skip_prev skip_first link_free free_next free_prev after_last
    before_first link_hash push_hash brelse
allocates = refl

abbrev second : BlockRun (Bool × Disk) → Disk
second (done (free, d)) = d
second _ = disk 0

dropped : Disk
unfolding drop_buffer
dropped = second (drop_buffer 4 3 11 after)

drops : drop_buffer 4 3 11 after ≡ done (true, dropped)
unfolding dropped release_held drop_buffer after new_block get_super find_super find_map first_zero
    fresh_buffer fill_buffer getblk take_buffer find_buffer find_loop scan_free claim
    remove_from_queues insert_into_queues unlink_hash unlink_free skip_next skip_prev skip_first
    link_free free_next free_prev after_last before_first link_hash push_hash brelse
drops = refl

eleven_ne_zero : ◌≢◌ {A = ℕ} 11 0
eleven_ne_zero e = omega (arith, e)

free_block-new_block_example :
    (d2 : Disk) × (free_block 4 3 11 after ≡ done d2)
    × ((m : ℕ) → in_use (zmap 0 d2) m ≡ in_use (zmap 0 (disk 0)) m)
free_block-new_block_example =
    free_block-new_block 4 3 0 11 (disk 0) after dropped has_super (omega arith) (omega arith) refl
      allocates eleven_ne_zero drops

found_busy : find_buffer 4 3 5 (two_buffers 1) ≡ 1
unfolding find_buffer find_loop
found_busy = refl

has_super_busy : get_super 3 (disk 1) ≡ some 0
unfolding get_super find_super
has_super_busy = refl

busy_ne_null : find_buffer 4 3 5 (two_buffers 1) ≢ null
busy_ne_null e = omega (arith, found_busy, e)

free_block-busy_example :
    (d' : Disk) × (free_block 4 3 5 (disk 1) ≡ done d')
    × (d'.super_block ≡ (disk 1).super_block)
    × ((d'.cache.head (find_buffer 4 3 5 (two_buffers 1))).b_count
        ≡ ((two_buffers 1).head (find_buffer 4 3 5 (two_buffers 1))).b_count + 1)
free_block-busy_example =
    free_block-busy 4 3 0 5 (disk 1) has_super_busy (omega arith) (omega arith) busy_ne_null refl
      (rw found_busy (omega arith)) (rw found_busy (omega arith))
