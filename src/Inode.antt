-- ===== src/Inode.antt =====
-- fs/inode.c: the table of inodes in memory, who uses them, and where iget finds them. The disk and the
-- queues at `i_wait` are not modelled: where a function would go on to sleep or to read or write the disk,
-- its result says so.
pub mod Empty
pub mod Get
pub mod Shared
pub mod Release
pub mod Number
mod Tests
use os_lab2_gui.Prelude.{
  ℕ, zero, suc, ◌+◌, ◌-◌, ◌/◌, ◌%◌, Bool, true, false, not, ◌&&◌, Option, none, some, ltb, leb,
  ◌==◌, if◌then◌else◌,
}
use os_lab2_gui.Prelude.Table.{update}
use os_lab2_gui.Memory.{Memory, Ran, ok, get_free_page, free_page}

-- `struct m_inode`, for the fields that are read or written here
pub record Inode : Type 0 where
  pub i_mode : ℕ
  pub i_size : ℕ
  pub i_nlinks : ℕ
  pub pipe_head : ℕ
  pub pipe_tail : ℕ
  pub i_dev : ℕ
  pub i_num : ℕ
  pub i_count : ℕ
  pub i_lock : Bool
  pub i_dirt : Bool
  pub i_pipe : Bool
  pub i_mount : Bool

-- `inode_table`, `last_inode`, two fields of each element of `super_block`, and the pages
pub record Inodes : Type 0 where
  pub table : ℕ → Inode
  pub last_inode : ℕ
  pub s_dev : ℕ → ℕ
  pub s_imount : ℕ → Option ℕ
  pub memory : Memory

-- How a function ends: it returns, it calls `panic`, it sleeps in wait_on_inode, it comes to write_inode,
-- to `truncate` and free_inode, or to sync_dev for an inode; or it ends with read_inode of an inode, which
-- is its result.
pub data InodeRun (A : Type 0) : Type 0 where
  returns : A → InodeRun A
  reads : ℕ → Inodes → InodeRun A
  panics loops : InodeRun A
  waits writes drops syncs : ℕ → InodeRun A

abbrev pub go_on : {A B : Type 0} → InodeRun A → (A → InodeRun B) → InodeRun B
go_on (returns a) f = f a
go_on (reads i s) f = reads i s
go_on panics f = panics
go_on loops f = loops
go_on (waits i) f = waits i
go_on (writes i) f = writes i
go_on (drops i) f = drops i
go_on (syncs i) f = syncs i

-- `memset(inode,0,sizeof(*inode))`
abbrev pub no_inode : Inode
no_inode = record {
  i_mode = 0;
  i_size = 0;
  i_nlinks = 0;
  pipe_head = 0;
  pipe_tail = 0;
  i_dev = 0;
  i_num = 0;
  i_count = 0;
  i_lock = false;
  i_dirt = false;
  i_pipe = false;
  i_mount = false;
}

abbrev pub set_inode : ℕ → Inode → Inodes → Inodes
set_inode i n s = record s { table = update s.table i n }

-- `if (++last_inode >= inode_table + NR_INODE) last_inode = inode_table;`
abbrev pub next_slot : ℕ → ℕ
next_slot last = if leb 32 (last + 1) then 0 else last + 1

abbrev pub is_clean : Inode → Bool
is_clean n = n.i_count == 0 && not n.i_dirt && not n.i_lock

-- the loop of get_empty_inode: `last_inode` and `inode`
unfoldable pub scan_inodes : ℕ → ℕ → Option ℕ → (ℕ → Inode) → ℕ × Option ℕ
scan_inodes zero last inode table = (last, inode)
scan_inodes (suc n) last inode table =
    let at : ℕ = next_slot last in
    let found : Option ℕ = if (table at).i_count == 0 then some at else inode in
    let rest = scan_inodes n at found table in if is_clean (table at) then (at, some at) else rest

-- what follows the loop
unfoldable pub take_inode : Option ℕ → Inodes → InodeRun (ℕ × Inodes)
take_inode none s = panics
take_inode (some i) s =
    if (s.table i).i_lock
    then waits i
    else if (s.table i).i_dirt
    then writes i
    else returns (i, set_inode i (record no_inode { i_count = 1 }) s)

-- `get_empty_inode()`
unfoldable pub get_empty_inode : Inodes → InodeRun (ℕ × Inodes)
get_empty_inode s =
    let scanned : ℕ × Option ℕ = scan_inodes 32 s.last_inode none s.table in
    take_inode scanned.1 (record s { last_inode = scanned.0 })

-- what get_pipe_inode does with the inode that it has got
unfoldable pub fill_pipe : ℕ → Inodes → InodeRun (Option ℕ × Inodes)
fill_pipe i s =
    let (page, memory) = get_free_page s.memory in
    let n : Inode = record (s.table i) { i_size = page } in
    let s1 : Inodes = record s { memory = memory } in
    if page == 0
    then returns (none, set_inode i (record n { i_count = 0 }) s1)
    else returns (
      some i,
      set_inode i (record n { i_count = 2; pipe_head = 0; pipe_tail = 0; i_pipe = true }) s1,
    )

-- `get_pipe_inode()`
unfoldable pub get_pipe_inode : Inodes → InodeRun (Option ℕ × Inodes)
get_pipe_inode s = go_on (get_empty_inode s) (λ (i, s1). fill_pipe i s1)

-- `inode->i_count--`
abbrev pub count_down : ℕ → Inodes → Inodes
count_down i s = set_inode i (record (s.table i) { i_count = (s.table i).i_count - 1 }) s

-- iput of a pipe
unfoldable pub put_pipe : ℕ → Inodes → InodeRun Inodes
put_pipe i s =
    if not ((s.table i).i_count == 1)
    then returns (count_down i s)
    else elim (free_page (s.table i).i_size s.memory) [
      | ok memory ↦ returns (
          set_inode i (record (s.table i) { i_count = 0; i_dirt = false; i_pipe = false })
            (record s { memory = memory }))
      | _ ↦ panics
    ]

-- iput from `repeat` on
unfoldable pub put_last : ℕ → Inodes → InodeRun Inodes
put_last i s =
    if ltb 1 (s.table i).i_count
    then returns (count_down i s)
    else if (s.table i).i_nlinks == 0
    then drops i
    else if (s.table i).i_dirt
    then writes i
    else returns (count_down i s)

-- `S_ISBLK(mode)`
abbrev pub s_isblk : ℕ → Bool
s_isblk mode = mode / 4096 % 16 == 6

-- `iput(inode)`
unfoldable pub iput : ℕ → Inodes → InodeRun Inodes
iput i s =
    let n : Inode = s.table i in
    if n.i_lock
    then waits i
    else if n.i_count == 0
    then panics
    else if n.i_pipe
    then put_pipe i s
    else if n.i_dev == 0
    then returns (count_down i s)
    else if s_isblk n.i_mode
    then syncs i
    else put_last i s

abbrev pub is_inode : ℕ → ℕ → Inode → Bool
is_inode dev nr n = n.i_dev == dev && n.i_num == nr

-- the first of `n` slots from `i` on with the inode `nr` of the device
unfoldable pub find_inode : ℕ → ℕ → ℕ → ℕ → (ℕ → Inode) → Option ℕ
find_inode dev nr i zero table = none
find_inode dev nr i (suc n) table =
    let rest = find_inode dev nr (i + 1) n table in
    if is_inode dev nr (table i) then some i else rest

abbrev pub is_slot : ℕ → Option ℕ → Bool
is_slot i none = false
is_slot i (some k) = k == i

-- the loop for `s_imount == inode`
unfoldable pub find_mount : ℕ → ℕ → ℕ → (ℕ → Option ℕ) → Option ℕ
find_mount i j zero s_imount = none
find_mount i j (suc n) s_imount =
    let rest = find_mount i (j + 1) n s_imount in if is_slot i (s_imount j) then some j else rest

-- `iput(empty); return inode;`
abbrev pub give_back : ℕ → ℕ → Inodes → InodeRun (ℕ × Inodes)
give_back empty i s = go_on (iput empty s) (λ s1. returns (i, s1))

-- `inode->i_count++`
abbrev pub count_up : ℕ → Inodes → Inodes
count_up i s = set_inode i (record (s.table i) { i_count = ((s.table i).i_count + 1) % 65536 }) s

-- `inode=empty; inode->i_dev = dev; inode->i_num = nr;`, with fields of 16 bits
abbrev pub name_inode : ℕ → ℕ → ℕ → Inodes → Inodes
name_inode dev nr empty s =
    set_inode empty (record (s.table empty) { i_dev = dev % 65536; i_num = nr % 65536 }) s

-- an inode on which a device is mounted: the loop goes `again` with the root of the device,
-- which is a field of 16 bits
unfoldable pub at_mount :
    (ℕ → Inodes → InodeRun (ℕ × Inodes)) → ℕ → ℕ → Option ℕ → Inodes → InodeRun (ℕ × Inodes)
at_mount again empty i none s = give_back empty i (count_up i s)
at_mount again empty i (some j) s =
    go_on (iput i (count_up i s)) (λ s1. again (s.s_dev j % 65536) s1)

-- what iget does with the slot that it has found, or without one
unfoldable pub at_inode :
    (ℕ → Inodes → InodeRun (ℕ × Inodes)) → ℕ → ℕ → ℕ → Option ℕ → Inodes → InodeRun (ℕ × Inodes)
at_inode again dev nr empty none s = reads empty (name_inode dev nr empty s)
at_inode again dev nr empty (some i) s =
    if (s.table i).i_lock
    then waits i
    else if not (s.table i).i_mount
    then give_back empty i (count_up i s)
    else at_mount again empty i (find_mount i 0 8 s.s_imount) s

-- the loop of iget with the inode `empty`, for at most `fuel` mounts
unfoldable pub iget_loop : ℕ → ℕ → ℕ → ℕ → Inodes → InodeRun (ℕ × Inodes)
iget_loop zero dev nr empty s = loops
iget_loop (suc fuel) dev nr empty s =
    at_inode (λ dev1 s1. iget_loop fuel dev1 1 empty s1) dev nr empty
      (find_inode dev nr 0 32 s.table) s

-- `iget(dev, nr)`
unfoldable pub iget : ℕ → ℕ → ℕ → Inodes → InodeRun (ℕ × Inodes)
iget fuel dev nr s =
    if dev == 0
    then panics
    else go_on (get_empty_inode s) (λ (empty, s1). iget_loop fuel dev nr empty s1)
