-- ===== src/Buffer.antt =====
-- fs/buffer.c: the buffer heads, their hash queues and the free list. A pointer to a buffer head is a number
-- and NULL is 0. getblk runs up to the first place where it sleeps.
pub mod Queue
pub mod Hash
pub mod Unlink
pub mod Link
pub mod Same
pub mod Claim
pub mod Scan
mod Tests
use Prim.Native.Nat.{bit_xor}
use os_lab2_gui.Prelude.{
  ℕ, zero, suc, ◌+◌, ◌-◌, ◌*◌, ◌%◌, Bool, true, false, not, ◌&&◌, ◌||◌, Option, none, some, ltb,
  ◌==◌, if◌then◌else◌,
}
use os_lab2_gui.Prelude.Table.{update}
use os_lab2_gui.Prelude.Chain.{null}

-- `struct buffer_head`, without the data
pub record BufferHead : Type 0 where
  pub b_blocknr : ℕ
  pub b_dev : ℕ
  pub b_uptodate : Bool
  pub b_dirt : Bool
  pub b_count : ℕ
  pub b_lock : Bool
  pub b_prev : ℕ
  pub b_next : ℕ
  pub b_prev_free : ℕ
  pub b_next_free : ℕ

-- the buffer heads by their address, `hash_table` and `free_list`
pub record Cache : Type 0 where
  pub head : ℕ → BufferHead
  pub hash_table : ℕ → ℕ
  pub free_list : ℕ

-- `_hashfn(dev, block)`
abbrev pub hash_fn : ℕ → ℕ → ℕ
hash_fn dev block = bit_xor dev block % 307

-- an assignment to fields of the buffer head at `a`
abbrev pub in_head : ℕ → (BufferHead → BufferHead) → Cache → Cache
in_head a f c = record c { head = update c.head a (f (c.head a)) }

abbrev pub set_prev : ℕ → BufferHead → BufferHead
set_prev p b = record b { b_prev = p }

abbrev pub set_next : ℕ → BufferHead → BufferHead
set_next p b = record b { b_next = p }

abbrev pub set_prev_free : ℕ → BufferHead → BufferHead
set_prev_free p b = record b { b_prev_free = p }

abbrev pub set_next_free : ℕ → BufferHead → BufferHead
set_next_free p b = record b { b_next_free = p }

-- `if (a) …`, for a pointer
abbrev pub at_pointer : ℕ → (BufferHead → BufferHead) → Cache → Cache
at_pointer a f c = if a == null then c else in_head a f c

abbrev pub set_hash : ℕ → ℕ → Cache → Cache
set_hash h a c = record c { hash_table = update c.hash_table h a }

-- `remove_from_queues`: the hash queue
unfoldable pub unlink_hash : ℕ → Cache → Cache
unlink_hash bh c =
    let c1 : Cache = at_pointer (c.head bh).b_next (set_prev (c.head bh).b_prev) c in
    let c2 : Cache = at_pointer (c1.head bh).b_prev (set_next (c1.head bh).b_next) c1 in
    let h : ℕ = hash_fn (c2.head bh).b_dev (c2.head bh).b_blocknr in
    if c2.hash_table h == bh then set_hash h (c2.head bh).b_next c2 else c2

-- `remove_from_queues`: the free list, one assignment after the other
unfoldable pub skip_next : ℕ → Cache → Cache
skip_next bh c = in_head (c.head bh).b_prev_free (set_next_free (c.head bh).b_next_free) c

unfoldable pub skip_prev : ℕ → Cache → Cache
skip_prev bh c = in_head (c.head bh).b_next_free (set_prev_free (c.head bh).b_prev_free) c

unfoldable pub skip_first : ℕ → Cache → Cache
skip_first bh c = if c.free_list == bh then record c { free_list = (c.head bh).b_next_free } else c

unfoldable pub unlink_free : ℕ → Cache → Cache
unlink_free bh c = skip_first bh (skip_prev bh (skip_next bh c))

-- `remove_from_queues(bh)`; `none` is the panic
unfoldable pub remove_from_queues : ℕ → Cache → Option Cache
remove_from_queues bh c =
    let c' : Cache = unlink_hash bh c in
    if (c'.head bh).b_prev_free == null || (c'.head bh).b_next_free == null
    then none
    else some (unlink_free bh c')

-- `insert_into_queues`: the end of the free list, one assignment after the other
unfoldable pub free_next : ℕ → Cache → Cache
free_next bh c = in_head bh (set_next_free c.free_list) c

unfoldable pub free_prev : ℕ → Cache → Cache
free_prev bh c = in_head bh (set_prev_free (c.head c.free_list).b_prev_free) c

unfoldable pub after_last : ℕ → Cache → Cache
after_last bh c = in_head (c.head c.free_list).b_prev_free (set_next_free bh) c

unfoldable pub before_first : ℕ → Cache → Cache
before_first bh c = in_head c.free_list (set_prev_free bh) c

unfoldable pub link_free : ℕ → Cache → Cache
link_free bh c = before_first bh (after_last bh (free_prev bh (free_next bh c)))

-- `insert_into_queues`: at the front of its hash queue. The last assignment is made even if `b_next` is NULL.
unfoldable pub push_hash : ℕ → ℕ → Cache → Cache
push_hash h bh c =
    let c1 : Cache = set_hash h bh (in_head bh (set_next (c.hash_table h)) c) in
    in_head (c1.head bh).b_next (set_prev bh) c1

-- `insert_into_queues`: the hash queue, for a buffer with a device
unfoldable pub link_hash : ℕ → Cache → Cache
link_hash bh c =
    let h : ℕ = hash_fn (c.head bh).b_dev (c.head bh).b_blocknr in
    let c1 : Cache = in_head bh (λ b. set_next null (set_prev null b)) c in
    if (c.head bh).b_dev == 0 then c1 else push_hash h bh c1

unfoldable pub insert_into_queues : ℕ → Cache → Cache
insert_into_queues bh c = link_hash bh (link_free bh c)

abbrev pub holds_block : ℕ → ℕ → BufferHead → Bool
holds_block dev block b = b.b_dev == dev && b.b_blocknr == block

-- `find_buffer(dev, block)`: its loop, from `tmp` on
unfoldable pub find_loop : ℕ → ℕ → ℕ → ℕ → Cache → ℕ
find_loop zero dev block tmp c = null
find_loop (suc fuel) dev block tmp c =
    let rest = find_loop fuel dev block (c.head tmp).b_next c in
    if tmp == null then null else if holds_block dev block (c.head tmp) then tmp else rest

unfoldable pub find_buffer : ℕ → ℕ → ℕ → Cache → ℕ
find_buffer fuel dev block c = find_loop fuel dev block (c.hash_table (hash_fn dev block)) c

-- `BADNESS(bh)`
abbrev pub badness : BufferHead → ℕ
badness b = (if b.b_dirt then 2 else 0) + (if b.b_lock then 1 else 0)

-- `!tmp->b_count && (!bh || BADNESS(tmp) < BADNESS(bh))`
abbrev pub improves : ℕ → ℕ → Cache → Bool
improves tmp bh c =
    (c.head tmp).b_count == 0 && (bh == null || ltb (badness (c.head tmp)) (badness (c.head bh)))

-- the loop of getblk over the free list, with the best buffer so far; `none` when the fuel is out
unfoldable pub scan_free : ℕ → ℕ → ℕ → Cache → Option ℕ
scan_free zero tmp bh c = none
scan_free (suc fuel) tmp bh c =
    let best : ℕ = if improves tmp bh c then tmp else bh in
    let rest = scan_free fuel (c.head tmp).b_next_free best c in
    if improves tmp bh c && badness (c.head tmp) == 0
    then some tmp
    else if (c.head tmp).b_next_free == c.free_list
    then some best
    else rest

-- the buffer, when it is the only one of its kind
abbrev pub held_clean : BufferHead → BufferHead
held_clean b = record b { b_count = 1; b_dirt = false; b_uptodate = false }

-- `b_dev` has 16 bits
abbrev pub set_block : ℕ → ℕ → BufferHead → BufferHead
set_block dev block b = record b { b_dev = dev % 65536; b_blocknr = block }

-- the end of getblk; `none` is the panic
unfoldable pub claim : ℕ → ℕ → ℕ → Cache → Option Cache
claim dev block bh c = elim (remove_from_queues bh (in_head bh held_clean c)) [
  | none ↦ none
  | some c1 ↦ some (insert_into_queues bh (in_head bh (set_block dev block) c1))
]

-- How a run of getblk goes on: it returns a buffer, waits for a locked one, writes back the device of a dirty
-- one, sleeps until a buffer is released, begins again, or panics; `endless` when the fuel is out.
pub data Getblk : Type 0 where
  returned waits writes_back : ℕ → Cache → Getblk
  no_buffer repeats panics endless : Getblk

abbrev pub count_once_more : BufferHead → BufferHead
count_once_more b = record b { b_count = (b.b_count + 1) % 256 }

-- what getblk does with the buffer that the loop has found
unfoldable pub take_buffer : ℕ → ℕ → ℕ → ℕ → Cache → Getblk
take_buffer fuel dev block bh c =
    if bh == null
    then no_buffer
    else if (c.head bh).b_lock
    then waits bh c
    else if not ((c.head bh).b_count == 0)
    then repeats
    else if (c.head bh).b_dirt
    then writes_back bh c
    else if not (find_buffer fuel dev block c == null)
    then repeats
    else elim (claim dev block bh c) [ none ↦ panics | some c' ↦ returned bh c' ]

-- `getblk(dev, block)`, up to its return or its first sleep
unfoldable pub getblk : ℕ → ℕ → ℕ → Cache → Getblk
getblk fuel dev block c =
    let found : ℕ = find_buffer fuel dev block c in
    if not (found == null)
    then (if (c.head found).b_lock
        then waits found (in_head found count_once_more c)
        else returned found (in_head found count_once_more c))
    else elim (scan_free fuel c.free_list null c) [
      | none ↦ endless
      | some bh ↦ take_buffer fuel dev block bh c
    ]

-- `brelse(buf)` for a buffer that is not locked; `none` is the panic
unfoldable pub brelse : ℕ → Cache → Option Cache
brelse buf c =
    if buf == null
    then some c
    else if (c.head buf).b_count == 0
    then none
    else some (in_head buf (λ b. record b { b_count = b.b_count - 1 }) c)
