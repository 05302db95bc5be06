-- ===== src/BlockQueue.antt =====
-- kernel/blk_drv/ll_rw_blk.c: the queues of requests of the block devices. A pointer to a request is its index
-- in request[] and 1, and NULL is 0. The drivers are other code: that request_fn is called is part of the result.
pub mod Sweep
pub mod Insert
pub mod Elevator
mod Tests
use os_lab2_gui.Prelude.{
  ℕ, zero, suc, ◌+◌, ◌-◌, ◌*◌, ◌/◌, ◌%◌, Bool, true, false, not, ◌&&◌, ◌||◌, ltb, leb, ◌==◌,
  if◌then◌else◌,
}
use os_lab2_gui.Prelude.Int.{ℤ, pos, negsuc, ltb_ℤ, eqb_ℤ}
use os_lab2_gui.Prelude.Table.{update}
use os_lab2_gui.Prelude.Chain.{null}
use os_lab2_gui.Buffer.{BufferHead, Cache, in_head}

-- `struct request`, without the pointer to the data
pub record Request : Type 0 where
  pub dev : ℤ
  pub cmd : ℕ
  pub errors : ℕ
  pub sector : ℕ
  pub nr_sectors : ℕ
  pub bh : ℕ
  pub next : ℕ

-- `request[]`, `current_request` of each device, and the buffers
pub record Device : Type 0 where
  pub request : ℕ → Request
  pub current_request : ℕ → ℕ
  pub cache : Cache

-- READ, WRITE, READA and WRITEA
abbrev pub read : ℕ
read = 0

abbrev pub write : ℕ
write = 1

abbrev pub reada : ℕ
reada = 2

abbrev pub writea : ℕ
writea = 3

-- `IN_ORDER(s1, s2)`
unfoldable pub in_order : Request → Request → Bool
in_order s1 s2 =
    ltb s1.cmd s2.cmd
    || (s1.cmd == s2.cmd
        && (ltb_ℤ s1.dev s2.dev || (eqb_ℤ s1.dev s2.dev && ltb s1.sector s2.sector)))

-- the test in the loop of add_request, for `tmp`, the new request and the one behind `tmp`
abbrev pub fits : Request → Request → Request → Bool
fits tmp req next = (in_order tmp req || not (in_order tmp next)) && in_order req next

-- `for ( ; tmp->next ; tmp = tmp->next) …`: the request that the new one goes behind
unfoldable pub find_place : ℕ → ℕ → ℕ → (ℕ → Request) → ℕ
find_place zero req tmp table = tmp
find_place (suc fuel) req tmp table =
    let next : ℕ = (table tmp).next in
    let rest = find_place fuel req next table in
    if next == null then tmp else if fits (table tmp) (table req) (table next) then tmp else rest

abbrev pub set_next : ℕ → Request → Request
set_next n r = record r { next = n }

-- `req->next = tmp->next; tmp->next = req;`
unfoldable pub link_behind : ℕ → ℕ → (ℕ → Request) → ℕ → Request
link_behind tmp req table =
    let table1 : ℕ → Request = update table req (set_next (table tmp).next (table req)) in
    update table1 tmp (set_next req (table1 tmp))

abbrev pub clean : BufferHead → BufferHead
clean b = record b { b_dirt = false }

-- `add_request(dev, req)`: whether `request_fn` is called, and the state
unfoldable pub add_request : ℕ → ℕ → ℕ → Device → Bool × Device
add_request fuel major req d =
    let table : ℕ → Request = update d.request req (set_next null (d.request req)) in
    let first : ℕ = d.current_request major in
    let bh : ℕ = (table req).bh in
    let cache : Cache = if bh == null then d.cache else in_head bh clean d.cache in
    if first == null
    then (
      true,
      record {
        request = table;
        current_request = update d.current_request major req;
        cache = cache;
      },
    )
    else (
      false,
      record {
        request = link_behind (find_place fuel req first table) req table;
        current_request = d.current_request;
        cache = cache;
      },
    )

-- `while (--req >= request) if (req->dev < 0) break;`, from the pointer `i` down; NULL if there is none
unfoldable pub free_request : ℕ → (ℕ → Request) → ℕ
free_request zero table = null
free_request (suc i) table =
    let rest = free_request i table in if ltb_ℤ (table (suc i)).dev (pos 0) then suc i else rest

-- How make_request ends: it returns, having called `request_fn` or not, it panics, or it sleeps for the
-- buffer or for a free request.
pub data Made : Type 0 where
  returned : Bool → Device → Made
  panics : Made
  waits_for_buffer : Made
  waits_for_request : Device → Made

abbrev pub set_lock : Bool → BufferHead → BufferHead
set_lock value b = record b { b_lock = value }

abbrev pub in_cache : ℕ → (BufferHead → BufferHead) → Device → Device
in_cache bh f d = record d { cache = in_head bh f d.cache }

-- the request that is filled in for a buffer
abbrev pub new_request : ℕ → ℕ → BufferHead → Request
new_request rw bh b = record {
  dev = pos b.b_dev;
  cmd = rw;
  errors = 0;
  sector = b.b_blocknr * 2;
  nr_sectors = 2;
  bh = bh;
  next = null;
}

-- make_request from `repeat` on, with the buffer locked
unfoldable pub queue_request : ℕ → ℕ → ℕ → Bool → ℕ → Device → Made
queue_request fuel major rw rw_ahead bh d =
    let req : ℕ = free_request (if rw == read then 32 else 21) d.request in
    let filled : Device = record d {
      request = update d.request req (new_request rw bh (d.cache.head bh));
    } in
    let (starts, d') = add_request fuel major req filled in
    if req == null
    then (if rw_ahead then returned false (in_cache bh (set_lock false) d) else waits_for_request d)
    else returned starts d'

-- `rw` without its being ahead
abbrev pub command : ℕ → ℕ
command rw = if rw == reada then read else if rw == writea then write else rw

-- `make_request(major, rw, bh)`
unfoldable pub make_request : ℕ → ℕ → ℕ → ℕ → Device → Made
make_request fuel major rw bh d =
    let b : BufferHead = d.cache.head bh in
    let rw_ahead : Bool = rw == reada || rw == writea in
    if rw_ahead && b.b_lock
    then returned false d
    else if not (command rw == read) && not (command rw == write)
    then panics
    else if b.b_lock
    then waits_for_buffer
    else if (command rw == write && not b.b_dirt) || (command rw == read && b.b_uptodate)
    then returned false (in_cache bh (set_lock false) (in_cache bh (set_lock true) d))
    else queue_request fuel major (command rw) rw_ahead bh (in_cache bh (set_lock true) d)

-- `ll_rw_block(rw, bh)`; `has_fn` says which devices have a `request_fn`
unfoldable pub ll_rw_block : (ℕ → Bool) → ℕ → ℕ → ℕ → Device → Made
ll_rw_block has_fn fuel rw bh d =
    let major : ℕ = (d.cache.head bh).b_dev / 256 in
    if leb 7 major || not (has_fn major) then returned false d else make_request fuel major rw bh d
