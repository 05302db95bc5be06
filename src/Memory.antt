-- ===== src/Memory.antt =====
-- mm/memory.c: the pages above 1 MB and their counts, the page tables, and what happens at a write to a
-- shared page. Physical memory is a function from the addresses of 32-bit words to their values; a page
-- table entry is such a word. Masks and shifts are written as divisions.
pub mod Tables
pub mod Fault
pub mod Frames
pub mod Copy
pub mod CopyOnWrite
pub mod Write
pub mod Put
mod Tests
use os_lab2_gui.Prelude.{
  ℕ, zero, suc, ◌+◌, ◌-◌, ◌*◌, ◌/◌, ◌%◌, Bool, ◌&&◌, Option, none, some, ltb, leb, ◌==◌,
  if◌then◌else◌,
}
use os_lab2_gui.Prelude.Table.{update}

abbrev pub low_mem : ℕ
low_mem = 1048576

-- PAGING_MEMORY >> 12
abbrev pub paging_pages : ℕ
paging_pages = 3840

-- USED
abbrev pub used : ℕ
used = 100

-- `mem_map`, the memory and HIGH_MEMORY
pub record Memory : Type 0 where
  pub mem_map : ℕ → ℕ
  pub mem : ℕ → ℕ
  pub high_memory : ℕ

-- How a function ends: it returns, it calls `panic`, or it ends the process by `oom`.
pub data Ran (A : Type 0) : Type 0 where
  ok : A → Ran A
  panicked : Ran A
  out_of_memory : Ran A

abbrev pub and_then : {A B : Type 0} → Ran A → (A → Ran B) → Ran B
and_then (ok a) f = f a
and_then panicked f = panicked
and_then out_of_memory f = out_of_memory

-- `MAP_NR(addr)`
abbrev pub map_nr : ℕ → ℕ
map_nr addr = (addr - low_mem) / 4096

abbrev pub write_word : ℕ → ℕ → Memory → Memory
write_word a v s = record s { mem = update s.mem a v }

abbrev pub set_map : ℕ → ℕ → Memory → Memory
set_map i v s = record s { mem_map = update s.mem_map i v }

-- `repne scasb` from the last of the counts down: the highest index below `i` whose count is 0
unfoldable pub scan_map : (ℕ → ℕ) → ℕ → Option ℕ
scan_map m zero = none
scan_map m (suc i) = if m i == 0 then some i else scan_map m i

abbrev pub in_page : ℕ → ℕ → Bool
in_page page a = leb page a && ltb a (page + 4096)

-- `rep stosl`
abbrev pub clear_page : ℕ → (ℕ → ℕ) → ℕ → ℕ
clear_page page m a = if in_page page a then 0 else m a

-- `get_free_page()`
unfoldable pub get_free_page : Memory → ℕ × Memory
get_free_page s = elim (scan_map s.mem_map paging_pages) [
  | none ↦ (0, s)
  | some i ↦ (
    i * 4096 + low_mem,
    record s { mem_map = update s.mem_map i 1; mem = clear_page (i * 4096 + low_mem) s.mem },
  )
]

-- `free_page(addr)`
unfoldable pub free_page : ℕ → Memory → Ran Memory
free_page addr s =
    if ltb addr low_mem
    then ok s
    else if leb s.high_memory addr
    then panicked
    else if s.mem_map (map_nr addr) == 0
    then panicked
    else ok (set_map (map_nr addr) (s.mem_map (map_nr addr) - 1) s)

-- `mem_map[i++] = v`, `n` times
unfoldable pub fill_map : ℕ → ℕ → ℕ → (ℕ → ℕ) → ℕ → ℕ
fill_map zero i v m = m
fill_map (suc n) i v m = fill_map n (i + 1) v (update m i v)

-- `mem_init(start_mem, end_mem)`, for `start_mem` not above `end_mem`
unfoldable pub mem_init : ℕ → ℕ → Memory → Memory
mem_init start_mem end_mem s = record s {
  high_memory = end_mem;
  mem_map =
      fill_map ((end_mem - start_mem) / 4096) (map_nr start_mem) 0
        (fill_map paging_pages 0 used s.mem_map);
}
