-- ===== src/Memory/Tests.antt =====
-- A small memory of mm/memory.c, and the theorems at it.
use os_lab2_gui.Prelude.{
  ℕ, ◌+◌, ◌*◌, ◌%◌, ◌<◌, ◌≡◌, ◌≤◌, ◌≢◌, ◌⊎◌, refl, true, false, arith, ◌==◌, if◌then◌else◌,
}
use os_lab2_gui.Memory.{low_mem, Memory, ok, out_of_memory, paging_pages, get_free_page, scan_map}
use os_lab2_gui.Memory.Tables.{copy_entries, present, dir_of}
use os_lab2_gui.Memory.Fault.{un_wp_page, put_page}
use os_lab2_gui.Memory.Copy.{Outside, kept_entry, copied_entry, refs, copy_entries_lem}
use os_lab2_gui.Memory.CopyOnWrite.{Private}
use os_lab2_gui.Memory.Write.{un_wp_page-Private}
use os_lab2_gui.Memory.Put.{Maps, put_page-Maps}

-- Pages 0 and 1 are in use, the first by two tables; a table at 4096 has one entry, for page 0.
abbrev memory : Memory
memory = record {
  mem_map = λ i. if i == 0 then 2 else if i == 1 then 1 else 0;
  mem = λ a. if a == 4096 then 1048581 else 0;
  high_memory = 16777216;
}

false_not_true : false ≢ true
false_not_true e = cc

-- the last page
got_last : (get_free_page memory).0 ≡ 3839 * 4096 + 1048576
unfolding get_free_page scan_map
got_last = refl

got_ne_zero : (get_free_page memory).0 ≢ 0
got_ne_zero e = omega (arith, got_last, e)

got_below : (get_free_page memory).0 < 16777216
got_below = omega (arith, got_last)

memory-bytes : (i : ℕ) → memory.mem_map i < 256
memory-bytes i = ground arith

copy_entries_lem_example :
    let s' = copy_entries 1024 4096 8192 memory in
    ((i : ℕ)
      → i < 1024
      → (s'.mem (4096 + 4 * i) ≡ kept_entry (memory.mem (4096 + 4 * i)))
        × (s'.mem (8192 + 4 * i)
            ≡ copied_entry (memory.mem (4096 + 4 * i)) (memory.mem (8192 + 4 * i))))
    × ((a : ℕ) → Outside 1024 4096 a → Outside 1024 8192 a → s'.mem a ≡ memory.mem a)
    × ((i : ℕ) → s'.mem_map i ≡ (memory.mem_map i + refs 1024 4096 memory.mem i) % 256)
copy_entries_lem_example = copy_entries_lem 1024 4096 8192 memory (omega arith) memory-bytes

un_wp_page-Private_example :
    ((un_wp_page 4096 memory ≡ out_of_memory)
      × (low_mem ≤ 1048576 → memory.mem_map 0 ≢ 1)
      × ((i : ℕ) → i < paging_pages → memory.mem_map i ≢ 0))
    ⊎ ((s' : Memory) × (un_wp_page 4096 memory ≡ ok s') × Private 4096 memory s')
un_wp_page-Private_example =
    un_wp_page-Private 4096 memory refl refl (λ i lt z. ground arith) (λ le. omega arith)

put_page-Maps_example :
    let (put, s') = put_page 1052672 4194304 memory in
    ((put ≡ 0)
      × (s' ≡ memory)
      × (present (memory.mem (dir_of 4194304)) ≡ false)
      × ((i : ℕ) → i < paging_pages → memory.mem_map i ≢ 0))
    ⊎ ((put ≡ 1052672) × Maps s' 4194304 1052672)
put_page-Maps_example =
    put_page-Maps 1052672 4194304 memory (omega arith) (λ e. absurd (false_not_true e))
