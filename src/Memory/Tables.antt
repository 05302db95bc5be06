-- ===== src/Memory/Tables.antt =====
-- mm/memory.c: free_page_tables and copy_page_tables.
use os_lab2_gui.Prelude.{
  ℕ, zero, suc, ◌+◌, ◌-◌, ◌*◌, ◌/◌, ◌%◌, ◌^◌, Bool, true, false, not, ◌||◌, ltb, ◌==◌,
  if◌then◌else◌,
}
use os_lab2_gui.Prelude.Int.{ℤ, pos, negsuc}
use os_lab2_gui.Memory.{
  Memory, Ran, ok, panicked, and_then, low_mem, map_nr, write_word, set_map, get_free_page,
  free_page,
}

-- `1 & entry`
abbrev pub present : ℕ → Bool
present entry = entry % 2 == 1

-- `0xfffff000 & entry`
abbrev pub frame_of : ℕ → ℕ
frame_of entry = entry / 4096 * 4096

-- `entry & ~2`
abbrev pub write_protect : ℕ → ℕ
write_protect entry = if entry / 2 % 2 == 1 then entry - 2 else entry

-- `page | 7`: present, writable, for the user
abbrev pub or_7 : ℕ → ℕ
or_7 page = page / 8 * 8 + 7

-- `addr & 0x3fffff`
abbrev pub offset_4m : ℕ → ℕ
offset_4m addr = addr % 4194304

-- the address of the directory entry, `(addr >> 20) & 0xffc`
abbrev pub dir_of : ℕ → ℕ
dir_of addr = addr / 4194304 % 1024 * 4

-- `(size + 0x3fffff) >> 22`, on 32 bits
abbrev pub dir_count : ℕ → ℕ
dir_count size = (size + 4194303) % 2 ^ 32 / 4194304

-- one entry of a table that is freed
unfoldable pub free_entry : ℕ → Memory → Ran Memory
free_entry pg_table s =
    let freed : Ran Memory =
      if present (s.mem pg_table) then free_page (frame_of (s.mem pg_table)) s else ok s in
    and_then freed (λ s1. ok (write_word pg_table 0 s1))

unfoldable pub free_entries : ℕ → ℕ → Memory → Ran Memory
free_entries zero pg_table s = ok s
free_entries (suc nr) pg_table s =
    and_then (free_entry pg_table s) (λ s1. free_entries nr (pg_table + 4) s1)

-- one directory entry
unfoldable pub free_dir : ℕ → Memory → Ran Memory
free_dir dir s =
    if not (present (s.mem dir))
    then ok s
    else and_then (free_entries 1024 (frame_of (s.mem dir)) s)
        (λ s1. and_then (free_page (frame_of (s1.mem dir)) s1) (λ s2. ok (write_word dir 0 s2)))

unfoldable pub free_dirs : ℕ → ℕ → Memory → Ran Memory
free_dirs zero dir s = ok s
free_dirs (suc size) dir s = and_then (free_dir dir s) (λ s1. free_dirs size (dir + 4) s1)

-- `free_page_tables(from, size)`, which returns 0
unfoldable pub free_page_tables : ℕ → ℕ → Memory → Ran Memory
free_page_tables from size s =
    if not (offset_4m from == 0)
    then panicked
    else if from == 0
    then panicked
    else free_dirs (dir_count size) (dir_of from) s

-- one entry of a table that is copied: both sides lose the right to write, but for pages below 1 MB
unfoldable pub copy_entry : ℕ → ℕ → Memory → Memory
copy_entry from_page_table to_page_table s =
    let this_page : ℕ = write_protect (s.mem from_page_table) in
    let copied : Memory = write_word to_page_table this_page s in
    if not (present (s.mem from_page_table))
    then s
    else if ltb low_mem this_page
    then set_map (map_nr this_page) ((s.mem_map (map_nr this_page) + 1) % 256)
        (write_word from_page_table this_page copied)
    else copied

unfoldable pub copy_entries : ℕ → ℕ → ℕ → Memory → Memory
copy_entries zero from_page_table to_page_table s = s
copy_entries (suc nr) from_page_table to_page_table s =
    copy_entries nr (from_page_table + 4) (to_page_table + 4)
      (copy_entry from_page_table to_page_table s)

-- one directory entry, with `nr` entries of its table; whether memory was enough
unfoldable pub copy_dir : ℕ → ℕ → ℕ → Memory → Ran (Bool × Memory)
copy_dir nr from_dir to_dir s =
    let (to_page_table, s1) = get_free_page s in
    if present (s.mem to_dir)
    then panicked
    else if not (present (s.mem from_dir))
    then ok (true, s)
    else if to_page_table == 0
    then ok (false, s1)
    else ok (
      true,
      copy_entries nr (frame_of (s.mem from_dir)) to_page_table
          (write_word to_dir (or_7 to_page_table) s1),
    )

unfoldable pub copy_dirs : ℕ → ℕ → ℕ → ℕ → Memory → Ran (ℤ × Memory)
copy_dirs nr zero from_dir to_dir s = ok (pos 0, s)
copy_dirs nr (suc size) from_dir to_dir s =
    and_then (copy_dir nr from_dir to_dir s) (λ (enough, s1).
      let rest = copy_dirs nr size (from_dir + 4) (to_dir + 4) s1 in
      if enough then rest else ok (negsuc 0, s1))

-- `copy_page_tables(from, to, size)`
unfoldable pub copy_page_tables : ℕ → ℕ → ℕ → Memory → Ran (ℤ × Memory)
copy_page_tables from to size s =
    if not (offset_4m from == 0) || not (offset_4m to == 0)
    then panicked
    else copy_dirs (if from == 0 then 160 else 1024) (dir_count size) (dir_of from) (dir_of to) s
