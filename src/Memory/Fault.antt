-- ===== src/Memory/Fault.antt =====
-- mm/memory.c: a page is put at an address, written to, or shared. What the functions print is left out.
use os_lab2_gui.Prelude.{
  ℕ, ◌+◌, ◌-◌, ◌*◌, ◌/◌, ◌%◌, Bool, true, false, not, ◌&&◌, ◌||◌, ltb, leb, ◌==◌, if◌then◌else◌,
}
use os_lab2_gui.Memory.{
  Memory, Ran, ok, panicked, out_of_memory, and_then, low_mem, map_nr, write_word, set_map, in_page,
  get_free_page, free_page,
}
use os_lab2_gui.Memory.Tables.{present, frame_of, write_protect, or_7, dir_of}

-- the place of an address in its page table, `(address >> 10) & 0xffc`
abbrev pub slot_of : ℕ → ℕ
slot_of address = address / 4096 % 1024 * 4

-- `put_page(page, address)`: the page, or 0 when no table could be allocated
unfoldable pub put_page : ℕ → ℕ → Memory → ℕ × Memory
put_page page address s =
    let entry : ℕ = s.mem (dir_of address) in
    let (tmp, s1) = get_free_page s in
    if present entry
    then (page, write_word (frame_of entry + slot_of address) (or_7 page) s)
    else if tmp == 0
    then (0, s1)
    else (
      page,
      write_word (tmp + slot_of address) (or_7 page) (write_word (dir_of address) (or_7 tmp) s1),
    )

-- `copy_page(from, to)`
abbrev pub copy_page : ℕ → ℕ → (ℕ → ℕ) → ℕ → ℕ
copy_page from to m a = if in_page to a then m (from + (a - to)) else m a

-- `entry | 2`
abbrev pub write_enable : ℕ → ℕ
write_enable entry = if entry / 2 % 2 == 1 then entry else entry + 2

-- whether the page at `page` is mapped once
abbrev pub sole : ℕ → Memory → Bool
sole page s = leb low_mem page && s.mem_map (map_nr page) == 1

-- `if (old_page >= LOW_MEM) mem_map[MAP_NR(old_page)]--;`
abbrev pub drop_page : ℕ → Memory → Memory
drop_page old_page s =
    if leb low_mem old_page
    then set_map (map_nr old_page) ((s.mem_map (map_nr old_page) + 255) % 256) s
    else s

-- `un_wp_page(table_entry)`
unfoldable pub un_wp_page : ℕ → Memory → Ran Memory
un_wp_page table_entry s =
    let old_page : ℕ = frame_of (s.mem table_entry) in
    let (new_page, s1) = get_free_page s in
    let s2 = write_word table_entry (or_7 new_page) (drop_page old_page s1) in
    if sole old_page s
    then ok (write_word table_entry (write_enable (s.mem table_entry)) s)
    else if new_page == 0
    then out_of_memory
    else ok (record s2 { mem = copy_page old_page new_page s2.mem })

-- `do_wp_page(error_code, address)`
unfoldable pub do_wp_page : ℕ → Memory → Ran Memory
do_wp_page address s = un_wp_page (slot_of address + frame_of (s.mem (dir_of address))) s

-- `write_verify(address)`
unfoldable pub write_verify : ℕ → Memory → Ran Memory
write_verify address s =
    let page : ℕ = frame_of (s.mem (dir_of address)) + slot_of address in
    if not (present (s.mem (dir_of address)))
    then ok s
    else if s.mem page % 4 == 1
    then un_wp_page page s
    else ok s

-- `get_empty_page(address)`; behind `free_page` the process ends
unfoldable pub get_empty_page : ℕ → Memory → Ran Memory
get_empty_page address s =
    let (tmp, s1) = get_free_page s in
    let (put, s2) = put_page tmp address s1 in
    if tmp == 0
    then and_then (free_page tmp s1) (λ s3. out_of_memory)
    else if put == 0
    then and_then (free_page tmp s2) (λ s3. out_of_memory)
    else ok s2

-- the table that try_to_share writes to, allocated if there is none
unfoldable pub share_table : ℕ → Memory → Ran (ℕ × Memory)
share_table to_page s =
    let (to, s1) = get_free_page s in
    if present (s.mem to_page)
    then ok (frame_of (s.mem to_page), s)
    else if to == 0
    then out_of_memory
    else ok (frame_of to, write_word to_page (or_7 to) s1)

-- the last part of try_to_share: both entries lose the right to write, the count goes up
unfoldable pub share_entries : ℕ → ℕ → ℕ → Memory → Memory
share_entries from_page to_page phys_addr s =
    let entry : ℕ = write_protect (s.mem from_page) in
    set_map (map_nr phys_addr) ((s.mem_map (map_nr phys_addr) + 1) % 256)
      (write_word to_page entry (write_word from_page entry s))

-- `try_to_share(address, p)`, with `start_code` of `p` and of the current task
unfoldable pub try_to_share : ℕ → ℕ → ℕ → Memory → Ran (Bool × Memory)
try_to_share address from_start to_start s =
    let from : ℕ = s.mem (dir_of address + dir_of from_start) in
    let from_page : ℕ = frame_of from + slot_of address in
    let entry : ℕ = s.mem from_page in
    let phys_addr : ℕ = frame_of entry in
    if not (present from)
    then ok (false, s)
    else if not (present entry && entry / 64 % 2 == 0)
    then ok (false, s)
    else if leb s.high_memory phys_addr || ltb phys_addr low_mem
    then ok (false, s)
    else and_then (share_table (dir_of address + dir_of to_start) s) (λ (to, s1).
      if present (s1.mem (to + slot_of address))
      then panicked
      else ok (true, share_entries from_page (to + slot_of address) phys_addr s1))
