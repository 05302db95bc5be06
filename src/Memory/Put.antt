-- ===== src/Memory/Put.antt =====
-- mm/memory.c: put_page and the tables that it writes.
use os_lab2_gui.Prelude.{
  ℕ, ◌+◌, ◌*◌, ◌/◌, ◌%◌, sym, ◌<◌, ◌≡◌, ◌≢◌, refl, ap, ◌∙◌, ◌⊎◌, inl, inr, Bool-cases, true, false,
  arith, ◌==◌, if◌then◌else◌,
}
use os_lab2_gui.Prelude.Table.{update, update_ne, update_self}
use os_lab2_gui.Memory.{Memory, low_mem, paging_pages, write_word, get_free_page}
use os_lab2_gui.Memory.Tables.{present, frame_of, or_7, dir_of}
use os_lab2_gui.Memory.Fault.{slot_of, put_page}
use os_lab2_gui.Memory.Frames.{Got, get_free_page-Got}

-- The address leads to the page as the processor goes: its bits from 22 on name the entry of the directory at
-- address 0, which is present; bits 12 to 21 name the entry of the table at the page of that entry, which has
-- the page with the bits present, writable and user.
abbrev pub Maps : Memory → ℕ → ℕ → Type 0
Maps s address page =
    let dir : ℕ = s.mem (4 * (address / 4194304 % 1024)) in
    let entry : ℕ = s.mem (dir / 4096 * 4096 + 4 * (address / 4096 % 1024)) in
    (dir % 2 ≡ 1) × (entry ≡ page / 8 * 8 + 7)

Maps-of :
    (s : Memory) (address page : ℕ)
    → present (s.mem (dir_of address)) ≡ true
    → s.mem (frame_of (s.mem (dir_of address)) + slot_of address) ≡ or_7 page
    → Maps s address page
Maps-of s address page there entry =
    let dir : dir_of address ≡ 4 * (address / 4194304 % 1024) = omega arith in
    let slot : slot_of address ≡ 4 * (address / 4096 % 1024) = omega arith in
    let odd : s.mem (dir_of address) % 2 ≡ 1 = ground (arith, there) in
    (
      ap (λ a. s.mem a % 2) (sym dir) ∙ odd,
      ap (λ a. s.mem (s.mem a / 4096 * 4096 + 4 * (address / 4096 % 1024))) (sym dir)
          ∙ ap (λ a. s.mem (frame_of (s.mem (dir_of address)) + a)) (sym slot)
          ∙ entry,
    )

two_writes : (m : ℕ → ℕ) (dir slot v w : ℕ) → slot ≢ dir → update (update m dir v) slot w dir ≡ v
two_writes m dir slot v w ne = update_ne (update m dir v) slot w dir ne ∙ update_self m dir v

-- what put_page does with the table that it got
abbrev after : ℕ → ℕ → Memory → ℕ → Memory → ℕ × Memory
after page address s tmp s1 =
    if present (s.mem (dir_of address))
    then (page, write_word (frame_of (s.mem (dir_of address)) + slot_of address) (or_7 page) s)
    else if tmp == 0
    then (0, s1)
    else (
      page,
      write_word (tmp + slot_of address) (or_7 page) (write_word (dir_of address) (or_7 tmp) s1),
    )

-- put_page of a page, not 0, at an address returns 0 and changes nothing if it needs a table and no page
-- is free; otherwise it returns the page, and the address leads to it. The table that is there must not
-- hold its own directory entry.
pub put_page-Maps :
    (page address : ℕ) (s : Memory)
    → page ≢ 0
    → (present (s.mem (dir_of address)) ≡ true
        → frame_of (s.mem (dir_of address)) + slot_of address ≢ dir_of address)
    → let (put, s') = put_page page address s in
      ((put ≡ 0)
        × (s' ≡ s)
        × (present (s.mem (dir_of address)) ≡ false)
        × ((i : ℕ) → i < paging_pages → s.mem_map i ≢ 0))
      ⊎ ((put ≡ page) × Maps s' address page)
unfolding put_page
put_page-Maps page address s not_zero apart = elim (Bool-cases (present (s.mem (dir_of address)))) [
  | inl e ↦ rw e (inr (refl, there e))
  | inr e ↦ allocated e (get_free_page s).0 (get_free_page s).1 (get_free_page-Got s)
]
  where
    there :
        present (s.mem (dir_of address)) ≡ true
        → Maps
            (write_word (frame_of (s.mem (dir_of address)) + slot_of address) (or_7 page) s)
            address
            page
    there e = Maps-of (write_word at (or_7 page) s) address page (ap present kept ∙ e) (
        ap (λ v. update s.mem at (or_7 page) (frame_of v + slot_of address)) kept
        ∙ update_self s.mem at (or_7 page))
      where
        at : ℕ
        at = frame_of (s.mem (dir_of address)) + slot_of address

        kept : update s.mem at (or_7 page) (dir_of address) ≡ s.mem (dir_of address)
        kept = update_ne s.mem at (or_7 page) (dir_of address) (apart e)

    allocated :
        present (s.mem (dir_of address)) ≡ false
        → (tmp : ℕ) (s1 : Memory) → Got s (tmp, s1)
        → let (put, s') = after page address s tmp s1 in
          ((put ≡ 0)
            × (s' ≡ s)
            × (present (s.mem (dir_of address)) ≡ false)
            × ((i : ℕ) → i < paging_pages → s.mem_map i ≢ 0))
          ⊎ ((put ≡ page) × Maps s' address page)
    allocated e tmp s1 (inl (z, same, all)) = rw (e, z) (inl (refl, same, refl, all))
    allocated e tmp s1 (inr (i, lt, z, above, at, same)) =
        rw (e, nonzero at)
          (inr (
            refl,
            Maps-of
                (write_word (tmp + slot_of address) (or_7 page)
                  (write_word (dir_of address) (or_7 tmp) s1))
                address page (ap present entry ∙ is_present)
                (ap (λ v. m (frame_of v + slot_of address)) entry
                  ∙ ap (λ f. m (f + slot_of address)) frame
                  ∙ update_self (update s1.mem (dir_of address) (or_7 tmp)) (tmp + slot_of address)
                      (or_7 page)),
          ))
      where
        nonzero : tmp ≡ i * 4096 + low_mem → (tmp == 0) ≡ false
        nonzero at = ground arith

        m : ℕ → ℕ
        m = update (update s1.mem (dir_of address) (or_7 tmp)) (tmp + slot_of address) (or_7 page)

        entry : m (dir_of address) ≡ or_7 tmp
        entry =
            two_writes s1.mem (dir_of address) (tmp + slot_of address) (or_7 tmp) (or_7 page)
              (omega (arith, at))

        is_present : present (or_7 tmp) ≡ true
        is_present = ground arith

        frame : frame_of (or_7 tmp) ≡ tmp
        frame = omega (arith, at)
