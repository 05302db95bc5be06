-- ===== src/Memory/Write.antt =====
-- mm/memory.c: un_wp_page, at a write to a page that a task may not write.
use mathlib.Core.Path.{subst}
use os_lab2_gui.Prelude.{
  ℕ, ◌+◌, ◌*◌, ◌≤◌, ◌<◌, ◌≡◌, ◌≢◌, refl, sym, ap, ◌∙◌, ◌⊎◌, inl, inr, Bool-cases, true, false,
  arith, ◌==◌,
}
use os_lab2_gui.Prelude.Table.{update}
use os_lab2_gui.Memory.{
  Memory, Ran, ok, out_of_memory, low_mem, paging_pages, map_nr, write_word, in_page, clear_page,
  get_free_page,
}
use os_lab2_gui.Memory.Tables.{present, frame_of, or_7}
use os_lab2_gui.Memory.Fault.{copy_page, write_enable, sole, drop_page, un_wp_page}
use os_lab2_gui.Memory.Frames.{Got, get_free_page-Got}
use os_lab2_gui.Memory.CopyOnWrite.{
  InUse, Counted, Private, after, drop_page-Counted, sole-Private, copied-Private, drop_page-mem,
}

-- For a present entry in use outside the page that it leads to, with that page counted, un_wp_page gives
-- the task a page with the same words, which it may write and whose count is 1, and touches no other word in
-- use; if that is another page, the count of the old one, from 1 MB on, is one less on eight bits, and no
-- other count changes. It ends the process only if the page is shared, or below 1 MB, and no page is free.
pub un_wp_page-Private :
    (te : ℕ) (s : Memory)
    → present (s.mem te) ≡ true
    → in_page (frame_of (s.mem te)) te ≡ false
    → InUse s te
    → (low_mem ≤ frame_of (s.mem te) → s.mem_map (map_nr (frame_of (s.mem te))) ≢ 0)
    → ((un_wp_page te s ≡ out_of_memory)
        × (low_mem ≤ frame_of (s.mem te) → s.mem_map (map_nr (frame_of (s.mem te))) ≢ 1)
        × ((i : ℕ) → i < paging_pages → s.mem_map i ≢ 0))
      ⊎ ((s' : Memory) × (un_wp_page te s ≡ ok s') × Private te s s')
unfolding un_wp_page
un_wp_page-Private te s there own used_te counted =
    elim (Bool-cases (sole (frame_of (s.mem te)) s)) [
      | inl e ↦
          inr (write_word te (write_enable (s.mem te)) s, rw e refl, sole-Private te s there own e)
      | inr e ↦ shared e (get_free_page s).0 (get_free_page s).1 (get_free_page-Got s)
    ]
  where
    not_sole :
        sole (frame_of (s.mem te)) s ≡ false
        → low_mem ≤ frame_of (s.mem te)
        → s.mem_map (map_nr (frame_of (s.mem te))) ≢ 1
    not_sole e le = ground arith

    shared :
        sole (frame_of (s.mem te)) s ≡ false
        → (new_page : ℕ) (s1 : Memory) → Got s (new_page, s1)
        → let r : Ran Memory = after (frame_of (s.mem te)) te s new_page s1 in
          ((r ≡ out_of_memory)
            × (low_mem ≤ frame_of (s.mem te) → s.mem_map (map_nr (frame_of (s.mem te))) ≢ 1)
            × ((i : ℕ) → i < paging_pages → s.mem_map i ≢ 0))
          ⊎ ((s' : Memory) × (r ≡ ok s') × Private te s s')
    shared e new_page s1 (inl (z, same, all)) = inl (rw (e, z) refl, not_sole e, all)
    shared e new_page s1 (inr (i, lt, z, above, at, same)) = inr (
      record (write_word te (or_7 new_page) (drop_page old s1)) {
        mem = copy_page old new_page (write_word te (or_7 new_page) (drop_page old s1)).mem;
      },
      rw (e, nonzero at) refl,
      copied-Private te s there own
          (record (write_word te (or_7 new_page) (drop_page old s1)) {
            mem = copy_page old new_page (write_word te (or_7 new_page) (drop_page old s1)).mem;
          })
          new_page
          (ap (λ m. copy_page old new_page (update m te (or_7 new_page)))
            (drop_page-mem old s1 ∙ ap (λ t. t.mem) same))
          (omega (arith, at)) ne_old (subst (λ q. in_page q te ≡ false) (sym at) (used_te i lt z))
          (λ a u. subst (λ q. in_page q a ≡ false) (sym at) (u i lt z))
          (counted_once at same ne_old),
    )
      where
        old : ℕ
        old = frame_of (s.mem te)

        low : new_page ≡ old → new_page ≡ i * 4096 + low_mem → low_mem ≤ old
        low h at = omega arith

        nr : new_page ≡ old → new_page ≡ i * 4096 + low_mem → map_nr old ≡ i
        nr h at = omega arith

        ne_old : new_page ≢ old
        ne_old h = counted (low h at) (ap s.mem_map (nr h at) ∙ z)

        page_nr : map_nr (i * 4096 + low_mem) ≡ i
        page_nr = omega arith

        counted_once :
            new_page ≡ i * 4096 + low_mem
            → s1 ≡ record s { mem_map = update s.mem_map i 1; mem = clear_page new_page s.mem }
            → new_page ≢ old
            → Counted old new_page s (record (write_word te (or_7 new_page) (drop_page old s1)) {
              mem = copy_page old new_page (write_word te (or_7 new_page) (drop_page old s1)).mem;
            })
        counted_once page_at state ne =
            let (one, others) =
              drop_page-Counted old i s s1 (ap (λ t. t.mem_map) state) (λ e. ne (page_at ∙ e))
                (omega arith) in
            subst
              (λ n. Counted old n s (record (write_word te (or_7 new_page) (drop_page old s1)) {
                mem = copy_page old new_page (write_word te (or_7 new_page) (drop_page old s1)).mem;
              }))
              (sym page_at)
              (
                omega arith,
                ap (drop_page old s1).mem_map page_nr ∙ one,
                λ k other. others k (λ e. other (e ∙ sym page_nr)),
              )

        nonzero : new_page ≡ i * 4096 + low_mem → (new_page == 0) ≡ false
        nonzero at = ground arith
