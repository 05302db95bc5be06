-- ===== src/Memory/CopyOnWrite.antt =====
-- mm/memory.c: a page that is written to becomes writable, or is copied, and the counts of pages after it.
use mathlib.Core.Path.{subst}
use os_lab2_gui.Prelude.{
  ℕ, ◌+◌, ◌-◌, ◌*◌, ◌/◌, ◌%◌, ◌≤◌, ◌<◌, ◌≡◌, ◌≢◌, refl, sym, ap, ◌∙◌, inl, inr, Bool, not, leb,
  ◌&&◌, ==_iff, Bool-cases, true, false, arith, ◌==◌, if◌then◌else◌,
}
use os_lab2_gui.Prelude.Table.{update, update_ne, update_self}
use os_lab2_gui.Memory.{
  Memory, Ran, ok, out_of_memory, low_mem, paging_pages, map_nr, write_word, in_page, clear_page,
}
use os_lab2_gui.Memory.Tables.{present, frame_of, or_7}
use os_lab2_gui.Memory.Fault.{copy_page, write_enable, sole, drop_page}

-- `a` lies in no page that could be handed out
abbrev pub InUse : Memory → ℕ → Type 0
InUse s a = (i : ℕ) → i < paging_pages → s.mem_map i ≡ 0 → in_page (i * 4096 + low_mem) a ≡ false

-- `entry & 2`
abbrev pub writable : ℕ → Bool
writable entry = entry / 2 % 2 == 1

-- the count of a page after its entry has changed from `old` to `new`
abbrev pub count_after : Memory → ℕ → ℕ → ℕ → ℕ
count_after s old new i =
    if not (new == old) && leb low_mem old && i == map_nr old
    then (s.mem_map i + 255) % 256
    else s.mem_map i

-- the page at `new` is counted once, that at `old` once less if it is another, and no other count changed
abbrev pub Counted : ℕ → ℕ → Memory → Memory → Type 0
Counted old new s s' =
    (low_mem ≤ new)
    × (s'.mem_map (map_nr new) ≡ 1)
    × ((i : ℕ) → i ≢ map_nr new → s'.mem_map i ≡ count_after s old new i)

-- What a write to the page behind the entry at `te` finds afterwards: the entry lets it write, to a page with
-- the words of the old one, which is counted once, and no word changed but those of free pages and the entry.
abbrev pub Private : ℕ → Memory → Memory → Type 0
Private te s s' =
    (present (s'.mem te) ≡ true)
    × (writable (s'.mem te) ≡ true)
    × ((k : ℕ) → k < 4096 → s'.mem (frame_of (s'.mem te) + k) ≡ s.mem (frame_of (s.mem te) + k))
    × ((a : ℕ) → a ≢ te → InUse s a → s'.mem a ≡ s.mem a)
    × Counted (frame_of (s.mem te)) (frame_of (s'.mem te)) s s'

copy_page-out : (from to a : ℕ) (m : ℕ → ℕ) → in_page to a ≡ false → copy_page from to m a ≡ m a
copy_page-out from to a m out = rw out refl

copy_page-in : (from to k : ℕ) (m : ℕ → ℕ) → k < 4096 → copy_page from to m (to + k) ≡ m (from + k)
copy_page-in from to k m lt = rw inside (ap (λ d. m (from + d)) back)
  where
    inside : in_page to (to + k) ≡ true
    inside = ground arith

    back : to + k - to ≡ k
    back = omega arith

clear_page-out : (page a : ℕ) (m : ℕ → ℕ) → in_page page a ≡ false → clear_page page m a ≡ m a
clear_page-out page a m out = rw out refl

other_frame :
    (new e k : ℕ)
    → k < 4096
    → new % 4096 ≡ 0
    → new ≢ frame_of e
    → in_page new (frame_of e + k) ≡ false
other_frame new e k lt aligned ne = ground arith

-- what un_wp_page does with the page that it got
abbrev pub after : ℕ → ℕ → Memory → ℕ → Memory → Ran Memory
after old te s new_page s1 =
    let s2 = write_word te (or_7 new_page) (drop_page old s1) in
    if sole old s
    then ok (write_word te (write_enable (s.mem te)) s)
    else if new_page == 0
    then out_of_memory
    else ok (record s2 { mem = copy_page old new_page s2.mem })

-- the counts without one use of the page at `old`
drop_page-map :
    (old k : ℕ) (s : Memory)
    → (drop_page old s).mem_map k
      ≡ (if leb low_mem old && k == map_nr old then (s.mem_map k + 255) % 256 else s.mem_map k)
drop_page-map old k s = elim (Bool-cases (leb low_mem old)) [
  | inl h ↦ elim (Bool-cases (map_nr old == k)) [
    | inl e ↦
        let same : map_nr old ≡ k = (==_iff (map_nr old) k).0 e in
        rw (h, e, (==_iff k (map_nr old)).1 (sym same)) (ap (λ i. (s.mem_map i + 255) % 256) same)
    | inr e ↦ let other : (k == map_nr old) ≡ false = ground arith in rw (h, e, other) refl
  ]
  | inr h ↦ rw h refl
]

pub drop_page-Counted :
    (old i : ℕ) (s s1 : Memory)
    → s1.mem_map ≡ update s.mem_map i 1
    → i * 4096 + low_mem ≢ old
    → old % 4096 ≡ 0
    → ((drop_page old s1).mem_map i ≡ 1)
      × ((k : ℕ) → k ≢ i → (drop_page old s1).mem_map k ≡ count_after s old (i * 4096 + low_mem) k)
drop_page-Counted old i s s1 same ne aligned = (
  drop_page-map old i s1 ∙ rw own (ap (λ m. m i) same ∙ update_self s.mem_map i 1),
  λ k other.
      drop_page-map old k s1
      ∙ ap (λ v. if leb low_mem old && k == map_nr old then (v + 255) % 256 else v)
          (ap (λ m. m k) same ∙ update_ne s.mem_map i 1 k (λ e. other (sym e)))
      ∙ rw apart refl,
)
  where
    own : leb low_mem old && i == map_nr old ≡ false
    own = ground arith

    apart : (i * 4096 + low_mem == old) ≡ false
    apart = ground arith

module _ (te : ℕ) (s : Memory) (there : present (s.mem te) ≡ true)
    (own : in_page (frame_of (s.mem te)) te ≡ false) where
  pub sole-Private :
      sole (frame_of (s.mem te)) s ≡ true → Private te s (write_word te (write_enable (s.mem te)) s)
  sole-Private alone = (
    rw (update_self s.mem te (write_enable (s.mem te))) (ground arith),
    rw (update_self s.mem te (write_enable (s.mem te))) (ground arith),
    (λ k lt.
        ap (λ e. update s.mem te (write_enable (s.mem te)) (frame_of e + k))
          (update_self s.mem te (write_enable (s.mem te)))
        ∙ ap (λ f. update s.mem te (write_enable (s.mem te)) (f + k)) same_frame
        ∙ update_ne s.mem te (write_enable (s.mem te)) (frame_of (s.mem te) + k) (ground arith)),
    (λ a ne used. update_ne s.mem te (write_enable (s.mem te)) a (λ e. ne (sym e))),
    subst (λ new. Counted (frame_of (s.mem te)) new s (write_word te (write_enable (s.mem te)) s))
        (sym (ap frame_of (update_self s.mem te (write_enable (s.mem te))) ∙ same_frame))
        (alone_high, alone_count, λ i ne. rw ((==_iff old old).1 refl) refl),
  )
    where
      old : ℕ
      old = frame_of (s.mem te)

      alone_high : low_mem ≤ old
      alone_high = ground (arith, alone)

      alone_count : s.mem_map (map_nr old) ≡ 1
      alone_count = ground (arith, alone)

      same_frame : frame_of (write_enable (s.mem te)) ≡ frame_of (s.mem te)
      same_frame = ground arith

  -- the memory after the page has been copied to the page `new`
  abbrev copied : ℕ → ℕ → ℕ
  copied new = copy_page (frame_of (s.mem te)) new (update (clear_page new s.mem) te (or_7 new))

  copied-entry : (new : ℕ) → in_page new te ≡ false → copied new te ≡ or_7 new
  copied-entry new out =
      copy_page-out (frame_of (s.mem te)) new te (update (clear_page new s.mem) te (or_7 new)) out
      ∙ update_self (clear_page new s.mem) te (or_7 new)

  copied-page :
      (new k : ℕ)
      → k < 4096
      → new % 4096 ≡ 0
      → new ≢ frame_of (s.mem te)
      → copied new (new + k) ≡ s.mem (frame_of (s.mem te) + k)
  copied-page new k lt aligned ne =
      copy_page-in (frame_of (s.mem te)) new k (update (clear_page new s.mem) te (or_7 new)) lt
      ∙ update_ne (clear_page new s.mem) te (or_7 new) (frame_of (s.mem te) + k) (ground arith)
      ∙ clear_page-out new (frame_of (s.mem te) + k) s.mem
          (other_frame new (s.mem te) k lt aligned ne)

  copied-other : (new a : ℕ) → a ≢ te → in_page new a ≡ false → copied new a ≡ s.mem a
  copied-other new a ne out =
      copy_page-out (frame_of (s.mem te)) new a (update (clear_page new s.mem) te (or_7 new)) out
      ∙ update_ne (clear_page new s.mem) te (or_7 new) a (λ e. ne (sym e))
      ∙ clear_page-out new a s.mem out

  pub copied-Private :
      (s' : Memory) (new : ℕ)
      → s'.mem ≡ copied new
      → new % 4096 ≡ 0
      → new ≢ frame_of (s.mem te)
      → in_page new te ≡ false
      → ((a : ℕ) → InUse s a → in_page new a ≡ false)
      → Counted (frame_of (s.mem te)) new s s'
      → Private te s s'
  copied-Private s' new mem aligned ne out free counts =
      subst
        (λ m.
          (present (m te) ≡ true)
          × (writable (m te) ≡ true)
          × ((k : ℕ) → k < 4096 → m (frame_of (m te) + k) ≡ s.mem (frame_of (s.mem te) + k))
          × ((a : ℕ) → a ≢ te → InUse s a → m a ≡ s.mem a)
          × Counted (frame_of (s.mem te)) (frame_of (m te)) s s')
        (sym mem)
        (
          rw (copied-entry new out) (ground arith),
          rw (copied-entry new out) (ground arith),
          (λ k lt.
              ap (λ e. copied new (frame_of e + k)) (copied-entry new out)
              ∙ ap (λ f. copied new (f + k)) frame
              ∙ copied-page new k lt aligned ne),
          (λ a other used. copied-other new a other (free a used)),
          subst (λ f. Counted (frame_of (s.mem te)) f s s')
              (sym (ap frame_of (copied-entry new out) ∙ frame)) counts,
        )
    where
      frame : frame_of (or_7 new) ≡ new
      frame = omega arith

pub drop_page-mem : (page : ℕ) (s : Memory) → (drop_page page s).mem ≡ s.mem
drop_page-mem page s = ground arith
