-- ===== src/Memory/Frames.antt =====
-- mm/memory.c: what get_free_page hands out.
use os_lab2_gui.Prelude.{
  ℕ, zero, suc, ◌+◌, ◌-◌, ◌*◌, ◌<◌, ◌≡◌, ◌≢◌, refl, sym, ap, ◌∙◌, ◌⊎◌, inl, inr, Bool-cases, ==_iff,
  false, Option, none, some, arith, ◌==◌, if◌then◌else◌,
}
use os_lab2_gui.Prelude.Table.{update, update_self}
use os_lab2_gui.Memory.{
  Memory, ok, low_mem, paging_pages, map_nr, scan_map, clear_page, get_free_page, free_page,
  set_map,
}

-- what the scan finds below `n`
abbrev pub Highest : (ℕ → ℕ) → ℕ → Option ℕ → Type 0
Highest m n none = (i : ℕ) → i < n → m i ≢ 0
Highest m n (some i) = (i < n) × (m i ≡ 0) × ((j : ℕ) → i < j → j < n → m j ≢ 0)

Highest-up : (m : ℕ → ℕ) (n : ℕ) (o : Option ℕ) → m n ≢ 0 → Highest m n o → Highest m (suc n) o
Highest-up m n none here h = λ i lt. elim (Bool-cases (i == n)) [
  | inl e ↦ λ z. here (ap m (sym ((==_iff i n).0 e)) ∙ z)
  | inr e ↦ h i (ground arith)
]
Highest-up m n (some i) here (lt, z, above) = (
  omega arith,
  z,
  λ j gt below. elim (Bool-cases (j == n)) [
    | inl e ↦ λ zj. here (ap m (sym ((==_iff j n).0 e)) ∙ zj)
    | inr e ↦ above j gt (ground arith)
  ],
)

scan_map-Highest : (m : ℕ → ℕ) (n : ℕ) → Highest m n (scan_map m n)
unfolding scan_map
scan_map-Highest m zero = λ i lt. absurd (omega arith)
scan_map-Highest m (suc n) = elim (Bool-cases (m n == 0)) [
  | inl e ↦ rw e (omega arith, (==_iff (m n) 0).0 e, λ j gt below. absurd (omega arith))
  | inr e ↦ rw e (Highest-up m n (scan_map m n) (nonzero e) (scan_map-Highest m n))
]
  where
    nonzero : (m n == 0) ≡ false → m n ≢ 0
    nonzero e = ground arith

-- What get_free_page returns: 0, with nothing changed, if every page is in use; or the highest page that
-- is not, with a count of 1 and filled with zeros, and nothing else changed.
abbrev pub Got : Memory → ℕ × Memory → Type 0
Got s (page, s') =
    ((page ≡ 0) × (s' ≡ s) × ((i : ℕ) → i < paging_pages → s.mem_map i ≢ 0))
    ⊎ ((i : ℕ) × (i < paging_pages)
        × (s.mem_map i ≡ 0)
        × ((j : ℕ) → i < j → j < paging_pages → s.mem_map j ≢ 0)
        × (page ≡ i * 4096 + low_mem)
        × (s' ≡ record s { mem_map = update s.mem_map i 1; mem = clear_page page s.mem }))

-- get_free_page returns 0 and changes nothing exactly if every page is in use; otherwise it returns the
-- highest page that is not, with a count of 1 and filled with zeros, and changes nothing else.
pub get_free_page-Got : (s : Memory) → Got s (get_free_page s)
unfolding get_free_page
get_free_page-Got s =
    got (scan_map s.mem_map paging_pages) (scan_map-Highest s.mem_map paging_pages)
  where
    got :
        (o : Option ℕ)
        → Highest s.mem_map paging_pages o
        → Got s (elim o [
          | none ↦ (0, s)
          | some i ↦ (
            i * 4096 + low_mem,
            record s {
              mem_map = update s.mem_map i 1;
              mem = clear_page (i * 4096 + low_mem) s.mem;
            },
          )
        ])
    got none h = inl (refl, refl, h)
    got (some i) (lt, z, above) = inr (i, lt, z, above, refl, refl)

-- A page that get_free_page returns can be given back, and then the counts are those of before.
pub free_page-get_free_page :
    (s : Memory)
    → let (page, s') = get_free_page s in
      page ≢ 0
      → page < s.high_memory
      → (s'' : Memory) × (free_page page s' ≡ ok s'') × ((i : ℕ) → s''.mem_map i ≡ s.mem_map i)
unfolding free_page
free_page-get_free_page s not_zero below =
    given (get_free_page s).0 (get_free_page s).1 (get_free_page-Got s) not_zero below
  where
    back :
        (i : ℕ)
        → s.mem_map i ≡ 0
        → (j nr v : ℕ) → nr ≡ i
        → v ≡ 1
        → (w : ℕ) → w ≡ update s.mem_map i 1 j
        → (if nr == j then v - 1 else w) ≡ s.mem_map j
    back i z j nr v e one w at = elim (Bool-cases (i == j)) [
      | inl h ↦ rw (e, h, one) (sym z ∙ ap s.mem_map ((==_iff i j).0 h))
      | inr h ↦ rw (e, h) (at ∙ rw h refl)
    ]

    given :
        (page : ℕ) (s' : Memory)
        → Got s (page, s')
        → page ≢ 0
        → page < s.high_memory
        → (s'' : Memory) × (free_page page s' ≡ ok s'') × ((i : ℕ) → s''.mem_map i ≡ s.mem_map i)
    given page s' (inl (e, same, all)) ne lt = absurd (ne e)
    given page s' (inr (i, lt_i, z, above, at, same)) ne lt =
        let nr : map_nr page ≡ i = omega arith in
        let counts : (j : ℕ) → s'.mem_map j ≡ update s.mem_map i 1 j =
          λ j. ap (λ t. t.mem_map j) same in
        let high : s'.high_memory ≡ s.high_memory = ap (λ t. t.high_memory) same in
        let one : s'.mem_map (map_nr page) ≡ 1 =
          ap s'.mem_map nr ∙ counts i ∙ update_self s.mem_map i 1 in
        (
          set_map (map_nr page) (s'.mem_map (map_nr page) - 1) s',
          ground (arith, one, high),
          λ j. back i z j (map_nr page) (s'.mem_map (map_nr page)) nr one (s'.mem_map j) (counts j),
        )
