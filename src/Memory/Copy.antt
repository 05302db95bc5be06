-- ===== src/Memory/Copy.antt =====
-- mm/memory.c: the inner loop of copy_page_tables.
use mathlib.Core.Path.{subst}
use os_lab2_gui.Prelude.{
  ℕ, zero, suc, ◌+◌, ◌*◌, ◌/◌, ◌%◌, ◌≤◌, ◌<◌, ◌≡◌, ◌≢◌, refl, sym, ap, ◌∙◌, ◌⊎◌, Bool, ◌&&◌, arith,
  ltb, ◌==◌, if◌then◌else◌,
}
use os_lab2_gui.Memory.{Memory, low_mem, map_nr}
use os_lab2_gui.Memory.Tables.{present, write_protect, copy_entry, copy_entries}

-- the entry with bit 1, the right to write, cleared
abbrev pub read_only : ℕ → ℕ
read_only entry = entry / 4 * 4 + entry % 2

write_protect-clears : (entry : ℕ) → write_protect entry ≡ read_only entry
write_protect-clears entry = ground arith

-- whether an entry counts a page of its own
abbrev pub counted : ℕ → Bool
counted entry = present entry && ltb low_mem (read_only entry)

-- what becomes of an entry of the old table
abbrev pub kept_entry : ℕ → ℕ
kept_entry entry = if counted entry then read_only entry else entry

-- what becomes of an entry of the new table
abbrev pub copied_entry : ℕ → ℕ → ℕ
copied_entry entry old = if present entry then read_only entry else old

-- how many of the `n` entries from `from` on count the page `i`
abbrev pub refs : ℕ → ℕ → (ℕ → ℕ) → ℕ → ℕ
refs zero from m i = 0
refs (suc n) from m i =
    (if counted (m from) && map_nr (read_only (m from)) == i then 1 else 0) + refs n (from + 4) m i

copy_entry-from :
    (from to : ℕ) (s : Memory)
    → from ≢ to
    → (copy_entry from to s).mem from ≡ kept_entry (s.mem from)
unfolding copy_entry
copy_entry-from from to s ne = ground (arith, write_protect-clears (s.mem from))

copy_entry-to :
    (from to : ℕ) (s : Memory)
    → from ≢ to
    → (copy_entry from to s).mem to ≡ copied_entry (s.mem from) (s.mem to)
unfolding copy_entry
copy_entry-to from to s ne = ground (arith, write_protect-clears (s.mem from))

copy_entry-other :
    (from to : ℕ) (s : Memory) (a : ℕ) → a ≢ from → a ≢ to → (copy_entry from to s).mem a ≡ s.mem a
unfolding copy_entry
copy_entry-other from to s a ne ne' = ground arith

copy_entry-map :
    (from to : ℕ) (s : Memory) (i : ℕ)
    → s.mem_map i < 256
    → (copy_entry from to s).mem_map i
      ≡ (s.mem_map i
          + (if counted (s.mem from) && map_nr (read_only (s.mem from)) == i then 1 else 0))
        % 256
unfolding copy_entry
copy_entry-map from to s i lt = ground (arith, write_protect-clears (s.mem from))

-- Two tables of `n` entries that do not overlap.
abbrev pub Apart : ℕ → ℕ → ℕ → Type 0
Apart n from to = (from + 4 * n ≤ to) ⊎ (to + 4 * n ≤ from)

-- `a` is no entry of the table of `n` entries at `t`
abbrev pub Outside : ℕ → ℕ → ℕ → Type 0
Outside n t a = (a < t) ⊎ (t + 4 * n ≤ a)

copy_entries-other :
    (n from to : ℕ) (s : Memory) (a : ℕ)
    → Outside n from a
    → Outside n to a
    → (copy_entries n from to s).mem a ≡ s.mem a
unfolding copy_entries
copy_entries-other zero from to s a f t = refl
copy_entries-other (suc n) from to s a f t =
    copy_entries-other n (from + 4) (to + 4) (copy_entry from to s) a (omega arith) (omega arith)
    ∙ copy_entry-other from to s a (omega arith) (omega arith)

copy_entries-from :
    (n from to : ℕ) (s : Memory)
    → Apart n from to
    → (i : ℕ) → i < n
    → (copy_entries n from to s).mem (from + 4 * i) ≡ kept_entry (s.mem (from + 4 * i))
unfolding copy_entries
copy_entries-from zero from to s apart i lt = absurd (omega arith)
copy_entries-from (suc n) from to s apart zero lt =
    ap (copy_entries n (from + 4) (to + 4) (copy_entry from to s)).mem start
    ∙ copy_entries-other n (from + 4) (to + 4) (copy_entry from to s) from (omega arith)
        (omega arith)
    ∙ copy_entry-from from to s (omega arith)
    ∙ ap (λ a. kept_entry (s.mem a)) (sym start)
  where
    start : from + 4 * 0 ≡ from
    start = omega arith
copy_entries-from (suc n) from to s apart (suc i) lt =
    ap (copy_entries n (from + 4) (to + 4) (copy_entry from to s)).mem shift
    ∙ copy_entries-from n (from + 4) (to + 4) (copy_entry from to s) (omega arith) i (omega arith)
    ∙ ap kept_entry (
        copy_entry-other from to s (from + 4 + 4 * i) (omega arith) (omega arith)
        ∙ ap s.mem (sym shift))
  where
    shift : from + 4 * suc i ≡ from + 4 + 4 * i
    shift = omega arith

copy_entries-to :
    (n from to : ℕ) (s : Memory)
    → Apart n from to
    → (i : ℕ) → i < n
    → (copy_entries n from to s).mem (to + 4 * i)
      ≡ copied_entry (s.mem (from + 4 * i)) (s.mem (to + 4 * i))
unfolding copy_entries
copy_entries-to zero from to s apart i lt = absurd (omega arith)
copy_entries-to (suc n) from to s apart zero lt =
    ap (copy_entries n (from + 4) (to + 4) (copy_entry from to s)).mem (start to)
    ∙ copy_entries-other n (from + 4) (to + 4) (copy_entry from to s) to (omega arith) (omega arith)
    ∙ copy_entry-to from to s (omega arith)
    ∙ ap (λ a. copied_entry (s.mem a) (s.mem to)) (sym (start from))
    ∙ ap (λ a. copied_entry (s.mem (from + 4 * 0)) (s.mem a)) (sym (start to))
  where
    start : (t : ℕ) → t + 4 * 0 ≡ t
    start t = omega arith
copy_entries-to (suc n) from to s apart (suc i) lt =
    ap (copy_entries n (from + 4) (to + 4) (copy_entry from to s)).mem (shift to)
    ∙ copy_entries-to n (from + 4) (to + 4) (copy_entry from to s) (omega arith) i (omega arith)
    ∙ ap (λ e. copied_entry e ((copy_entry from to s).mem (to + 4 + 4 * i)))
        (copy_entry-other from to s (from + 4 + 4 * i) (omega arith) (omega arith)
          ∙ ap s.mem (sym (shift from)))
    ∙ ap (copied_entry (s.mem (from + 4 * suc i))) (
        copy_entry-other from to s (to + 4 + 4 * i) (omega arith) (omega arith)
        ∙ ap s.mem (sym (shift to)))
  where
    shift : (t : ℕ) → t + 4 * suc i ≡ t + 4 + 4 * i
    shift t = omega arith

refs-other :
    (n from : ℕ) (m m' : ℕ → ℕ) (i : ℕ)
    → ((a : ℕ) → from ≤ a → a < from + 4 * n → m a ≡ m' a)
    → refs n from m i ≡ refs n from m' i
refs-other zero from m m' i same = refl
refs-other (suc n) from m m' i same =
    ap (λ e. (if counted e && map_nr (read_only e) == i then 1 else 0) + refs n (from + 4) m i)
      (same from (omega arith) (omega arith))
    ∙ ap (λ r. (if counted (m' from) && map_nr (read_only (m' from)) == i then 1 else 0) + r)
        (refs-other n (from + 4) m m' i (λ a ge lt. same a (omega arith) (omega arith)))

copy_entries-map :
    (n from to : ℕ) (s : Memory) (i : ℕ)
    → Apart n from to
    → s.mem_map i < 256
    → (copy_entries n from to s).mem_map i ≡ (s.mem_map i + refs n from s.mem i) % 256
unfolding copy_entries
copy_entries-map zero from to s i apart lt = omega arith
copy_entries-map (suc n) from to s i apart lt =
    copy_entries-map n (from + 4) (to + 4) (copy_entry from to s) i (omega arith)
      (subst (λ v. v < 256) (sym first) (omega arith))
    ∙ ap (λ v. (v + refs n (from + 4) (copy_entry from to s).mem i) % 256) first
    ∙ ap (λ r. ((s.mem_map i + here) % 256 + r) % 256)
        (refs-other n (from + 4) (copy_entry from to s).mem s.mem i
          (λ a ge below. copy_entry-other from to s a (omega arith) (omega arith)))
    ∙ sums (s.mem_map i) here (refs n (from + 4) s.mem i)
  where
    here : ℕ
    here = if counted (s.mem from) && map_nr (read_only (s.mem from)) == i then 1 else 0

    first : (copy_entry from to s).mem_map i ≡ (s.mem_map i + here) % 256
    first = copy_entry-map from to s i lt

    sums : (a c r : ℕ) → ((a + c) % 256 + r) % 256 ≡ (a + (c + r)) % 256
    sums a c r = omega arith

-- The copy of `n` entries of a page table to a table apart from it: in both tables bit 1, the right to
-- write, of a present entry is cleared (in the old one only if its page is counted, which those up to 1 MB are not); an
-- entry that is not present stays, no other word of memory changes, and the count of a page goes up, on
-- eight bits, by the number of copied entries that lead to it.
pub copy_entries_lem :
    (n from to : ℕ) (s : Memory)
    → Apart n from to
    → ((i : ℕ) → s.mem_map i < 256)
    → let s' = copy_entries n from to s in
      ((i : ℕ)
        → i < n
        → (s'.mem (from + 4 * i) ≡ kept_entry (s.mem (from + 4 * i)))
          × (s'.mem (to + 4 * i) ≡ copied_entry (s.mem (from + 4 * i)) (s.mem (to + 4 * i))))
      × ((a : ℕ) → Outside n from a → Outside n to a → s'.mem a ≡ s.mem a)
      × ((i : ℕ) → s'.mem_map i ≡ (s.mem_map i + refs n from s.mem i) % 256)
copy_entries_lem n from to s apart bytes = (
  (λ i lt. (copy_entries-from n from to s apart i lt, copy_entries-to n from to s apart i lt)),
  copy_entries-other n from to s,
  λ i. copy_entries-map n from to s i apart (bytes i),
)
