-- ===== src/Inode/Get.antt =====
-- fs/inode.c: iget, which keeps an inode of the disk in one slot of the table at most.
use mathlib.Core.Path.{subst}
use os_lab2_gui.Prelude.{
  ℕ, zero, suc, ◌+◌, ◌%◌, ◌≤◌, ◌<◌, ◌≡◌, ◌≢◌, ◌⊎◌, refl, inl, inr, Bool, true, false, Option, none,
  some, arith, ◌==◌, ltb, not, Bool-cases, ==_iff, ap, ◌∙◌, sym, if◌then◌else◌,
}
use os_lab2_gui.Prelude.Table.{update, update_self, update_ne}
use os_lab2_gui.Memory.{Memory, Ran, ok, panicked, out_of_memory, free_page}
use os_lab2_gui.Inode.{
  s_isblk, Inode, Inodes, InodeRun, returns, reads, panics, loops, waits, writes, drops, syncs,
  go_on, set_inode, count_up, name_inode, put_pipe, put_last, iput, is_inode, find_inode,
  find_mount, give_back, at_mount, at_inode, iget_loop, iget, scan_inodes, take_inode,
  get_empty_inode,
}

-- no inode of a disk is in two slots
abbrev pub IsUnique : (ℕ → Inode) → Type 0
IsUnique table =
    (i j : ℕ)
    → i < 32
    → j < 32
    → (table i).i_dev ≢ 0
    → (table i).i_dev ≡ (table j).i_dev
    → (table i).i_num ≡ (table j).i_num
    → i ≡ j

-- what a slot holds after a change that names no inode
abbrev Names : Inode → Inode → Type 0
Names old new = (new.i_dev ≡ 0) ⊎ ((new.i_dev ≡ old.i_dev) × (new.i_num ≡ old.i_num))

abbrev Fades : (ℕ → Inode) → (ℕ → Inode) → Type 0
Fades old new = (i : ℕ) → Names (old i) (new i)

Fades-IsUnique : (old new : ℕ → Inode) → Fades old new → IsUnique old → IsUnique new
Fades-IsUnique old new fades unique i j hi hj dev same_dev same_num = go (fades i) (fades j)
  where
    go : Names (old i) (new i) → Names (old j) (new j) → i ≡ j
    go (inl e) q = absurd (dev e)
    go (inr (d, n)) (inl e) = absurd (dev (same_dev ∙ e))
    go (inr (d, n)) (inr (d', n')) =
        unique i j hi hj (λ e. dev (d ∙ e)) (sym d ∙ same_dev ∙ d') (sym n ∙ same_num ∙ n')

update-Fades :
    (i : ℕ) (n : Inode) (table : ℕ → Inode) → Names (table i) n → Fades table (update table i n)
update-Fades i n table h j = elim (Bool-cases (i == j)) [
  | inl e ↦
      subst (λ k. Names (table k) (update table i n k)) ((==_iff i j).0 e)
        (subst (Names (table i)) (sym (update_self table i n)) h)
  | inr e ↦ subst (Names (table j)) (sym (update_ne table i n j (ground arith))) (inr (refl, refl))
]

-- what holds of the table where a function returns, or ends in read_inode
abbrev pub After : {A : Type 0} → ((ℕ → Inode) → Type 0) → (A → Inodes) → InodeRun A → Type 0
After P state (returns a) = P (state a).table
After P state (reads i s) = P s.table
After P state _ = Unit

After-if :
    {A : Type 0} (P : (ℕ → Inode) → Type 0) (state : A → Inodes) (b : Bool) (x y : InodeRun A)
    → After P state x
    → After P state y
    → After P state (if b then x else y)
After-if P state true x y hx hy = hx
After-if P state false x y hx hy = hy

-- a change of one slot that leaves the inode its name
same_name :
    (i : ℕ) (n : Inode) (s : Inodes)
    → n.i_dev ≡ (s.table i).i_dev
    → n.i_num ≡ (s.table i).i_num
    → Fades s.table (update s.table i n)
same_name i n s d e = update-Fades i n s.table (inr (d, e))

freed-Fades :
    (i : ℕ) (s : Inodes) (r : Ran Memory)
    → After
        (Fades s.table)
        (λ s'. s')
        (elim r [
          | ok memory ↦ returns (
              set_inode i
                (record (s.table i) { i_count = 0; i_dirt = false; i_pipe = false })
                (record s { memory = memory }))
          | _ ↦ panics
        ])
freed-Fades i s (ok memory) = same_name i _ s refl refl
freed-Fades i s panicked = tt
freed-Fades i s out_of_memory = tt

put_pipe-Fades : (i : ℕ) (s : Inodes) → After (Fades s.table) (λ s'. s') (put_pipe i s)
unfolding put_pipe
put_pipe-Fades i s =
    After-if (Fades s.table) (λ s'. s') (not ((s.table i).i_count == 1)) _ _
      (same_name i _ s refl refl) (freed-Fades i s (free_page (s.table i).i_size s.memory))

put_last-Fades : (i : ℕ) (s : Inodes) → After (Fades s.table) (λ s'. s') (put_last i s)
unfolding put_last
put_last-Fades i s =
    After-if (Fades s.table) (λ s'. s') (ltb 1 (s.table i).i_count) _ _ (same_name i _ s refl refl)
      (After-if (Fades s.table) (λ s'. s') ((s.table i).i_nlinks == 0) _ _ tt
        (After-if (Fades s.table) (λ s'. s') (s.table i).i_dirt _ _ tt (same_name i _ s refl refl)))

iput-Fades : (i : ℕ) (s : Inodes) → After (Fades s.table) (λ s'. s') (iput i s)
unfolding iput
iput-Fades i s =
    After-if (Fades s.table) (λ s'. s') (s.table i).i_lock _ _ tt
      (After-if (Fades s.table) (λ s'. s') ((s.table i).i_count == 0) _ _ tt
        (After-if (Fades s.table) (λ s'. s') (s.table i).i_pipe _ _ (put_pipe-Fades i s)
          (After-if (Fades s.table) (λ s'. s') ((s.table i).i_dev == 0) _ _
            (same_name i _ s refl refl)
            (After-if (Fades s.table) (λ s'. s') (s_isblk (s.table i).i_mode) _ _ tt
              (put_last-Fades i s)))))

take_inode-Fades : (o : Option ℕ) (s : Inodes) → After (Fades s.table) (λ r. r.1) (take_inode o s)
unfolding take_inode
take_inode-Fades none s = tt
take_inode-Fades (some i) s =
    After-if (Fades s.table) (λ r. r.1) (s.table i).i_lock _ _ tt
      (After-if (Fades s.table) (λ r. r.1) (s.table i).i_dirt _ _ tt
        (update-Fades i _ s.table (inl refl)))

-- the search of iget
if-none :
    (b : Bool) (i : ℕ) (rest : Option ℕ)
    → (if b then some i else rest) ≡ none
    → (b ≡ false) × (rest ≡ none)
if-none true i rest e = cc
if-none false i rest e = (refl, e)

find_inode-none :
    (dev nr i n : ℕ) (table : ℕ → Inode)
    → find_inode dev nr i n table ≡ none
    → (k : ℕ) → i ≤ k
    → k < i + n
    → is_inode dev nr (table k) ≡ false
unfolding find_inode
find_inode-none dev nr i zero table e k lo hi = absurd (omega arith)
find_inode-none dev nr i (suc n) table e k lo hi =
    let (here, rest) = if-none (is_inode dev nr (table i)) i _ e in
    elim (Bool-cases (i == k)) [
      | inl same ↦ subst (λ m. is_inode dev nr (table m) ≡ false) ((==_iff i k).0 same) here
      | inr other ↦ find_inode-none dev nr (i + 1) n table rest k (ground arith) (omega arith)
    ]

not_named :
    (dev nr : ℕ) (n : Inode)
    → is_inode dev nr n ≡ false
    → dev ≡ n.i_dev
    → nr ≡ n.i_num
    → {A : Type 0} → A
not_named dev nr n e d m = absurd (ground arith)

module _ (dev nr empty : ℕ) (s : Inodes) (short_dev : dev < 65536) (short_nr : nr < 65536)
    (missing : find_inode dev nr 0 32 s.table ≡ none) where
  abbrev named : ℕ → Inode
  named = (name_inode dev nr empty s).table

  abbrev Row : ℕ → Type 0
  Row k =
      ((empty ≡ k) × ((named k).i_dev ≡ dev) × ((named k).i_num ≡ nr))
      ⊎ (((named k).i_dev ≡ (s.table k).i_dev) × ((named k).i_num ≡ (s.table k).i_num))

  short_fits : (n : ℕ) → n < 65536 → n % 65536 ≡ n
  short_fits n lt = omega arith

  row : (k : ℕ) → Row k
  row k = elim (Bool-cases (empty == k)) [
    | inl e ↦
        let here : named k ≡ named empty = ap named (sym ((==_iff empty k).0 e)) in
        let own =
          update_self s.table empty
            (record (s.table empty) { i_dev = dev % 65536; i_num = nr % 65536 }) in
        inl (
          (==_iff empty k).0 e,
          ap (λ n. n.i_dev) (here ∙ own) ∙ short_fits dev short_dev,
          ap (λ n. n.i_num) (here ∙ own) ∙ short_fits nr short_nr,
        )
    | inr e ↦
        let same : named k ≡ s.table k = update_ne s.table empty _ k (ground arith) in
        inr (ap (λ n. n.i_dev) same, ap (λ n. n.i_num) same)
  ]

  other : (k : ℕ) → k < 32 → is_inode dev nr (s.table k) ≡ false
  other k h = find_inode-none dev nr 0 32 s.table missing k (omega arith) (omega arith)

  name_inode-IsUnique : IsUnique s.table → IsUnique named
  name_inode-IsUnique unique i j hi hj d same_dev same_num = go (row i) (row j)
    where
      go : Row i → Row j → i ≡ j
      go (inl (e, x, y)) (inl (e', x', y')) = sym e ∙ e'
      go (inl (e, x, y)) (inr (x', y')) =
          not_named dev nr (s.table j) (other j hj) (sym x ∙ same_dev ∙ x') (sym y ∙ same_num ∙ y')
      go (inr (x, y)) (inl (e', x', y')) =
          not_named dev nr (s.table i) (other i hi) (sym x' ∙ sym same_dev ∙ x)
            (sym y' ∙ sym same_num ∙ y)
      go (inr (x, y)) (inr (x', y')) =
          unique i j hi hj (λ e. d (x ∙ e)) (sym x ∙ same_dev ∙ x') (sym y ∙ same_num ∙ y')

-- a call that leaves the names, and what is done with its result
After-go_on :
    {A B : Type 0} (old : ℕ → Inode) (state : A → Inodes) (state' : B → Inodes) (r : InodeRun A)
    (f : A → InodeRun B)
    → After (Fades old) state r
    → ((a : A) → Fades old (state a).table → After IsUnique state' (f a))
    → IsUnique old
    → After IsUnique state' (go_on r f)
After-go_on old state state' (returns a) f h next unique = next a h
After-go_on old state state' (reads i s) f h next unique = Fades-IsUnique old s.table h unique
After-go_on old state state' panics f h next unique = tt
After-go_on old state state' loops f h next unique = tt
After-go_on old state state' (waits i) f h next unique = tt
After-go_on old state state' (writes i) f h next unique = tt
After-go_on old state state' (drops i) f h next unique = tt
After-go_on old state state' (syncs i) f h next unique = tt

counted-IsUnique : (i : ℕ) (s : Inodes) → IsUnique s.table → IsUnique (count_up i s).table
counted-IsUnique i s = Fades-IsUnique s.table (count_up i s).table (same_name i _ s refl refl)

give_back-IsUnique :
    (empty i : ℕ) (s : Inodes) → IsUnique s.table → After IsUnique (λ r. r.1) (give_back empty i s)
give_back-IsUnique empty i s unique =
    After-go_on s.table (λ s'. s') (λ r. r.1) (iput empty s) (λ s1. returns (i, s1))
      (iput-Fades empty s) (λ s1 fades. Fades-IsUnique s.table s1.table fades unique) unique

module _ (again : ℕ → Inodes → InodeRun (ℕ × Inodes))
    (keeps : (dev : ℕ) (s : Inodes)
      → dev < 65536
      → IsUnique s.table
      → After IsUnique (λ r. r.1) (again dev s)) where
  at_mount-IsUnique :
      (empty i : ℕ) (o : Option ℕ) (s : Inodes)
      → IsUnique s.table
      → After IsUnique (λ r. r.1) (at_mount again empty i o s)
  unfolding at_mount
  at_mount-IsUnique empty i none s unique =
      give_back-IsUnique empty i (count_up i s) (counted-IsUnique i s unique)
  at_mount-IsUnique empty i (some j) s unique =
      let counted : IsUnique (count_up i s).table = counted-IsUnique i s unique in
      After-go_on (count_up i s).table (λ s'. s') (λ r. r.1) (iput i (count_up i s))
        (λ s1. again (s.s_dev j % 65536) s1) (iput-Fades i (count_up i s))
        (λ s1 fades.
          keeps (s.s_dev j % 65536) s1 (omega arith)
            (Fades-IsUnique (count_up i s).table s1.table fades counted))
        counted

  at_inode-IsUnique :
      (dev nr empty : ℕ) (s : Inodes)
      → dev < 65536
      → nr < 65536
      → IsUnique s.table
      → After IsUnique (λ r. r.1) (at_inode again dev nr empty (find_inode dev nr 0 32 s.table) s)
  unfolding at_inode
  at_inode-IsUnique dev nr empty s sd sn unique = go (find_inode dev nr 0 32 s.table) refl
    where
      go :
          (o : Option ℕ)
          → find_inode dev nr 0 32 s.table ≡ o
          → After IsUnique (λ r. r.1) (at_inode again dev nr empty o s)
      go none missing = name_inode-IsUnique dev nr empty s sd sn missing unique
      go (some i) at =
          After-if IsUnique (λ r. r.1) (s.table i).i_lock _ _ tt
            (After-if IsUnique (λ r. r.1) (not (s.table i).i_mount) _ _
              (give_back-IsUnique empty i (count_up i s) (counted-IsUnique i s unique))
              (at_mount-IsUnique empty i (find_mount i 0 8 s.s_imount) s unique))

iget_loop-IsUnique :
    (fuel dev nr empty : ℕ) (s : Inodes)
    → dev < 65536
    → nr < 65536
    → IsUnique s.table
    → After IsUnique (λ r. r.1) (iget_loop fuel dev nr empty s)
unfolding iget_loop
iget_loop-IsUnique zero dev nr empty s sd sn unique = tt
iget_loop-IsUnique (suc fuel) dev nr empty s sd sn unique =
    at_inode-IsUnique (λ dev1 s1. iget_loop fuel dev1 1 empty s1)
      (λ dev1 s1 lt u. iget_loop-IsUnique fuel dev1 1 empty s1 lt (omega arith) u) dev nr empty s sd
      sn unique

-- For a device and a number of 16 bits, if no inode of a disk is in two slots of the table, then this holds
-- after iget too, whether it returns or ends with read_inode, over any chain of mounted devices.
pub iget-IsUnique :
    (fuel dev nr : ℕ) (s : Inodes)
    → dev < 65536
    → nr < 65536
    → IsUnique s.table
    → After IsUnique (λ r. r.1) (iget fuel dev nr s)
unfolding iget get_empty_inode
iget-IsUnique fuel dev nr s sd sn unique =
    let scanned : ℕ × Option ℕ = scan_inodes 32 s.last_inode none s.table in
    let s0 : Inodes = record s { last_inode = scanned.0 } in
    After-if IsUnique (λ r. r.1) (dev == 0) _ _ tt
      (After-go_on s.table (λ r. r.1) (λ r. r.1) (take_inode scanned.1 s0)
        (λ (empty, s1). iget_loop fuel dev nr empty s1) (take_inode-Fades scanned.1 s0)
        (λ r fades.
          iget_loop-IsUnique fuel dev nr r.0 r.1 sd sn
            (Fades-IsUnique s.table r.1.table fades unique))
        unique)
