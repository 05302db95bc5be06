-- ===== src/Inode/Shared.antt =====
-- fs/inode.c: iget of an inode that is in use already.
use mathlib.Core.Path.{subst}
use os_lab2_gui.Prelude.{
  ℕ, zero, suc, ◌+◌, ◌%◌, ◌≤◌, ◌<◌, ◌≡◌, ◌≢◌, refl, inl, inr, true, false, some, arith, ◌==◌,
  Bool-cases, ==_iff, ap, ◌∙◌, sym,
}
use os_lab2_gui.Prelude.Table.{update, update_self, update_ne}
use os_lab2_gui.Inode.{
  Inode, Inodes, InodeRun, returns, go_on, no_inode, set_inode, count_up, iput, is_inode,
  find_inode, give_back, at_inode, iget_loop, iget,
}
use os_lab2_gui.Inode.Empty.{slot_after, IsFirst, get_empty_inode-first}
use os_lab2_gui.Inode.Get.{IsUnique}

find_inode-only :
    (dev nr i n k : ℕ) (table : ℕ → Inode)
    → i ≤ k
    → k < i + n
    → is_inode dev nr (table k) ≡ true
    → ((j : ℕ) → j < i + n → j ≢ k → is_inode dev nr (table j) ≡ false)
    → find_inode dev nr i n table ≡ some k
unfolding find_inode
find_inode-only dev nr i zero k table lo hi at others = absurd (omega arith)
find_inode-only dev nr i (suc n) k table lo hi at others = elim (Bool-cases (i == k)) [
  | inl e ↦
      rw (subst (λ m. is_inode dev nr (table m) ≡ true) (sym ((==_iff i k).0 e)) at)
        (ap some ((==_iff i k).0 e))
  | inr e ↦
      rw
        (
          others i (omega arith) (ground arith),
          find_inode-only dev nr (i + 1) n k table (ground arith) (omega arith) at
              (λ j h ne. others j (omega arith) ne),
        )
        refl
]

-- iput of the inode that get_empty_inode has returned
pub iput-unused :
    (i : ℕ) (s : Inodes)
    → s.table i ≡ record no_inode { i_count = 1 }
    → iput i s ≡ returns (set_inode i no_inode s)
unfolding iput
iput-unused i s e = rw e refl

is_inode-true : (dev nr : ℕ) (n : Inode) → n.i_dev ≡ dev → n.i_num ≡ nr → is_inode dev nr n ≡ true
is_inode-true dev nr n d m = ground arith

-- an inode with another name than the inode in slot `k`
is_inode-false :
    (k j : ℕ) (table : ℕ → Inode)
    → IsUnique table
    → k < 32
    → j < 32
    → (table k).i_dev ≢ 0
    → j ≢ k
    → is_inode (table k).i_dev (table k).i_num (table j) ≡ false
is_inode-false k j table unique hk hj dev ne =
    elim (Bool-cases (is_inode (table k).i_dev (table k).i_num (table j))) [
      | inl e ↦ absurd (ne (sym (unique k j hk hj dev (ground arith) (ground arith))))
      | inr e ↦ e
    ]

give_back-unused :
    (empty i : ℕ) (s : Inodes)
    → s.table empty ≡ record no_inode { i_count = 1 }
    → give_back empty i s ≡ returns (i, set_inode empty no_inode s)
give_back-unused empty i s e = ap (λ r. go_on r (λ s1. returns (i, s1))) (iput-unused empty s e)

at_inode-plain :
    (again : ℕ → Inodes → InodeRun (ℕ × Inodes)) (dev nr empty i : ℕ) (s : Inodes)
    → (s.table i).i_lock ≡ false
    → (s.table i).i_mount ≡ false
    → at_inode again dev nr empty (some i) s ≡ give_back empty i (count_up i s)
unfolding at_inode
at_inode-plain again dev nr empty i s unlocked plain = rw (unlocked, plain) refl

abbrev one_more : Inode → Inode
one_more n = record n { i_count = (n.i_count + 1) % 65536 }

-- the state that iget leaves: one more user of `k`, the slot `i` empty
abbrev pub Counted : ℕ → ℕ → Inodes → Inodes → Type 0
Counted k i s s' =
    (s'.table k ≡ record (s.table k) { i_count = ((s.table k).i_count + 1) % 65536 })
    × (s'.table i ≡ no_inode)
    × ((j : ℕ) → j ≢ k → j ≢ i → s'.table j ≡ s.table j)
    × (s'.memory ≡ s.memory)

module _ (fuel k d : ℕ) (s : Inodes) (unique : IsUnique s.table) (start : s.last_inode < 32)
    (below : d < 32) (first : IsFirst d s.last_inode s.table) (slot : k < 32)
    (dev : (s.table k).i_dev ≢ 0) (busy : (s.table k).i_count ≢ 0)
    (unlocked : (s.table k).i_lock ≡ false) (plain : (s.table k).i_mount ≡ false) where
  abbrev empty : ℕ
  empty = slot_after s.last_inode d

  empty-unused : (s.table empty).i_count ≡ 0
  empty-unused = ground (arith, first.0)

  apart : empty ≢ k
  apart e = busy (subst (λ m. (s.table m).i_count ≡ 0) e empty-unused)

  abbrev taken : Inodes
  taken = record s {
    table = update s.table empty (record no_inode { i_count = 1 });
    last_inode = empty;
  }

  kept : taken.table k ≡ s.table k
  kept = update_ne s.table empty (record no_inode { i_count = 1 }) k apart

  cleared : taken.table empty ≡ record no_inode { i_count = 1 }
  cleared = update_self s.table empty (record no_inode { i_count = 1 })

  others :
      (j : ℕ)
      → j < 32
      → j ≢ k
      → is_inode (s.table k).i_dev (s.table k).i_num (taken.table j) ≡ false
  others j h ne = elim (Bool-cases (empty == j)) [
    | inl e ↦
        subst (λ m. is_inode (s.table k).i_dev (s.table k).i_num (taken.table m) ≡ false)
          ((==_iff empty j).0 e)
          (subst (λ n. is_inode (s.table k).i_dev (s.table k).i_num n ≡ false) (sym cleared)
            (ground arith))
    | inr e ↦
        subst (λ n. is_inode (s.table k).i_dev (s.table k).i_num n ≡ false)
          (sym (update_ne s.table empty (record no_inode { i_count = 1 }) j (ground arith)))
          (is_inode-false k j s.table unique slot h dev ne)
  ]

  found : find_inode (s.table k).i_dev (s.table k).i_num 0 32 taken.table ≡ some k
  found =
      find_inode-only (s.table k).i_dev (s.table k).i_num 0 32 k taken.table (omega arith)
        (omega arith)
        (is_inode-true (s.table k).i_dev (s.table k).i_num (taken.table k) (ap (λ n. n.i_dev) kept)
          (ap (λ n. n.i_num) kept))
        others

  abbrev left : Inodes
  left = set_inode empty no_inode (count_up k taken)

  left-Counted : Counted k empty s left
  left-Counted = (
    update_ne (count_up k taken).table empty no_inode k apart
        ∙ update_self taken.table k _
        ∙ ap one_more kept,
    update_self (count_up k taken).table empty no_inode,
    λ j ne ne'.
        update_ne (count_up k taken).table empty no_inode j (λ e. ne' (sym e))
        ∙ update_ne taken.table k _ j (λ e. ne (sym e))
        ∙ update_ne s.table empty _ j (λ e. ne' (sym e)),
    refl,
  )

  looped : iget_loop (suc fuel) (s.table k).i_dev (s.table k).i_num empty taken ≡ returns (k, left)
  unfolding iget_loop
  looped =
      ap
        (λ o.
          at_inode (λ dev1 s1. iget_loop fuel dev1 1 empty s1) (s.table k).i_dev (s.table k).i_num
            empty o taken)
        found
      ∙ at_inode-plain _ _ _ empty k taken (ap (λ n. n.i_lock) kept ∙ unlocked)
          (ap (λ n. n.i_mount) kept ∙ plain)
      ∙ give_back-unused empty k (count_up k taken)
          (update_ne taken.table k _ empty (λ e. apart (sym e)) ∙ cleared)

  -- For an inode of a disk that is in one slot of the table only, has users, is not locked and carries no
  -- mount, iget returns that slot, with one more user on 16 bits, if the search of get_empty_inode finds an
  -- unused, clean and unlocked inode. That inode is empty and unused afterwards, so what it held is lost from
  -- the table; every other inode stays as it is.
  pub iget-Counted :
      (s' : Inodes) × (iget (suc fuel) (s.table k).i_dev (s.table k).i_num s ≡ returns (k, s'))
      × Counted k empty s s'
  unfolding iget
  iget-Counted =
      let real : ((s.table k).i_dev == 0) ≡ false = ground (arith, dev) in
      (left, rw (real, get_empty_inode-first d s start below first) looped, left-Counted)
