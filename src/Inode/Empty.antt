-- ===== src/Inode/Empty.antt =====
-- fs/inode.c: the search of get_empty_inode.
use mathlib.Core.Path.{subst}
use os_lab2_gui.Prelude.{
  ℕ, zero, suc, ◌+◌, ◌%◌, ◌<◌, ◌≡◌, refl, true, false, Option, none, some, arith, ap, ◌∙◌, sym,
}
use os_lab2_gui.Prelude.Table.{update}
use os_lab2_gui.Inode.{
  Inode, Inodes, returns, no_inode, set_inode, next_slot, is_clean, scan_inodes, take_inode,
  get_empty_inode,
}

-- the slot that is `d` steps behind `last_inode`, and one more
abbrev pub slot_after : ℕ → ℕ → ℕ
slot_after last d = (last + 1 + d) % 32

slot_after-step : (last d : ℕ) → last < 32 → slot_after (next_slot last) d ≡ slot_after last (suc d)
slot_after-step last d h = ground arith

next_slot-here : (last : ℕ) → last < 32 → next_slot last ≡ slot_after last 0
next_slot-here last h = ground arith

next_slot-below : (last : ℕ) → last < 32 → next_slot last < 32
next_slot-below last h = ground arith

-- the inode is the first one of the search that is unused, clean and unlocked
abbrev pub IsFirst : ℕ → ℕ → (ℕ → Inode) → Type 0
IsFirst d last table =
    (is_clean (table (slot_after last d)) ≡ true)
    × ((e : ℕ) → e < d → is_clean (table (slot_after last e)) ≡ false)

scan_inodes-first :
    (n d last : ℕ) (inode : Option ℕ) (table : ℕ → Inode)
    → last < 32
    → d < n
    → IsFirst d last table
    → scan_inodes n last inode table ≡ (slot_after last d, some (slot_after last d))
unfolding scan_inodes
scan_inodes-first zero d last inode table h lt first = absurd (omega arith)
scan_inodes-first (suc n) zero last inode table h lt (here, before) =
    rw (next_slot-here last h, here) refl
scan_inodes-first (suc n) (suc d) last inode table h lt (here, before) =
    let behind : IsFirst d (next_slot last) table = (
      subst (λ i. is_clean (table i) ≡ true) (sym (slot_after-step last d h)) here,
      λ e below.
          subst (λ i. is_clean (table i) ≡ false) (sym (slot_after-step last e h))
            (before (suc e) (omega arith)),
    ) in
    let other : is_clean (table (next_slot last)) ≡ false =
      subst (λ i. is_clean (table i) ≡ false) (sym (next_slot-here last h))
        (before 0 (omega arith)) in
    rw
      (
        other,
        scan_inodes-first n d (next_slot last) _ table (next_slot-below last h) (omega arith)
            behind,
        slot_after-step last d h,
      )
      refl

take_inode-clean :
    (i : ℕ) (s : Inodes)
    → is_clean (s.table i) ≡ true
    → take_inode (some i) s ≡ returns (i, set_inode i (record no_inode { i_count = 1 }) s)
unfolding take_inode
take_inode-clean i s clean = ground arith

-- If an inode is unused, clean and unlocked, get_empty_inode returns the first such inode behind last_inode,
-- with the search going round the table: it is cleared and has one user, last_inode stands at it, and nothing
-- else changes.
pub get_empty_inode-first :
    (d : ℕ) (s : Inodes)
    → s.last_inode < 32
    → d < 32
    → IsFirst d s.last_inode s.table
    → get_empty_inode s
      ≡ returns (
        slot_after s.last_inode d,
        record s {
          table = update s.table (slot_after s.last_inode d) (record no_inode { i_count = 1 });
          last_inode = slot_after s.last_inode d;
        },
      )
unfolding get_empty_inode
get_empty_inode-first d s h lt first =
    let found : scan_inodes 32 s.last_inode none s.table
        ≡ (slot_after s.last_inode d, some (slot_after s.last_inode d)) =
      scan_inodes-first 32 d s.last_inode none s.table h lt first in
    ap (λ x. take_inode x.1 (record s { last_inode = x.0 })) found
    ∙ take_inode-clean (slot_after s.last_inode d)
        (record s { last_inode = slot_after s.last_inode d }) first.0
