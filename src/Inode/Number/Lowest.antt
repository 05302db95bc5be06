-- ===== src/Inode/Number/Lowest.antt =====
-- fs/bitmap.c: new_inode takes the lowest number that is free.
use os_lab2_gui.Prelude.{
  ◌∙◌, ℕ, ◌+◌, ◌*◌, ◌/◌, ◌%◌, ◌≤◌, ◌<◌, ◌≡◌, refl, inl, inr, true, false, Option, none, some, arith,
  ltb, ◌==◌, if◌then◌else◌, Bool-cases, ap,
}
use os_lab2_gui.Prelude.Table.{update, update_self}
use os_lab2_gui.Bitmap.{MapBlock, get_super, find_map, put_bit}
use os_lab2_gui.Bitmap.Search.{FirstFree, find_map-FirstFree}
use os_lab2_gui.Bitmap.InUse.{in_use, at_bit, below_bit, full_bit, put_bit_lem}
use os_lab2_gui.Inode.{Inode, InodeRun, returns, go_on, no_inode, set_inode}
use os_lab2_gui.Inode.Empty.{slot_after, IsFirst, get_empty_inode-first}
use os_lab2_gui.Inode.Shared.{iput-unused}
use os_lab2_gui.Inode.Number.{Volume, fresh_inode, set_imap, no_number, number_inode, new_inode}

abbrev pub imap : ℕ → Volume → ℕ → Option MapBlock
imap sb v = (v.disk.super_block sb).s_imap

-- The inode in `slot` has the lowest number that was free, which is in use now.
abbrev IsNumbered : ℕ → ℕ → ℕ → Volume → Volume → Type 0
IsNumbered dev sb slot v v' =
    let n : Inode = v'.inodes.table slot in
    (n.i_dev ≡ dev % 65536)
    × (n.i_count ≡ 1)
    × (n.i_nlinks ≡ 1)
    × (n.i_num ≤ (v.disk.super_block sb).s_ninodes)
    × (in_use (imap sb v) n.i_num ≡ false)
    × ((m : ℕ) → m < n.i_num → in_use (imap sb v) m ≡ true)
    × ((m : ℕ) → in_use (imap sb v') m ≡ (if m == n.i_num then true else in_use (imap sb v) m))

-- what new_inode returns, with the inode that get_empty_inode gives it
abbrev pub Numbered : ℕ → ℕ → ℕ → Volume → Option ℕ → Volume → Type 0
Numbered dev sb slot v none v' =
    ((m : ℕ) → m ≤ (v.disk.super_block sb).s_ninodes → m < 65536 → in_use (imap sb v) m ≡ true)
    × (v'.disk ≡ v.disk)
    × (v'.inodes.table slot ≡ no_inode)
Numbered dev sb slot v (some i) v' = (i ≡ slot) × IsNumbered dev sb slot v v'

module _ (dev sb slot : ℕ) (v : Volume)
    (taken : v.inodes.table slot ≡ record no_inode { i_count = 1 }) where
  abbrev Ends : InodeRun (Option ℕ × Volume) → Type 0
  Ends r = (o : Option ℕ) × (v' : Volume) × (r ≡ returns (o, v')) × Numbered dev sb slot v o v'

  no_number-Ends :
      ((m : ℕ) → m ≤ (v.disk.super_block sb).s_ninodes → m < 65536 → in_use (imap sb v) m ≡ true)
      → Ends (no_number slot v)
  unfolding no_number
  no_number-Ends full = (
    none,
    record v { inodes = set_inode slot no_inode v.inodes },
    ap (λ r. go_on r (λ s. returns (none, record v { inodes = s })))
        (iput-unused slot v.inodes taken),
    (full, refl, update_self v.inodes.table slot no_inode),
  )

  module _ (i j : ℕ) (b : MapBlock) (found : FirstFree 0 8 (imap sb v) (some (i, j, b))) where
    abbrev numbered : Volume
    numbered = record {
      inodes = set_inode slot (fresh_inode dev (j + i * 8192) (v.inodes.table slot)) v.inodes;
      disk = set_imap sb i (put_bit j true b) v.disk;
    }

    here : numbered.inodes.table slot ≡ fresh_inode dev (j + i * 8192) (v.inodes.table slot)
    here = update_self v.inodes.table slot _

    new_imap : imap sb numbered ≡ update (imap sb v) i (some (put_bit j true b))
    new_imap = ap (λ t. t.s_imap) (update_self v.disk.super_block sb _)

    short_fits : i < 8 → j < 8192 → (j + i * 8192) % 65536 ≡ j + i * 8192
    short_fits hi hj = omega arith

    numbered-IsNumbered :
        j + i * 8192 ≤ (v.disk.super_block sb).s_ninodes → IsNumbered dev sb slot v numbered
    numbered-IsNumbered le =
        let num : (numbered.inodes.table slot).i_num ≡ j + i * 8192 =
          ap (λ n. n.i_num) here ∙ short_fits found.1 found.3 in
        (
          ap (λ n. n.i_dev) here,
          ap (λ n. n.i_count) here,
          ap (λ n. n.i_nlinks) here,
          rw num le,
          rw num (at_bit (imap sb v) i j b found),
          (λ m lt. below_bit (imap sb v) i j b found m (omega (arith, num, lt))),
          λ m. rw (new_imap, num) (put_bit_lem (imap sb v) i j b true m found.2 found.3),
        )

    number_inode-some : Ends (number_inode dev sb (some (i, j, b)) slot v)
    unfolding number_inode
    number_inode-some = elim (Bool-cases (ltb (v.disk.super_block sb).s_ninodes (j + i * 8192))) [
      | inl e ↦
          rw e (no_number-Ends (λ m le lt. below_bit (imap sb v) i j b found m (ground arith)))
      | inr e ↦
          (some slot, numbered, rw (e, found.4) refl, (refl, numbered-IsNumbered (ground arith)))
    ]

  number_inode-Ends :
      (o : Option (ℕ × ℕ × MapBlock))
      → FirstFree 0 8 (imap sb v) o
      → Ends (number_inode dev sb o slot v)
  unfolding number_inode
  number_inode-Ends none full = no_number-Ends (λ m le lt.
      full_bit (imap sb v (m / 8192)) (m % 8192) (full (m / 8192) (omega arith) (omega arith))
        (omega arith))
  number_inode-Ends (some (i, j, b)) found = number_inode-some i j b found

-- If there is an unused, clean and unlocked inode in the table and the device has a super block, new_inode
-- returns. It returns NULL only if no number up to s_ninodes is free in the map, which has 65536 bits; then
-- the maps are as before, and the inode of the table is given back. Otherwise it returns that inode, with one
-- user and one link, and with the device on 16 bits: its number is at most s_ninodes and the lowest that was free, and exactly its bit is set.
pub new_inode-Numbered :
    (dev sb d : ℕ) (v : Volume)
    → get_super dev v.disk ≡ some sb
    → v.inodes.last_inode < 32
    → d < 32
    → IsFirst d v.inodes.last_inode v.inodes.table
    → (o : Option ℕ) × (v' : Volume) × (new_inode dev v ≡ returns (o, v'))
      × Numbered dev sb (slot_after v.inodes.last_inode d) v o v'
unfolding new_inode
new_inode-Numbered dev sb d v super start below first =
    let slot : ℕ = slot_after v.inodes.last_inode d in
    let v1 : Volume = record v {
      inodes = record v.inodes {
        table = update v.inodes.table slot (record no_inode { i_count = 1 });
        last_inode = slot;
      };
    } in
    let (o, v', ran, holds) =
      number_inode-Ends dev sb slot v1
        (update_self v.inodes.table slot (record no_inode { i_count = 1 }))
        (find_map 0 8 (imap sb v)) (find_map-FirstFree 0 8 (imap sb v)) in
    (o, v', rw (get_empty_inode-first d v.inodes start below first, super) ran, holds)
