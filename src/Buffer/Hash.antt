-- ===== src/Buffer/Hash.antt =====
-- fs/buffer.c: the hash table as lists of buffers, and find_buffer.
use os_lab2_gui.Prelude.{
  ℕ, zero, suc, ◌<◌, ◌≡◌, ◌≢◌, refl, false, List, [], ◌∷◌, length, arith, ◌==◌, if◌then◌else◌,
}
use os_lab2_gui.Prelude.Chain.{null, Distinct}
use os_lab2_gui.Buffer.{
  Cache, hash_fn, at_pointer, set_prev, set_next, holds_block, find_loop, find_buffer,
}
use os_lab2_gui.Prelude.Members.{In}
use os_lab2_gui.Buffer.Queue.{Links, Queue}

abbrev pub prev_of : Cache → Links
prev_of c a = (c.head a).b_prev

abbrev pub next_of : Cache → Links
next_of c a = (c.head a).b_next

abbrev pub hash_of : Cache → ℕ → ℕ
hash_of c a = hash_fn (c.head a).b_dev (c.head a).b_blocknr

abbrev pub Lists : Type 0
Lists = ℕ → List ℕ

-- The hash queue `h` is the list `lists h`: linked both ways, without repetition, of buffers that have a
-- device and belong to it.
abbrev pub HashedAt : Cache → ℕ → List ℕ → Type 0
HashedAt c h xs =
    Queue (prev_of c) (next_of c) null (c.hash_table h) xs
    × Distinct xs
    × ((a : ℕ) → In a xs → (hash_of c a ≡ h) × ((c.head a).b_dev ≢ 0))

abbrev pub Hashed : Cache → Lists → Type 0
Hashed c lists = (h : ℕ) → HashedAt c h (lists h)

-- what a search for a block in a list finds
abbrev pub first_with : ℕ → ℕ → Cache → List ℕ → ℕ
first_with dev block c [] = null
first_with dev block c (x ∷ xs) =
    if holds_block dev block (c.head x) then x else first_with dev block c xs

find_loop_lem :
    (fuel dev block p a : ℕ) (c : Cache) (xs : List ℕ)
    → length xs < fuel
    → Queue (prev_of c) (next_of c) p a xs
    → find_loop fuel dev block a c ≡ first_with dev block c xs
unfolding find_loop
find_loop_lem zero dev block p a c xs h queue = absurd (omega arith)
find_loop_lem (suc fuel) dev block p a c [] h e = rw e refl
find_loop_lem (suc fuel) dev block p a c (x ∷ xs) h (e, ne, before, rest) =
    let nonnull : (a == null) ≡ false = ground arith in
    rw nonnull
      (rw e (rw (find_loop_lem fuel dev block x (next_of c x) c xs (omega arith) rest) refl))

pub find_buffer_lem :
    (fuel dev block : ℕ) (c : Cache) (lists : Lists)
    → Hashed c lists
    → length (lists (hash_fn dev block)) < fuel
    → find_buffer fuel dev block c ≡ first_with dev block c (lists (hash_fn dev block))
unfolding find_buffer
find_buffer_lem fuel dev block c lists hashed h =
    find_loop_lem fuel dev block null _ c _ h (hashed (hash_fn dev block)).0

-- one assignment to a pointer's buffer, read back
module _ (a v : ℕ) (c : Cache) (b : ℕ) (ne : b ≢ null) where
  pub set_prev-prev : prev_of (at_pointer a (set_prev v) c) b ≡ (if b == a then v else prev_of c b)
  set_prev-prev = ground arith

  pub set_prev-next : next_of (at_pointer a (set_prev v) c) b ≡ next_of c b
  set_prev-next = ground arith

  pub set_next-next : next_of (at_pointer a (set_next v) c) b ≡ (if b == a then v else next_of c b)
  set_next-next = ground arith

  pub set_next-prev : prev_of (at_pointer a (set_next v) c) b ≡ prev_of c b
  set_next-prev = ground arith
