-- ===== src/Bitmap/Search.antt =====
-- fs/bitmap.c: the searches for a bit that is 0.
use mathlib.Core.Path.{subst}
use os_lab2_gui.Prelude.{
  ℕ, zero, suc, ◌+◌, ◌≤◌, ◌<◌, ◌≡◌, inl, inr, true, false, Option, none, some, arith, ◌==◌, ltb,
  Bool-cases, Option-cases, ltb→lt, ==_iff,
}
use os_lab2_gui.Prelude.Bits.{Bits}
use os_lab2_gui.Bitmap.{MapBlock, first_zero, find_first_zero, find_map}

-- `r` is the first 0 of the `n` bits from `i` on, or their end
abbrev pub IsFirstZero : ℕ → ℕ → Bits → ℕ → Type 0
IsFirstZero i n bits r =
    (i ≤ r) × (r ≤ i + n) × ((k : ℕ) → i ≤ k → k < r → bits k ≡ true) × (r < i + n → bits r ≡ false)

first_zero-IsFirstZero : (i n : ℕ) (bits : Bits) → IsFirstZero i n bits (first_zero i n bits)
unfolding first_zero
first_zero-IsFirstZero i zero bits =
    (omega arith, omega arith, (λ k lo hi. absurd (omega arith)), λ h. absurd (omega arith))
first_zero-IsFirstZero i (suc n) bits = elim (Bool-cases (bits i)) [
  | inl e ↦
      let (lo, hi, before, at) = first_zero-IsFirstZero (i + 1) n bits in
      rw e (
        omega arith,
        omega arith,
        λ k lo' hi'. elim (Bool-cases (i == k)) [
          | inl here ↦ subst (λ m. bits m ≡ true) ((==_iff i k).0 here) e
          | inr other ↦ before k (ground arith) hi'
        ],
        λ h. at (omega arith),
      )
  | inr e ↦ rw e (omega arith, omega arith, (λ k lo hi. absurd (omega arith)), λ h. e)
]

-- every bit of a map is 1
abbrev pub IsFull : Option MapBlock → Type 0
IsFull none = Unit
IsFull (some b) = (k : ℕ) → k < 8192 → b.bits k ≡ true

-- `m` is the first of the `n` maps from `i` on with a 0, which is its first one
abbrev pub FirstFree : ℕ → ℕ → (ℕ → Option MapBlock) → Option (ℕ × ℕ × MapBlock) → Type 0
FirstFree i n maps none = (k : ℕ) → i ≤ k → k < i + n → IsFull (maps k)
FirstFree i n maps (some (m, j, b)) =
    (i ≤ m)
    × (m < i + n)
    × (maps m ≡ some b)
    × (j < 8192)
    × (b.bits j ≡ false)
    × ((k : ℕ) → k < j → b.bits k ≡ true)
    × ((k : ℕ) → i ≤ k → k < m → IsFull (maps k))

FirstFree-later :
    (i n : ℕ) (maps : ℕ → Option MapBlock) (o : Option (ℕ × ℕ × MapBlock))
    → IsFull (maps i)
    → FirstFree (i + 1) n maps o
    → FirstFree i (suc n) maps o
FirstFree-later i n maps none full h = λ k lo hi. elim (Bool-cases (i == k)) [
  | inl e ↦ subst (λ m. IsFull (maps m)) ((==_iff i k).0 e) full
  | inr e ↦ h k (ground arith) (omega arith)
]
FirstFree-later i n maps (some (m, j, b)) full (lo, hi, here, small, free, below, before) = (
  omega arith,
  omega arith,
  here,
  small,
  free,
  below,
  λ k ge lt. elim (Bool-cases (i == k)) [
    | inl e ↦ subst (λ m. IsFull (maps m)) ((==_iff i k).0 e) full
    | inr e ↦ before k (ground arith) lt
  ],
)

module _ (i n : ℕ) (maps : ℕ → Option MapBlock) where
  found_here :
      (b : MapBlock)
      → maps i ≡ some b
      → ltb (find_first_zero b.bits) 8192 ≡ true
      → FirstFree i (suc n) maps (some (i, find_first_zero b.bits, b))
  found_here b here e =
      let (lo, hi, before, at) = first_zero-IsFirstZero 0 8192 b.bits in
      let small : find_first_zero b.bits < 8192 = ltb→lt _ 8192 e in
      (
        omega arith,
        omega arith,
        here,
        small,
        at small,
        λ k lt. before k (omega arith) lt,
        λ k ge lt. absurd (omega arith),
      )

  first_zero-IsFull : (b : MapBlock) → ltb (find_first_zero b.bits) 8192 ≡ false → IsFull (some b)
  first_zero-IsFull b e k lt =
      let (lo, hi, before, at) = first_zero-IsFirstZero 0 8192 b.bits in
      before k (omega arith) (ground arith)

pub find_map-FirstFree :
    (i n : ℕ) (maps : ℕ → Option MapBlock) → FirstFree i n maps (find_map i n maps)
unfolding find_map
find_map-FirstFree i zero maps = λ k lo hi. absurd (omega arith)
find_map-FirstFree i (suc n) maps = elim (Option-cases (maps i)) [
  | inl e ↦
      rw (e, FirstFree)
        (FirstFree-later i n maps (find_map (i + 1) n maps) (rw e tt)
          (find_map-FirstFree (i + 1) n maps))
  | inr (b, e) ↦ elim (Bool-cases (ltb (find_first_zero b.bits) 8192)) [
    | inl found ↦ rw (e, found, FirstFree) (found_here i n maps b e found)
    | inr full ↦
        rw (e, full, FirstFree)
          (FirstFree-later i n maps (find_map (i + 1) n maps)
            (rw e (first_zero-IsFull i n maps b full)) (find_map-FirstFree (i + 1) n maps))
  ]
]
