-- ===== src/Bitmap/InUse.antt =====
-- fs/bitmap.c: the bits of the eight maps of a device, read as one.
use os_lab2_gui.Prelude.{
  ℕ, ◌+◌, ◌*◌, ◌/◌, ◌%◌, ◌<◌, ◌≡◌, ◌≢◌, refl, sym, inl, inr, Bool, true, false, Option, none, some,
  arith, ◌==◌, if◌then◌else◌, Bool-cases, ==_iff,
}
use os_lab2_gui.Prelude.Table.{update}
use os_lab2_gui.Bitmap.{MapBlock, put_bit}
use os_lab2_gui.Bitmap.Search.{IsFull, FirstFree}

abbrev pub Maps : Type 0
Maps = ℕ → Option MapBlock

abbrev bit_of : Option MapBlock → ℕ → Bool
bit_of none k = true
bit_of (some b) k = b.bits k

-- the bit `m` of the maps; where there is no map nothing is free
abbrev pub in_use : Maps → ℕ → Bool
in_use maps m = bit_of (maps (m / 8192)) (m % 8192)

pub full_bit : (o : Option MapBlock) (k : ℕ) → IsFull o → k < 8192 → bit_of o k ≡ true
full_bit none k full lt = refl
full_bit (some b) k full lt = full k lt

-- the first free bit
module _ (maps : Maps) (i j : ℕ) (b : MapBlock) (found : FirstFree 0 8 maps (some (i, j, b))) where
  pub at_bit : in_use maps (j + i * 8192) ≡ false
  at_bit =
      let (lo, hi, here, small, free, below, before) = found in
      let quotient : (j + i * 8192) / 8192 ≡ i = omega (arith, small) in
      let rest : (j + i * 8192) % 8192 ≡ j = omega (arith, small) in rw (quotient, rest, here) free

  pub below_bit : (m : ℕ) → m < j + i * 8192 → in_use maps m ≡ true
  below_bit m lt =
      let (lo, hi, here, small, free, below, before) = found in
      elim (Bool-cases (m / 8192 == i)) [
        | inl e ↦
            let same : m / 8192 ≡ i = (==_iff (m / 8192) i).0 e in
            rw (same, here) (below (m % 8192) (omega (arith, same, small)))
        | inr e ↦
            let ne : m / 8192 ≢ i = ground arith in
            full_bit (maps (m / 8192)) (m % 8192)
              (before (m / 8192) (omega arith) (omega (arith, ne, small, lt))) (omega arith)
      ]

-- one bit of one map is written
pub put_bit_lem :
    (maps : Maps) (i j : ℕ) (b : MapBlock) (value : Bool) (m : ℕ)
    → maps i ≡ some b
    → j < 8192
    → in_use (update maps i (some (put_bit j value b))) m
      ≡ (if m == j + i * 8192 then value else in_use maps m)
put_bit_lem maps i j b value m here small = elim (Bool-cases (i == m / 8192)) [
  | inl e ↦
      let same : m / 8192 ≡ i = sym ((==_iff i (m / 8192)).0 e) in
      rw e (elim (Bool-cases (j == m % 8192)) [
        | inl at ↦
            let here_it : (m == j + i * 8192) ≡ true = ground (arith, same) in rw (at, here_it) refl
        | inr away ↦
            let elsewhere : (m == j + i * 8192) ≡ false = ground (arith, same) in
            rw (away, elsewhere) (rw (same, here) refl)
      ])
  | inr e ↦ let other : (m == j + i * 8192) ≡ false = ground (arith, small) in rw (e, other) refl
]
