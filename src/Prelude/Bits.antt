-- ===== src/Prelude/Bits.antt =====
-- A machine word on which the code computes bit by bit only: the value of each bit.
use os_lab2_gui.Prelude.{
  ℕ, zero, suc, ◌<◌, ◌≡◌, Bool, true, false, not, ◌&&◌, ◌||◌, arith, ◌==◌, ap, inl, inr, Bool-cases,
  ==_iff,
}

abbrev pub Bits : Type 0
Bits = ℕ → Bool

abbrev pub zeros : Bits
zeros i = false

-- `1 << k`
abbrev pub bit : ℕ → Bits
bit k i = k == i

abbrev pub bits_or : Bits → Bits → Bits
bits_or a b i = a i || b i

abbrev pub bits_and : Bits → Bits → Bits
bits_and a b i = a i && b i

abbrev pub bits_not : Bits → Bits
bits_not a i = not (a i)

-- whether one of the bits below `w` is set: the test of a `w`-bit word against 0
pub any_bit : ℕ → Bits → Bool
any_bit zero a = false
any_bit (suc w) a = a w || any_bit w a

pub any_bit-of_bit : (w : ℕ) (a : Bits) (i : ℕ) → i < w → a i ≡ true → any_bit w a ≡ true
unfolding any_bit
any_bit-of_bit zero a i h e = absurd (omega arith)
any_bit-of_bit (suc w) a i h e = elim (Bool-cases (i == w)) [
  | inl same ↦ ground (arith, ap a ((==_iff i w).0 same))
  | inr other ↦ ground (arith, any_bit-of_bit w a i)
]

pub bit-of_any_bit : (w : ℕ) (a : Bits) → any_bit w a ≡ true → (i : ℕ) × (i < w) × (a i ≡ true)
unfolding any_bit
bit-of_any_bit zero a e = cc
bit-of_any_bit (suc w) a e = elim (Bool-cases (a w)) [
  | inl here ↦ (w, omega arith, here)
  | inr not_here ↦ let (i, h, set) = bit-of_any_bit w a (rw not_here at e) in (i, omega arith, set)
]
