-- ===== src/Prelude/Table.antt =====
-- Tables: arrays read and written at an index, and the loops that sweep them.
use os_lab2_gui.Prelude.{
  ℕ, zero, suc, ◌≡◌, ◌≢◌, refl, ap, inl, inr, false, Bool-cases, ◌&&◌, ==_iff, arith, ◌==◌, leb,
  if◌then◌else◌,
}

module _ {ℓ} {A : Type ℓ} where
  -- `t[i] = v`
  abbrev pub update : (ℕ → A) → ℕ → A → ℕ → A
  update t i v j = if i == j then v else t j

  pub update_self : (t : ℕ → A) (i : ℕ) (v : A) → update t i v i ≡ v
  update_self t i v = rw ((==_iff i i).1 refl)

  pub update_ne : (t : ℕ → A) (i : ℕ) (v : A) (j : ℕ) → i ≢ j → update t i v j ≡ t j
  update_ne t i v j ne = rw (other)
    where
      other : (i == j) ≡ false
      other = ground arith

  pub update_same : (t : ℕ → A) (i j : ℕ) → update t i (t i) j ≡ t j
  update_same t i j = elim (Bool-cases (i == j)) [
    | inl e ↦ rw e (ap t ((==_iff i j).0 e))
    | inr e ↦ rw e refl
  ]

module _ {A : Type 0} where
  -- `for (i = k; i > 0; --i) t[i] = f(t[i]);`
  unfoldable pub sweep : ℕ → (A → A) → (ℕ → A) → ℕ → A
  sweep zero f t = t
  sweep (suc k) f t = sweep k f (update t (suc k) (f (t (suc k))))

  pub sweep_lem :
      (k : ℕ) (f : A → A) (t : ℕ → A) (i : ℕ)
      → sweep k f t i ≡ (if leb 1 i && leb i k then f (t i) else t i)
  unfolding sweep
  sweep_lem zero f t i = ground arith
  sweep_lem (suc k) f t i = ground (arith, sweep_lem k f (update t (suc k) (f (t (suc k)))) i)
