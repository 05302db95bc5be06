-- ===== src/Signal/Longs.antt =====
-- kernel/signal.c: the longs that do_signal puts on the stack.
use os_lab2_gui.Prelude.{
  ℕ, zero, suc, ◌+◌, ◌*◌, ◌%◌, ◌^◌, ◌≤◌, ◌<◌, ◌≡◌, ◌⊎◌, refl, inl, some, List, [], ◌∷◌, length,
  get_elem?, arith, some-eq, ap, ◌∙◌,
}
use os_lab2_gui.Prelude.Table.{update, update_self, update_ne}
use os_lab2_gui.Signal.{Long, put_longs}

-- Where the longs lie, if the addresses do not wrap.
put_longs-other :
    (vs : List Long) (top : ℕ) (user : ℕ → Long) (a : ℕ)
    → top + 4 * length vs < 2 ^ 32
    → (a < top) ⊎ (top + 4 * length vs ≤ a)
    → put_longs vs top user a ≡ user a
put_longs-other [] top user a h out = refl
put_longs-other (v ∷ vs) top user a h out =
    put_longs-other vs ((top + 4) % 2 ^ 32) (update user top v) a (omega arith) (omega arith)
    ∙ update_ne user top v a (omega arith)

put_longs-at :
    (vs : List Long) (top : ℕ) (user : ℕ → Long) (i : ℕ) (v : Long)
    → top + 4 * length vs < 2 ^ 32
    → get_elem? vs i ≡ some v
    → put_longs vs top user (top + 4 * i) ≡ v
put_longs-at [] top user i v h e = cc
put_longs-at (w ∷ vs) top user zero v h e =
    let here : top + 4 * 0 ≡ top = omega arith in
    ap (put_longs (w ∷ vs) top user) here
    ∙ put_longs-other vs ((top + 4) % 2 ^ 32) (update user top w) top (omega arith)
        (inl (omega arith))
    ∙ update_self user top w
    ∙ some-eq e
put_longs-at (w ∷ vs) top user (suc i) v h e =
    let next : top + 4 * suc i ≡ (top + 4) % 2 ^ 32 + 4 * i = omega arith in
    ap (put_longs (w ∷ vs) top user) next
    ∙ put_longs-at vs ((top + 4) % 2 ^ 32) (update user top w) i v (omega arith) e

-- the same, with the length given
pub put_longs-outside :
    (vs : List Long) (n top : ℕ) (user : ℕ → Long) (a : ℕ)
    → length vs ≡ n
    → top + 4 * n < 2 ^ 32
    → (a < top) ⊎ (top + 4 * n ≤ a)
    → put_longs vs top user a ≡ user a
put_longs-outside vs n top user a e h out =
    put_longs-other vs top user a (omega arith) (omega arith)

pub put_longs-inside :
    (vs : List Long) (n top : ℕ) (user : ℕ → Long) (i : ℕ) (v : Long)
    → length vs ≡ n
    → top + 4 * n < 2 ^ 32
    → get_elem? vs i ≡ some v
    → put_longs vs top user (top + 4 * i) ≡ v
put_longs-inside vs n top user i v e h at = put_longs-at vs top user i v (omega arith) at
