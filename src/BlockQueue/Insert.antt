-- ===== src/BlockQueue/Insert.antt =====
-- kernel/blk_drv/ll_rw_blk.c: add_request, as an insertion into the list of requests of a device.
use mathlib.Core.Path.{subst}
use os_lab2_gui.Prelude.{
  ℕ, zero, suc, ◌<◌, ◌≡◌, ◌≢◌, refl, sym, ◌∙◌, inl, inr, true, false, List, [], ◌∷◌, length, arith,
  ◌==◌, if◌then◌else◌, Bool-cases,
}
use os_lab2_gui.Prelude.Table.{update, update_self, update_ne}
use os_lab2_gui.Prelude.Chain.{null, Linked, NotIn, Distinct, Linked-update}
use os_lab2_gui.Prelude.Members.{In, In-ne}
use os_lab2_gui.BlockQueue.{Request, in_order, fits, find_place, link_behind}

abbrev pub Requests : Type 0
Requests = ℕ → Request

abbrev pub next_of : Requests → ℕ → ℕ
next_of table a = (table a).next

-- the list of pointers with `x`, behind the first place that fits
abbrev pub placed : Requests → ℕ → List ℕ → List ℕ
placed table x [] = x ∷ []
placed table x (t ∷ []) = t ∷ x ∷ []
placed table x (t ∷ n ∷ r) =
    if fits (table t) (table x) (table n) then t ∷ x ∷ n ∷ r else t ∷ placed table x (n ∷ r)

pub Linked-congr :
    (next next' : ℕ → ℕ) (p : ℕ) (xs : List ℕ)
    → ((b : ℕ) → next' b ≡ next b)
    → Linked next p xs
    → Linked next' p xs
Linked-congr next next' p [] same e = e
Linked-congr next next' p (x ∷ xs) same (e, ne, rest) = (
  e,
  ne,
  subst (λ k. Linked next' k xs) (sym (same x)) (Linked-congr next next' (next x) xs same rest),
)

link_behind-next :
    (p x : ℕ) (table : Requests) (b : ℕ)
    → p ≢ x
    → next_of (link_behind p x table) b ≡ update (update (next_of table) x (next_of table p)) p x b
unfolding link_behind
link_behind-next p x table b ne = ground arith

-- `x` behind the first request
Linked-second :
    (next : ℕ → ℕ) (x t : ℕ) (ys : List ℕ)
    → x ≢ null
    → NotIn x (t ∷ ys)
    → Distinct (t ∷ ys)
    → Linked next t (t ∷ ys)
    → Linked (update (update next x (next t)) t x) t (t ∷ x ∷ ys)
Linked-second next x t ys nonnull out d (e, ne, rest) =
    let reads : update (update next x (next t)) t x x ≡ next t =
      update_ne (update next x (next t)) t x x (λ w. out.0 (sym w)) ∙ update_self next x (next t) in
    (
      refl,
      ne,
      (
        update_self (update next x (next t)) t x,
        nonnull,
        subst (λ k. Linked (update (update next x (next t)) t x) k ys) (sym reads)
            (Linked-update (update next x (next t)) t x (next t) ys d.0
              (Linked-update next x (next t) (next t) ys out.1 rest)),
      ),
    )

-- the place is in the list, and the list is linked behind the writes
abbrev pub Inserted : ℕ → Requests → ℕ → List ℕ → ℕ → Type 0
Inserted x table t xs place =
    In place xs × Linked (next_of (link_behind place x table)) t (placed table x xs)

module _ (x : ℕ) (table : Requests) (nonnull : x ≢ null) where
  at_first :
      (t : ℕ) (ys : List ℕ)
      → NotIn x (t ∷ ys)
      → Distinct (t ∷ ys)
      → Linked (next_of table) t (t ∷ ys)
      → Linked (next_of (link_behind t x table)) t (t ∷ x ∷ ys)
  at_first t ys out d linked =
      Linked-congr (update (update (next_of table) x (next_of table t)) t x)
        (next_of (link_behind t x table)) t (t ∷ x ∷ ys)
        (λ b. link_behind-next t x table b (λ w. out.0 (sym w)))
        (Linked-second (next_of table) x t ys nonnull out d linked)

  -- a request before the place keeps its pointer
  before :
      (place t n : ℕ) (r : List ℕ)
      → In place (n ∷ r)
      → NotIn x (t ∷ n ∷ r)
      → Distinct (t ∷ n ∷ r)
      → next_of (link_behind place x table) t ≡ next_of table t
  before place t n r member out d =
      let not_place : place ≢ t = In-ne t place (n ∷ r) d.0 member in
      let place_ne_x : place ≢ x = In-ne x place (n ∷ r) out.1 member in
      link_behind-next place x table t place_ne_x
      ∙ update_ne (update (next_of table) x (next_of table place)) place x t not_place
      ∙ update_ne (next_of table) x (next_of table place) t out.0

  -- one turn of the loop, with `n` behind `t`
  module _ (fuel t n : ℕ) (e : next_of table t ≡ n) (ne : n ≢ null) where
    more : (next_of table t == null) ≡ false
    more = ground arith

    turn-fits : fits (table t) (table x) (table n) ≡ true → find_place (suc fuel) x t table ≡ t
    unfolding find_place in_order
    turn-fits fit = rw (more, e, fit) refl

    turn-on :
        fits (table t) (table x) (table n) ≡ false
        → find_place (suc fuel) x t table ≡ find_place fuel x n table
    unfolding find_place in_order
    turn-on unfit = rw (more, e, unfit) refl

  pub find_place-Inserted :
      (fuel t : ℕ) (ys : List ℕ)
      → length ys < fuel
      → NotIn x (t ∷ ys)
      → Distinct (t ∷ ys)
      → Linked (next_of table) t (t ∷ ys)
      → Inserted x table t (t ∷ ys) (find_place fuel x t table)
  unfolding find_place
  find_place-Inserted zero t ys h out d linked = absurd (omega arith)
  find_place-Inserted (suc fuel) t [] h out d (e, ne, rest) =
      let last : (next_of table t == null) ≡ true = ground (arith, rest) in
      rw (last, Inserted) (inl refl, at_first t [] out d (e, ne, rest))
  find_place-Inserted (suc fuel) t (n ∷ r) h out d (e, ne, (e', ne', rest)) =
      elim (Bool-cases (fits (table t) (table x) (table n))) [
        | inl fit ↦
            subst (Inserted x table t (t ∷ n ∷ r)) (sym (turn-fits fuel t n e' ne' fit))
              (rw (fit, Inserted) (inl refl, at_first t (n ∷ r) out d (e, ne, (e', ne', rest))))
        | inr unfit ↦
            let (member, linked) =
              find_place-Inserted fuel n r (omega arith) out.1 d.1 (refl, ne', rest) in
            let kept : next_of (link_behind (find_place fuel x n table) x table) t ≡ n =
              before (find_place fuel x n table) t n r member out d ∙ e' in
            subst (Inserted x table t (t ∷ n ∷ r)) (sym (turn-on fuel t n e' ne' unfit)) (
              rw (unfit, Inserted)
                (
                  inr member,
                  (
                    e,
                    ne,
                    subst
                        (λ k.
                          Linked (next_of (link_behind (find_place fuel x n table) x table)) k
                            (placed table x (n ∷ r)))
                        (sym kept) linked,
                  ),
                ))
      ]
