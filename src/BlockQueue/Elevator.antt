-- ===== src/BlockQueue/Elevator.antt =====
-- kernel/blk_drv/ll_rw_blk.c: add_request keeps the queue of a device in the order of the elevator.
use mathlib.Core.Path.{subst}
use os_lab2_gui.Prelude.{
  ℕ, ◌≤◌, ◌<◌, ◌≡◌, ◌≢◌, refl, sym, ap, ◌∙◌, inl, inr, Bool, true, false, List, [], ◌∷◌, length,
  arith, ◌==◌, Bool-cases, ==_iff,
}
use os_lab2_gui.Prelude.Table.{update, update_self}
use os_lab2_gui.Prelude.Chain.{null, Linked, NotIn, Distinct, Linked-update}
use os_lab2_gui.BlockQueue.{
  Request, Device, in_order, fits, find_place, set_next, link_behind, add_request,
}
use os_lab2_gui.BlockQueue.Sweep.{elevate, TwoSweeps, Differs, elevate-TwoSweeps}
use os_lab2_gui.BlockQueue.Insert.{
  Requests, next_of, placed, Linked-congr, Inserted, find_place-Inserted,
}

-- a request without its pointer
abbrev pub bare : Requests → ℕ → Request
bare table a = set_next null (table a)

abbrev pub list_of : Requests → List ℕ → List Request
list_of table [] = []
list_of table (x ∷ xs) = bare table x ∷ list_of table xs

list_of-congr :
    (table table' : Requests) (xs : List ℕ)
    → ((b : ℕ) → bare table' b ≡ bare table b)
    → list_of table' xs ≡ list_of table xs
list_of-congr table table' [] same = refl
list_of-congr table table' (x ∷ xs) same = rw (same x, list_of-congr table table' xs same) refl

list_of-placed :
    (table : Requests) (x : ℕ) (xs : List ℕ)
    → list_of table (placed table x xs) ≡ elevate (bare table x) (list_of table xs)
unfolding in_order
list_of-placed table x [] = refl
list_of-placed table x (t ∷ []) = refl
list_of-placed table x (t ∷ n ∷ r) = elim (Bool-cases (fits (table t) (table x) (table n))) [
  | inl e ↦ rw e refl
  | inr e ↦ rw e (ap (λ l. bare table t ∷ l) (list_of-placed table x (n ∷ r)))
]

NotIn-placed :
    (table : Requests) (x b : ℕ) (xs : List ℕ) → b ≢ x → NotIn b xs → NotIn b (placed table x xs)
NotIn-placed table x b [] ne out = (ne, tt)
NotIn-placed table x b (t ∷ []) ne out = (out.0, (ne, tt))
NotIn-placed table x b (t ∷ n ∷ r) ne out = elim (Bool-cases (fits (table t) (table x) (table n))) [
  | inl e ↦ rw e (out.0, (ne, out.1))
  | inr e ↦ rw e (out.0, NotIn-placed table x b (n ∷ r) ne out.1)
]

Distinct-placed :
    (table : Requests) (x : ℕ) (xs : List ℕ)
    → NotIn x xs
    → Distinct xs
    → Distinct (placed table x xs)
Distinct-placed table x [] out d = (tt, tt)
Distinct-placed table x (t ∷ []) out d = (((λ w. out.0 (sym w)), tt), (tt, tt))
Distinct-placed table x (t ∷ n ∷ r) out d = elim (Bool-cases (fits (table t) (table x) (table n))) [
  | inl e ↦ rw e (((λ w. out.0 (sym w)), d.0), (out.1, d.1))
  | inr e ↦ rw e (
    NotIn-placed table x t (n ∷ r) (λ w. out.0 (sym w)) d.0,
    Distinct-placed table x (n ∷ r) out.1 d.1,
  )
]

bare-set_next :
    (table : Requests) (a n b : ℕ) → bare (update table a (set_next n (table a))) b ≡ bare table b
bare-set_next table a n b = elim (Bool-cases (a == b)) [
  | inl e ↦ rw e (ap (bare table) ((==_iff a b).0 e))
  | inr e ↦ rw e refl
]

bare-link_behind :
    (p x : ℕ) (table : Requests) (b : ℕ) → bare (link_behind p x table) b ≡ bare table b
unfolding link_behind
bare-link_behind p x table b =
    let table1 : Requests = update table x (set_next (table p).next (table x)) in
    bare-set_next table1 p x b ∙ bare-set_next table x (table p).next b

-- The queue of a device holds the requests at `xs`, in at most two sweeps.
abbrev pub Holds : Device → ℕ → List ℕ → Type 0
Holds d major xs =
    Linked (next_of d.request) (d.current_request major) xs
    × Distinct xs
    × TwoSweeps (list_of d.request xs)

abbrev pub is_nil : List ℕ → Bool
is_nil [] = true
is_nil (x ∷ xs) = false

-- what add_request leaves: whether request_fn is called, and the queue
abbrev pub Queued : Device → ℕ → ℕ → List ℕ → Bool → Device → Type 0
Queued d major req xs starts d' =
    (starts ≡ is_nil xs)
    × (ys : List ℕ) × Holds d' major ys
    × (list_of d'.request ys ≡ elevate (bare d.request req) (list_of d.request xs))

module _ (fuel major req : ℕ) (d : Device) (nonnull : req ≢ null) where
  -- `req->next = NULL;`
  abbrev table : Requests
  table = update d.request req (set_next null (d.request req))

  abbrev first : ℕ
  first = d.current_request major

  table-Linked :
      (p : ℕ) (xs : List ℕ)
      → NotIn req xs
      → Linked (next_of d.request) p xs
      → Linked (next_of table) p xs
  table-Linked p xs out linked =
      Linked-congr (update (next_of d.request) req null) (next_of table) p xs (λ b. ground arith)
        (Linked-update (next_of d.request) req null p xs out linked)

  bare-table : (b : ℕ) → bare table b ≡ bare d.request b
  bare-table b = bare-set_next d.request req null b

  -- the queue of a device that has requests
  module _ (t : ℕ) (ys : List ℕ) (h : length ys < fuel) (out : NotIn req (t ∷ ys))
      (differs : Differs (bare d.request req) (list_of d.request (t ∷ ys)))
      (holds : Holds d major (t ∷ ys)) where
    abbrev place : ℕ
    place = find_place fuel req first table

    abbrev after : Requests
    after = link_behind place req table

    abbrev queue : List ℕ
    queue = placed table req (t ∷ ys)

    inserted : Inserted req table t (t ∷ ys) place
    inserted =
        subst (λ f. Inserted req table t (t ∷ ys) (find_place fuel req f table)) (sym holds.0.0)
          (find_place-Inserted req table nonnull fuel t ys h out holds.1
            (table-Linked t (t ∷ ys) out (refl, holds.0.1, holds.0.2)))

    elevated : list_of after queue ≡ elevate (bare d.request req) (list_of d.request (t ∷ ys))
    elevated =
        list_of-congr table after queue (bare-link_behind place req table)
        ∙ list_of-placed table req (t ∷ ys)
        ∙ ap (elevate (bare table req)) (list_of-congr d.request table (t ∷ ys) bare-table)
        ∙ ap (λ r. elevate r (list_of d.request (t ∷ ys))) (bare-table req)

    after-Holds :
        Linked (next_of after) first queue × Distinct queue × TwoSweeps (list_of after queue)
    after-Holds = (
      subst (λ f. Linked (next_of after) f queue) (sym holds.0.0) inserted.1,
      Distinct-placed table req (t ∷ ys) out holds.1,
      subst TwoSweeps (sym elevated)
          (elevate-TwoSweeps (bare d.request req) (list_of d.request (t ∷ ys)) differs holds.2),
    )

  -- If the queue of a device holds requests in at most two sweeps, and the new request is none of them and is
  -- for another block than each, or with another command, then add_request, with fuel for the queue, calls
  -- request_fn only if the queue was empty, and puts the request behind the first place that fits; the queue
  -- holds at most two sweeps again.
  pub add_request-Queued :
      (xs : List ℕ)
      → length xs ≤ fuel
      → NotIn req xs
      → Differs (bare d.request req) (list_of d.request xs)
      → Holds d major xs
      → Queued d major req xs (add_request fuel major req d).0 (add_request fuel major req d).1
  unfolding add_request
  add_request-Queued [] h out differs (e, distinct, sweeps) =
      let empty : (first == null) ≡ true = ground (arith, e) in
      rw (empty, Queued)
        (
          refl,
          req ∷ [],
          (
            (
              update_self d.current_request major req,
              nonnull,
              ap (λ r. r.next) (update_self d.request req (set_next null (d.request req))),
            ),
            (tt, tt),
            tt,
          ),
          ap (λ r. r ∷ []) (bare-set_next d.request req null req),
        )
  add_request-Queued (t ∷ ys) h out differs holds =
      let some_first : (first == null) ≡ false = ground (arith, holds.0.0, holds.0.1) in
      rw (some_first, Queued)
        (
          refl,
          queue t ys (omega arith) out differs holds,
          after-Holds t ys (omega arith) out differs holds,
          elevated t ys (omega arith) out differs holds,
        )
