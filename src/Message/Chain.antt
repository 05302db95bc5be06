-- ===== src/Message/Chain.antt =====
-- The linked list of kernel/message.c: what `next` leads through, and what a write leaves of it.
use os_lab2_gui.Prelude.{ℕ, ◌≡◌, ◌≢◌, List, [], ◌∷◌, ◌++◌, arith}
use mathlib.Core.Path.{subst}
use os_lab2_gui.Prelude.Chain.{null, Linked, NotIn, Distinct, last, last-ne}
use os_lab2_gui.Prelude.Table.{update}
use os_lab2_gui.Message.{Message, Memory, set_next}

-- from `p` the `next` pointers lead through `xs` to NULL
abbrev pub Chain : Memory → ℕ → List ℕ → Type 0
Chain m = Linked (λ a. (m a).next)

-- a write to a node outside leaves the chain
pub Chain-set_next :
    (m : Memory) (a n p : ℕ) (xs : List ℕ) → NotIn a xs → Chain m p xs → Chain (set_next m a n) p xs
Chain-set_next m a n p [] out c = c
Chain-set_next m a n p (x ∷ xs) out (e, ne, rest) = (
  e,
  ne,
  subst (λ k. Chain (set_next m a n) k xs) same (Chain-set_next m a n (m x).next xs out.1 rest),
)
  where
    same : (m x).next ≡ (set_next m a n x).next
    same = ground (arith, out.0)

-- what the two writes of `sys_post_message` make of a chain that starts behind `h`
pub Chain-link_last :
    (m : Memory) (msg h : ℕ) (xs : List ℕ)
    → msg ≢ null
    → msg ≢ h
    → NotIn msg xs
    → Distinct (h ∷ xs)
    → Chain m (m h).next xs
    → let m' = set_next (set_next m (last h xs) msg) msg null in
      Chain m' (m' h).next (xs ++ msg ∷ [])
Chain-link_last m msg h [] ne neh out d c = (ground arith, ne, ground arith)
Chain-link_last m msg h (x ∷ xs) ne neh out d (e, ne', rest) = (
  ground (arith, last-ne h x xs d.0.0 d.0.1),
  ne',
  Chain-link_last m msg x xs ne out.0 out.1 d.1 rest,
)

-- a write of a whole structure outside the list, its head node included, leaves the list
pub Chain-update :
    (m : Memory) (a : ℕ) (v : Message) (h : ℕ) (xs : List ℕ)
    → a ≢ h
    → NotIn a xs
    → Chain m (m h).next xs
    → Chain (update m a v) (update m a v h).next xs
Chain-update m a v h [] ne out e = ground arith
Chain-update m a v h (x ∷ xs) ne out (e, ne', c) =
    (ground arith, ne', Chain-update m a v x xs out.0 out.1 c)
