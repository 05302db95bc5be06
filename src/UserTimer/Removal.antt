-- ===== src/UserTimer/Removal.antt =====
-- What `remove_user_timer` of kernel/timer.c makes of the list of timers.
use mathlib.Core.List.{append-nil}
use mathlib.Core.Path.{subst}
use os_lab2_gui.Prelude.{
  ℕ, zero, suc, ◌<◌, ◌≡◌, ◌≢◌, sym, ap, ◌∙◌, true, false, ==_iff, some, List, [], ◌∷◌, ◌++◌, length,
  arith, ◌==◌, if◌then◌else◌,
}
use os_lab2_gui.Prelude.Int.{pos}
use os_lab2_gui.Prelude.Table.{update, update_ne}
use os_lab2_gui.Prelude.Chain.{
  null, Linked, NotIn, NotIn-front, NotIn-of_Distinct, Distinct, Distinct-drop, last, last-ne,
  last-append, last-append-last, last-append-cons, Linked-unlink,
}
use os_lab2_gui.UserTimer.{UserTimerList, Memory, set_next, remove_loop, remove_user_timer}
use os_lab2_gui.UserTimer.Links.{next_of, HoldsIn, next-set_next}

module _ (u : ℕ) (l : UserTimerList) (m : Memory) where
  remove_loop-end : (fuel p : ℕ) → p ≡ null → remove_loop (suc fuel) u p l m ≡ some (l, m)
  unfolding remove_loop
  remove_loop-end fuel p e = ground arith

  remove_loop-hit :
      (fuel p : ℕ)
      → p ≢ null
      → (m p).next ≡ u
      → remove_loop (suc fuel) u p l m
        ≡ some ((if u == l.rear then record l { rear = p } else l), set_next m p (m u).next)
  unfolding remove_loop
  remove_loop-hit fuel p ne e = rw (not_null, found)
    where
      not_null : (p == null) ≡ false
      not_null = ground arith

      found : ((m p).next == u) ≡ true
      found = ground arith

  remove_loop-miss :
      (fuel p : ℕ)
      → p ≢ null
      → (m p).next ≢ u
      → remove_loop (suc fuel) u p l m ≡ remove_loop fuel u (m p).next l m
  unfolding remove_loop
  remove_loop-miss fuel p ne miss = rw (not_null, other)
    where
      not_null : (p == null) ≡ false
      not_null = ground arith

      other : ((m p).next == u) ≡ false
      other = ground arith

  -- the walk reaches the end where `u` is the successor of no node on the way
  remove_loop-absent :
      (fuel p y : ℕ) (xs : List ℕ)
      → u ≢ null
      → length (y ∷ xs) < fuel
      → NotIn u xs
      → Linked (next_of m) p (y ∷ xs)
      → remove_loop fuel u p l m ≡ some (l, m)
  remove_loop-absent zero p y xs nu h out c = absurd (omega arith)
  remove_loop-absent (suc zero) p y xs nu h out c = absurd (omega arith)
  remove_loop-absent (suc (suc fuel)) p y [] nu h out (e, ne, e') =
      rw e (
        remove_loop-miss (suc fuel) y ne (λ q. nu (sym q ∙ e'))
        ∙ remove_loop-end fuel (m y).next e')
  remove_loop-absent (suc (suc fuel)) p y (x ∷ xs) nu h out (e, ne, c) = rw e (
      remove_loop-miss (suc fuel) y ne (λ q. out.0 (sym q ∙ c.0))
      ∙ remove_loop-absent (suc fuel) (m y).next x xs nu (omega arith) out.1 c)

  -- the walk stops at the node before `u`
  remove_loop-found :
      (fuel p y : ℕ) (front back : List ℕ)
      → length (y ∷ front) < fuel
      → NotIn u front
      → Linked (next_of m) p (y ∷ front ++ u ∷ back)
      → remove_loop fuel u p l m
        ≡ some (
          (if u == l.rear then record l { rear = last y front } else l),
          set_next m (last y front) (m u).next,
        )
  remove_loop-found zero p y front back h out c = absurd (omega arith)
  remove_loop-found (suc fuel) p y [] back h out (e, ne, c) = rw e (remove_loop-hit fuel y ne c.0)
  remove_loop-found (suc fuel) p y (x ∷ front) back h out (e, ne, c) = rw e (
      remove_loop-miss fuel y ne (λ q. out.0 (sym q ∙ c.0))
      ∙ remove_loop-found fuel (m y).next x front back (omega arith) out.1 c)

-- The walk of `remove_user_timer` begins behind the first timer: asked to remove the first, the
-- function returns 0 and changes nothing.
pub remove_user_timer-first :
    (fuel : ℕ) (l : UserTimerList) (m : Memory) (x : ℕ) (xs : List ℕ)
    → length (x ∷ xs) < fuel
    → HoldsIn l m (x ∷ xs)
    → remove_user_timer fuel x (record { list = some l; mem = m })
      ≡ some (pos 0, record { list = some l; mem = m })
unfolding remove_user_timer
remove_user_timer-first fuel l m x xs h (c, r, d) =
    rw (not_empty, remove_loop-absent x l m fuel (m l.head).next x xs c.1 h d.1.0 c)
  where
    not_empty : (l.head == l.rear) ≡ false
    not_empty = ground (arith, r, last-ne l.head x xs d.0.0 d.0.1)

module _ (l : UserTimerList) (m : Memory) (u x : ℕ) (front : List ℕ) where
  abbrev unlinked : Memory
  unlinked = set_next m (last x front) (m u).next

  unlink-Linked :
      (back : List ℕ)
      → HoldsIn l m (x ∷ front ++ u ∷ back)
      → Linked (next_of unlinked) (next_of unlinked l.head) (x ∷ front ++ back)
        × Distinct (l.head ∷ x ∷ front ++ back)
  unlink-Linked back (c, r, d) = (
    subst (λ n. Linked n (n l.head) (x ∷ front ++ back)) (sym links)
        (subst (λ k. Linked written k (x ∷ front ++ back)) (sym same)
          (Linked-unlink (next_of m) u (next_of m l.head) x front back d.1 c)),
    Distinct-drop u (l.head ∷ x ∷ front) back d,
  )
    where
      written : ℕ → ℕ
      written = update (next_of m) (last x front) (next_of m u)

      links : next_of unlinked ≡ written
      links = next-set_next m (last x front) (m u).next

      apart : l.head ≢ last x front
      apart = last-ne l.head x front d.0.0 (NotIn-front l.head front (u ∷ back) d.0.1)

      same : written l.head ≡ next_of m l.head
      same = update_ne (next_of m) (last x front) (next_of m u) l.head (λ e. apart (sym e))

  -- the list without `u`: its links, its last node, its nodes
  unlink-HoldsIn :
      (back : List ℕ)
      → HoldsIn l m (x ∷ front ++ u ∷ back)
      → HoldsIn
          (if u == l.rear then record l { rear = last x front } else l)
          unlinked
          (x ∷ front ++ back)
  unlink-HoldsIn [] (c, r, d) =
      let (links, distinct) = unlink-Linked [] (c, r, d) in
      subst
        (λ b.
          HoldsIn (if b then record l { rear = last x front } else l) unlinked (x ∷ front ++ []))
        (sym at_end) (links, ap (last x) (sym (append-nil front)), distinct)
    where
      at_end : (u == l.rear) ≡ true
      at_end = (==_iff u l.rear).1 (sym (r ∙ last-append x front u))
  unlink-HoldsIn (b ∷ back) (c, r, d) =
      let (links, distinct) = unlink-Linked (b ∷ back) (c, r, d) in
      subst
        (λ t.
          HoldsIn (if t then record l { rear = last x front } else l) unlinked
            (x ∷ front ++ b ∷ back))
        (sym before) (links, r ∙ last-append-cons x u b front back, distinct)
    where
      behind : NotIn u (b ∷ back)
      behind = (NotIn-of_Distinct u (x ∷ front) (b ∷ back) d.1).1

      other : u ≢ l.rear
      other e =
          last-ne u b back behind.0 behind.1
            (e ∙ r ∙ last-append-cons x u b front back ∙ last-append-last x b front back)

      before : (u == l.rear) ≡ false
      before = ground (arith, other)

-- `remove_user_timer` of any timer but the first returns 0 and takes exactly that timer off the list;
-- `num` keeps its value.
pub remove_user_timer-later :
    (fuel : ℕ) (l : UserTimerList) (m : Memory) (u x : ℕ) (front back : List ℕ)
    → length (x ∷ front) < fuel
    → HoldsIn l m (x ∷ front ++ u ∷ back)
    → (l' : UserTimerList) × (m' : Memory) × (remove_user_timer fuel u
          (record { list = some l; mem = m })
        ≡ some (pos 0, record { list = some l'; mem = m' }))
      × HoldsIn l' m' (x ∷ front ++ back)
      × (l'.num ≡ l.num)
unfolding remove_user_timer
remove_user_timer-later fuel l m u x front back h (c, r, d) = (
  (if u == l.rear then record l { rear = last x front } else l),
  set_next m (last x front) (m u).next,
  rw (not_empty, found),
  unlink-HoldsIn l m u x front back (c, r, d),
  ground arith,
)
  where
    found :
        remove_loop fuel u (m l.head).next l m
        ≡ some (
          (if u == l.rear then record l { rear = last x front } else l),
          set_next m (last x front) (m u).next,
        )
    found =
        remove_loop-found u l m fuel (m l.head).next x front back h
          (NotIn-of_Distinct u front back d.1.1).0 c

    not_empty : (l.head == l.rear) ≡ false
    not_empty = ground (arith, r, last-ne l.head x (front ++ u ∷ back) d.0.0 d.0.1)
