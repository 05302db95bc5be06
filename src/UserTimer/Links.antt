-- ===== src/UserTimer/Links.antt =====
-- The list of timers of kernel/timer.c, and what an insertion makes of it.
use mathlib.Core.Path.{fun_ext, subst}
use os_lab2_gui.Prelude.{
  ℕ, ◌≡◌, ◌≢◌, refl, sym, ap, ◌∙◌, Option, none, some, List, [], ◌∷◌, ◌++◌, arith, ◌==◌,
  if◌then◌else◌,
}
use os_lab2_gui.Prelude.Table.{update}
use os_lab2_gui.Prelude.Chain.{
  null, Linked, NotIn, Distinct, last, last-append, Distinct-append, Linked-append,
}
use os_lab2_gui.UserTimer.{
  UserTimerList, Memory, TimerState, set_next, ensure_list, user_timer_init, insert_user_timer,
}

abbrev pub next_of : Memory → ℕ → ℕ
next_of m a = (m a).next

abbrev pub HoldsIn : UserTimerList → Memory → List ℕ → Type 0
HoldsIn l m xs =
    Linked (next_of m) (next_of m l.head) xs × (l.rear ≡ last l.head xs) × Distinct (l.head ∷ xs)

-- The list holds the timers at `xs`, in this order.
abbrev pub Holds : TimerState → List ℕ → Type 0
Holds s xs = elim s.list [ none ↦ xs ≡ [] | some l ↦ HoldsIn l s.mem xs ]

-- the head node that an insertion works behind
abbrev pub insert_head : ℕ → TimerState → ℕ
insert_head fresh s = elim s.list [ none ↦ fresh | some l ↦ l.head ]

pub next-set_next : (m : Memory) (a n : ℕ) → next_of (set_next m a n) ≡ update (next_of m) a n
next-set_next m a n = fun_ext λ x. ground arith

link-HoldsIn :
    (timer : ℕ) (l : UserTimerList) (m : Memory) (xs : List ℕ) (at : ℕ)
    → timer ≢ null
    → timer ≢ l.head
    → NotIn timer xs
    → HoldsIn l m xs
    → at ≡ last l.head xs
    → let m' = set_next (set_next m at timer) timer null in
      Linked (next_of m') (next_of m' l.head) (xs ++ timer ∷ [])
      × (timer ≡ last l.head (xs ++ timer ∷ []))
      × Distinct (l.head ∷ xs ++ timer ∷ [])
link-HoldsIn timer l m xs at ne neh out (c, r, d) e = (
  subst (λ n. Linked n (n l.head) (xs ++ timer ∷ [])) (sym links)
      (Linked-append (next_of m) timer l.head xs ne neh out d c),
  sym (last-append l.head xs timer),
  Distinct-append (l.head ∷ xs) timer d (neh, out),
)
  where
    links :
        next_of (set_next (set_next m at timer) timer null)
        ≡ update (update (next_of m) (last l.head xs) timer) timer null
    links =
        next-set_next (set_next m at timer) timer null
        ∙ ap (λ n. update n timer null) (next-set_next m at timer)
        ∙ ap (λ k. update (update (next_of m) k timer) timer null) e

ensure_list-HoldsIn :
    (fresh : ℕ) (o : Option UserTimerList) (m : Memory) (xs : List ℕ)
    → Holds (record { list = o; mem = m }) xs
    → let (l, m') = ensure_list fresh (record { list = o; mem = m }) in
      HoldsIn l m' xs × (l.head ≡ insert_head fresh (record { list = o; mem = m }))
unfolding ensure_list user_timer_init
ensure_list-HoldsIn fresh none m [] e = ((ground arith, refl, (tt, tt)), refl)
ensure_list-HoldsIn fresh none m (x ∷ xs) e = absurd (cc)
ensure_list-HoldsIn fresh (some l) m xs h = (h, refl)

-- `insert_user_timer` of a structure that is not in the list appends it.
pub insert_user_timer-append :
    (timer fresh : ℕ) (s : TimerState) (xs : List ℕ)
    → timer ≢ null
    → timer ≢ insert_head fresh s
    → NotIn timer xs
    → Holds s xs
    → Holds (insert_user_timer timer fresh s) (xs ++ timer ∷ [])
unfolding insert_user_timer
insert_user_timer-append timer fresh s xs ne neh out h =
    let (l, m) = ensure_list fresh s in
    let (fits, head) = ensure_list-HoldsIn fresh s.list s.mem xs h in
    let at : ℕ = if l.head == l.rear then l.head else l.rear in
    let e : at ≡ last l.head xs = ground (arith, fits.1) in
    link-HoldsIn timer l m xs at ne (rw head neh) out fits e
