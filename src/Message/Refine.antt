-- ===== src/Message/Refine.antt =====
-- The calls of kernel/message.c, one by one, against the list of the messages.
use mathlib.Core.Path.{subst}
use os_lab2_gui.Prelude.{
  ℕ, ◌≡◌, ◌≢◌, refl, sym, ap, ◌∙◌, true, false, Option, none, some, List, [], ◌∷◌, ◌++◌, length,
  length-append, arith, ◌==◌, if◌then◌else◌,
}
use os_lab2_gui.Prelude.Int.{pos, negsuc, ◌+ℤ◌, ◌-ℤ◌}
use os_lab2_gui.Message.{
  Message, MsgList, Memory, MsgState, Reply, set_next, msg_list_init, unlink_first, sys_get_message,
  ensure_list, link_last, sys_post_message,
}
use os_lab2_gui.Prelude.Chain.{null, NotIn, Distinct, last, last-ne, last-append, Distinct-append}
use os_lab2_gui.Message.Chain.{Chain, Chain-set_next, Chain-link_last}
use os_lab2_gui.Message.Queue.{Body}

abbrev pub HoldsIn : Option MsgList → Memory → List ℕ → Type 0
HoldsIn none m xs = xs ≡ []
HoldsIn (some l) m xs =
    Chain m (m l.head).next xs
    × (l.rear ≡ last l.head xs)
    × Distinct (l.head ∷ xs)
    × (l.num ≡ pos (length xs))

-- The queue holds the structures at `xs`, the oldest first: `head` leads to them, `rear` is the last
-- and `num` counts them.
abbrev pub Holds : MsgState → List ℕ → Type 0
Holds s xs = HoldsIn s.list s.mem xs

abbrev pub body : Message → Body
body x = (x.mid, x.pid)

abbrev pub bodies : Memory → List ℕ → List Body
bodies m [] = []
bodies m (x ∷ xs) = body (m x) ∷ bodies m xs

bodies-set_next : (m : Memory) (a n : ℕ) (xs : List ℕ) → bodies (set_next m a n) xs ≡ bodies m xs
bodies-set_next m a n [] = refl
bodies-set_next m a n (x ∷ xs) = ground (arith, bodies-set_next m a n xs)

bodies-append :
    (m : Memory) (xs : List ℕ) (y : ℕ) → bodies m (xs ++ y ∷ []) ≡ bodies m xs ++ body (m y) ∷ []
bodies-append m [] y = refl
bodies-append m (x ∷ xs) y = ap (λ t. body (m x) ∷ t) (bodies-append m xs y)

-- the head node that a post works behind
abbrev pub post_head : ℕ → MsgState → ℕ
post_head fresh s = elim s.list [ none ↦ fresh | some l ↦ l.head ]

ensure_list-Holds :
    (fresh : ℕ) (o : Option MsgList) (m : Memory) (xs : List ℕ)
    → HoldsIn o m xs
    → let (l, m') = ensure_list fresh (record { list = o; mem = m }) in HoldsIn (some l) m' xs
unfolding ensure_list msg_list_init
ensure_list-Holds fresh none m [] e = (ground arith, refl, (tt, tt), refl)
ensure_list-Holds fresh none m (x ∷ xs) e = absurd (cc)
ensure_list-Holds fresh (some l) m xs h = h

link_last-Holds :
    (msg : ℕ) (l : MsgList) (m : Memory) (xs : List ℕ)
    → msg ≢ null
    → msg ≢ l.head
    → NotIn msg xs
    → HoldsIn (some l) m xs
    → Holds (link_last msg l m) (xs ++ msg ∷ [])
unfolding link_last ◌+ℤ◌
link_last-Holds msg l m xs ne neh out (c, r, d, n) = (
  rw at (Chain-link_last m msg l.head xs ne neh out d c),
  sym (last-append l.head xs msg),
  Distinct-append (l.head ∷ xs) msg d (neh, out),
  rw n (ground (arith, length-append xs (msg ∷ []))),
)
  where
    at : (if l.rear == l.head then l.head else l.rear) ≡ last l.head xs
    at = ground (arith, r)

ensure_list-head :
    (fresh : ℕ) (o : Option MsgList) (m : Memory)
    → (ensure_list fresh (record { list = o; mem = m })).0.head
      ≡ post_head fresh (record { list = o; mem = m })
unfolding ensure_list msg_list_init
ensure_list-head fresh none m = refl
ensure_list-head fresh (some l) m = refl

ensure_list-bodies :
    (fresh : ℕ) (o : Option MsgList) (m : Memory) (xs : List ℕ)
    → bodies (ensure_list fresh (record { list = o; mem = m })).1 xs ≡ bodies m xs
unfolding ensure_list msg_list_init
ensure_list-bodies fresh none m xs = bodies-set_next m fresh null xs
ensure_list-bodies fresh (some l) m xs = refl

link_last-bodies :
    (msg : ℕ) (l : MsgList) (m : Memory) (xs : List ℕ)
    → bodies (link_last msg l m).mem xs ≡ bodies m xs
unfolding link_last
link_last-bodies msg l m xs = rw (bodies-set_next, bodies-set_next)

-- `sys_post_message` of a structure that is not in the queue and is not its head node returns 0,
-- appends that structure and changes the contents of no message of the queue.
pub sys_post_message-append :
    (msg fresh : ℕ) (s : MsgState) (xs : List ℕ)
    → msg ≢ null
    → msg ≢ post_head fresh s
    → NotIn msg xs
    → Holds s xs
    → let (code, s') = sys_post_message msg fresh s in
      (code ≡ pos 0)
      × Holds s' (xs ++ msg ∷ [])
      × (bodies s'.mem (xs ++ msg ∷ []) ≡ bodies s.mem xs ++ body (s.mem msg) ∷ [])
unfolding sys_post_message
sys_post_message-append msg fresh s xs ne neh out h =
    let (l, m) = ensure_list fresh s in
    let fits : HoldsIn (some l) m xs = ensure_list-Holds fresh s.list s.mem xs h in
    let apart : msg ≢ l.head = rw (ensure_list-head fresh s.list s.mem) neh in
    rw (not_null) (
      refl,
      link_last-Holds msg l m xs ne apart out fits,
      link_last-bodies msg l m (xs ++ msg ∷ [])
          ∙ ensure_list-bodies fresh s.list s.mem (xs ++ msg ∷ [])
          ∙ bodies-append s.mem xs msg,
    )
  where
    not_null : (msg == null) ≡ false
    not_null = ground arith

-- `sys_post_message(NULL)` returns -1 and leaves the queue's contents as they were.
pub sys_post_message-null :
    (fresh : ℕ) (s : MsgState) (xs : List ℕ)
    → Holds s xs
    → let (code, s') = sys_post_message null fresh s in
      (code ≡ negsuc 0) × Holds s' xs × (bodies s'.mem xs ≡ bodies s.mem xs)
unfolding sys_post_message
sys_post_message-null fresh s xs h =
    (refl, ensure_list-Holds fresh s.list s.mem xs h, ensure_list-bodies fresh s.list s.mem xs)

-- what is left when the first node is taken off
abbrev Took : Memory → ℕ → List ℕ → ℕ × MsgList × Memory → Type 0
Took m x xs (first, l, m') =
    (first ≡ x) × HoldsIn (some l) m' xs × (bodies m' (x ∷ xs) ≡ bodies m (x ∷ xs))

unlink_first-Took :
    (l : MsgList) (m : Memory) (x : ℕ) (xs : List ℕ)
    → HoldsIn (some l) m (x ∷ xs)
    → Took m x xs (unlink_first l m)
unfolding unlink_first ◌-ℤ◌
unlink_first-Took l m x [] ((e, ne, rest), r, d, n) =
    rw (only, unlink_first)
      (e, (ground arith, refl, (tt, tt), rw n refl), bodies-set_next m l.head null (x ∷ []))
  where
    only : (l.rear == (m l.head).next) ≡ true
    only = ground arith
unlink_first-Took l m x (y ∷ ys) ((e, ne, rest), r, (h_out, (x_out, d)), n) =
    subst (Took m x (y ∷ ys)) (sym taken) (
      e,
      (
        subst (λ k. Chain m' k (y ∷ ys)) after
            (Chain-set_next m l.head (m (m l.head).next).next (m x).next (y ∷ ys) h_out.1 rest),
        r,
        (h_out.1, d),
        rw n (ground arith),
      ),
      bodies-set_next m l.head (m (m l.head).next).next (x ∷ y ∷ ys),
    )
  where
    m' : Memory
    m' = set_next m l.head (m (m l.head).next).next

    more : (l.rear == (m l.head).next) ≡ false
    more = ground (arith, last-ne x y ys x_out.0 x_out.1)

    taken : unlink_first l m ≡ ((m l.head).next, record l { num = l.num -ℤ pos 1 }, m')
    taken = rw (more, unlink_first)

    after : (m x).next ≡ (m' l.head).next
    after = ground arith

-- where the message goes, and what it says
abbrev pub received : Reply → Option (ℕ × Body)
received r = elim r.copied [ none ↦ none | some c ↦ some (c.0, body c.1) ]

get_from_list :
    (msg spare : ℕ) (o : Option MsgList) (m : Memory) (x : ℕ) (xs : List ℕ)
    → HoldsIn o m (x ∷ xs)
    → let (reply, s') = sys_get_message msg spare (record { list = o; mem = m }) in
      (reply.code ≡ pos 0)
      × (received reply ≡ some ((if msg == null then spare else msg), body (m x)))
      × Holds s' xs
      × (bodies s'.mem xs ≡ bodies m xs)
unfolding sys_get_message
get_from_list msg spare none m x xs e = absurd (cc)
get_from_list msg spare (some l) m x xs ((e, ne, rest), r, d, n) =
    let (is_x, holds, same) = unlink_first-Took l m x xs ((e, ne, rest), r, d, n) in
    rw (found, sys_get_message) (refl, ground arith, holds, ground arith)
  where
    found : ((m l.head).next == null) ≡ false
    found = ground arith

-- With messages in the queue `sys_get_message` returns 0, copies the contents of the oldest to the
-- caller's address (or to the new structure, for NULL), and leaves the others with their contents.
pub sys_get_message-first :
    (msg spare : ℕ) (s : MsgState) (x : ℕ) (xs : List ℕ)
    → Holds s (x ∷ xs)
    → let (reply, s') = sys_get_message msg spare s in
      (reply.code ≡ pos 0)
      × (received reply ≡ some ((if msg == null then spare else msg), body (s.mem x)))
      × Holds s' xs
      × (bodies s'.mem xs ≡ bodies s.mem xs)
sys_get_message-first msg spare s x xs h = get_from_list msg spare s.list s.mem x xs h

empty_list :
    (msg spare : ℕ) (o : Option MsgList) (m : Memory)
    → HoldsIn o m []
    → sys_get_message msg spare (record { list = o; mem = m })
      ≡ (record { code = negsuc 0; copied = none }, record { list = o; mem = m })
unfolding sys_get_message
empty_list msg spare none m h = refl
empty_list msg spare (some l) m h = ground arith

-- On an empty queue, and before the first post, `sys_get_message` returns -1, copies nothing and
-- changes nothing.
pub sys_get_message-empty :
    (msg spare : ℕ) (s : MsgState)
    → Holds s []
    → sys_get_message msg spare s ≡ (record { code = negsuc 0; copied = none }, s)
sys_get_message-empty msg spare s h = empty_list msg spare s.list s.mem h
