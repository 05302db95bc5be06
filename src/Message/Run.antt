-- ===== src/Message/Run.antt =====
-- Sequences of calls of kernel/message.c against the queue of Message/Queue.
use os_lab2_gui.Prelude.{
  ℕ, ◌≡◌, ◌≢◌, refl, ap, ◌∙◌, inl, inr, Bool-cases, Option, none, some, List, [], ◌∷◌, ◌++◌, arith,
  ◌==◌,
}
use os_lab2_gui.Prelude.Int.{pos, negsuc}
use os_lab2_gui.Prelude.Table.{update}
use os_lab2_gui.Message.{
  MsgList, Memory, MsgState, msg_list_init, unlink_first, sys_get_message, ensure_list, link_last,
  sys_post_message,
}
use os_lab2_gui.Prelude.Chain.{null, NotIn, NotIn-append}
use os_lab2_gui.Message.Chain.{Chain}
use os_lab2_gui.Message.Queue
use os_lab2_gui.Message.Queue.{Body, Answer, Op, post, get, take_first}
use os_lab2_gui.Message.Refine.{
  Holds, HoldsIn, body, bodies, post_head, received, sys_post_message-append, sys_get_message-first,
  sys_get_message-empty,
}

-- `msg->mid = …; msg->pid = …;`, as the senders do before they post
abbrev pub write_body : Memory → ℕ → Body → Memory
write_body m a (mid, pid) = update m a (record (m a) { mid = mid; pid = pid })

abbrev pub message_of : Option (ℕ × Body) → Option Body
message_of none = none
message_of (some (a, b)) = some b

unfoldable pub run_calls : MsgState → List Op → List Answer
run_calls s [] = []
run_calls s (post at fresh b ∷ ops) =
    let (code, s') = sys_post_message at fresh (record s { mem = write_body s.mem at b }) in
    (code, none) ∷ run_calls s' ops
run_calls s (get msg spare ∷ ops) =
    let (reply, s') = sys_get_message msg spare s in
    (reply.code, message_of (received reply)) ∷ run_calls s' ops

-- Every posted structure is new: it is not NULL and its address is not among those in use. A message
-- is never freed, so this is what `malloc` gives.
abbrev pub Separate : List ℕ → List Op → Type 0
Separate used [] = Unit
Separate used (post at fresh b ∷ ops) =
    (at ≢ null) × NotIn at (fresh ∷ used) × Separate (at ∷ fresh ∷ used) ops
Separate used (get msg spare ∷ ops) = Separate used ops

abbrev pub Apart : ℕ → MsgState → Type 0
Apart a s = elim s.list [ none ↦ Unit | some l ↦ a ≢ l.head ]

-- the addresses in use include those of the queue and its head node
abbrev pub Covers : List ℕ → MsgState → List ℕ → Type 0
Covers used s xs = (a : ℕ) → NotIn a used → NotIn a xs × Apart a s

pub post_list-Apart :
    (a msg fresh : ℕ) (o : Option MsgList) (m : Memory)
    → a ≢ fresh
    → Apart a (record { list = o; mem = m })
    → Apart a (sys_post_message msg fresh (record { list = o; mem = m })).1
unfolding sys_post_message ensure_list link_last msg_list_init
post_list-Apart a msg fresh none m ne h = elim (Bool-cases (msg == null)) [
  | inl e ↦ rw (e, sys_post_message) ne
  | inr e ↦ rw (e, sys_post_message) ne
]
post_list-Apart a msg fresh (some l) m ne h = elim (Bool-cases (msg == null)) [
  | inl e ↦ rw (e, sys_post_message) h
  | inr e ↦ rw (e, sys_post_message) h
]

get_list-Apart :
    (a msg spare : ℕ) (o : Option MsgList) (m : Memory)
    → Apart a (record { list = o; mem = m })
    → Apart a (sys_get_message msg spare (record { list = o; mem = m })).1
unfolding sys_get_message unlink_first
get_list-Apart a msg spare none m h = h
get_list-Apart a msg spare (some l) m h = elim (Bool-cases ((m l.head).next == null)) [
  | inl e ↦ rw (e, sys_get_message) h
  | inr e ↦ elim (Bool-cases (l.rear == (m l.head).next)) [
    | inl e' ↦ rw (e, sys_get_message, e', unlink_first) h
    | inr e' ↦ rw (e, sys_get_message, e', unlink_first) h
  ]
]

write_body-Chain :
    (m : Memory) (at : ℕ) (b : Body) (h : ℕ) (xs : List ℕ)
    → Chain m (m h).next xs
    → Chain (write_body m at b) (write_body m at b h).next xs
write_body-Chain m at b h [] e = ground arith
write_body-Chain m at b h (x ∷ xs) (e, ne, c) = (ground arith, ne, write_body-Chain m at b x xs c)

write_body-Holds :
    (o : Option MsgList) (m : Memory) (at : ℕ) (b : Body) (xs : List ℕ)
    → HoldsIn o m xs
    → HoldsIn o (write_body m at b) xs
write_body-Holds none m at b xs h = h
write_body-Holds (some l) m at b xs (c, r, d, n) = (write_body-Chain m at b l.head xs c, r, d, n)

write_body-bodies :
    (m : Memory) (at : ℕ) (b : Body) (xs : List ℕ)
    → NotIn at xs
    → bodies (write_body m at b) xs ≡ bodies m xs
write_body-bodies m at b [] out = refl
write_body-bodies m at b (x ∷ xs) out = ground (arith, write_body-bodies m at b xs out.1)

write_body-append :
    (m : Memory) (at : ℕ) (b : Body) (xs : List ℕ)
    → NotIn at xs
    → bodies (write_body m at b) xs ++ body (write_body m at b at) ∷ [] ≡ bodies m xs ++ b ∷ []
write_body-append m at b xs out = rw (write_body-bodies m at b xs out, written)
  where
    written : body (write_body m at b at) ≡ b
    written = ground arith

pub Apart-from_head :
    (at fresh : ℕ) (o : Option MsgList) (m m' : Memory)
    → at ≢ fresh
    → Apart at (record { list = o; mem = m })
    → at ≢ post_head fresh (record { list = o; mem = m' })
Apart-from_head at fresh none m m' ne h = ne
Apart-from_head at fresh (some l) m m' ne h = h

-- From a queue that holds the structures at `xs`, every sequence of calls that posts new structures
-- returns what the first-in first-out queue of their contents returns.
pub run_calls_refines :
    (used : List ℕ) (s : MsgState) (xs : List ℕ) (ops : List Op)
    → Separate used ops
    → Covers used s xs
    → Holds s xs
    → run_calls s ops ≡ Queue.run (bodies s.mem xs) ops
unfolding run_calls Queue.run
run_calls_refines used s xs [] sep cover h = refl
run_calls_refines used s xs (post at fresh b ∷ ops) (ne, (nef, out), sep) cover h = rw code (
    ap (λ t. (pos 0, none) ∷ t)
      (run_calls_refines (at ∷ fresh ∷ used) (sys_post_message at fresh written).1 (xs ++ at ∷ [])
          ops sep covers holds
        ∙ ap (λ q. Queue.run q ops) (same ∙ write_body-append s.mem at b xs (cover at out).0)))
  where
    written : MsgState
    written = record s { mem = write_body s.mem at b }

    posted :
        let (code, s') = sys_post_message at fresh written in
        (code ≡ pos 0)
        × Holds s' (xs ++ at ∷ [])
        × (bodies s'.mem (xs ++ at ∷ []) ≡ bodies written.mem xs ++ body (written.mem at) ∷ [])
    posted =
        sys_post_message-append at fresh written xs ne
          (Apart-from_head at fresh s.list s.mem written.mem nef (cover at out).1) (cover at out).0
          (write_body-Holds s.list s.mem at b xs h)

    code : (sys_post_message at fresh written).0 ≡ pos 0
    code = posted.0

    holds : Holds (sys_post_message at fresh written).1 (xs ++ at ∷ [])
    holds = posted.1

    same :
        bodies (sys_post_message at fresh written).1.mem (xs ++ at ∷ [])
        ≡ bodies written.mem xs ++ body (written.mem at) ∷ []
    same = posted.2

    covers : Covers (at ∷ fresh ∷ used) (sys_post_message at fresh written).1 (xs ++ at ∷ [])
    covers a (ne_at, (ne_fresh, a_out)) = (
      NotIn-append a xs (at ∷ []) (cover a a_out).0 (ne_at, tt),
      post_list-Apart a at fresh s.list written.mem ne_fresh (cover a a_out).1,
    )
run_calls_refines used s [] (get msg spare ∷ ops) sep cover h =
    rw (sys_get_message-empty msg spare s h)
      (ap (λ t. (negsuc 0, none) ∷ t) (run_calls_refines used s [] ops sep cover h))
run_calls_refines used s (x ∷ xs) (get msg spare ∷ ops) sep cover h =
    let (code, got, holds, same) = sys_get_message-first msg spare s x xs h in
    rw (code, got)
      (ap (λ t. (pos 0, some (body (s.mem x))) ∷ t)
        (run_calls_refines used (sys_get_message msg spare s).1 xs ops sep
            (λ a out. ((cover a out).0.1, get_list-Apart a msg spare s.list s.mem (cover a out).1))
            holds
          ∙ ap (λ q. Queue.run q ops) same))
