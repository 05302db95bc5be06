-- ===== src/Message/Post.antt =====
-- The drivers that post messages, kernel/timer.c and kernel/chr_drv/readmouse.c: each allocates a
-- message, writes it and calls `sys_post_message` of kernel/message.c.
use os_lab2_gui.Prelude.{
  ℕ, ◌+◌, ◌≤◌, ◌≡◌, ◌≢◌, refl, ap, ◌∙◌, Option, none, some, List, [], ◌∷◌, ◌++◌, arith,
}
use os_lab2_gui.Prelude.Int.{ℤ, pos, negsuc}
use os_lab2_gui.Prelude.Table.{update}
use os_lab2_gui.Prelude.Chain.{null, NotIn, NotIn-append}
use os_lab2_gui.Message.{Message, MsgList, MsgState, sys_post_message}
use os_lab2_gui.Message.Chain.{Chain-update}
use os_lab2_gui.Message.Refine.{Holds, HoldsIn, body, bodies, sys_post_message-append}
use os_lab2_gui.Message.Run.{Apart, post_list-Apart, Apart-from_head}

-- What `malloc` returns, call after call: the message, and the head node that the first post
-- allocates.
pub record Supply : Type 0 where
  pub at : ℕ → ℕ
  pub fresh : ℕ → ℕ

-- `msg = malloc(sizeof(message)); msg->mid = mid; msg->pid = -1; sys_post_message(msg);`, with the
-- message that is allocated as number `k`
unfoldable pub post_new : Supply → ℤ → ℕ → MsgState → MsgState
post_new supply mid k q =
    let msg : ℕ = supply.at k in
    let written : MsgState = record {
      list = q.list;
      mem = update q.mem msg (record { mid = mid; pid = negsuc 0; next = null });
    } in
    (sys_post_message msg (supply.fresh k) written).1

-- What `malloc` gives is not NULL and never given twice, since no message is freed.
pub record IsFresh (supply : Supply) : Type 0 where
  pub at_ne_null : (i : ℕ) → supply.at i ≢ null
  pub at_ne_fresh : (i j : ℕ) → supply.at i ≢ supply.fresh j
  pub at_ne : (i j : ℕ) → i ≢ j → supply.at i ≢ supply.at j

-- the queue holds `ys`, and the addresses still to come are not among them
pub record Ready (supply : Supply) (k : ℕ) (q : MsgState) (ys : List ℕ) : Type 0 where
  pub holds : Holds q ys
  pub new : (i : ℕ) → k ≤ i → NotIn (supply.at i) ys
  pub apart : (i : ℕ) → k ≤ i → Apart (supply.at i) q

module _ (supply : Supply) (fresh : IsFresh supply) where
  written-Holds :
      (o : Option MsgList) (m : ℕ → Message) (a : ℕ) (v : Message) (ys : List ℕ)
      → Apart a (record { list = o; mem = m })
      → NotIn a ys
      → HoldsIn o m ys
      → HoldsIn o (update m a v) ys
  written-Holds none m a v ys ap out h = h
  written-Holds (some l) m a v ys ap out (c, r, d, n) =
      (Chain-update m a v l.head ys ap out c, r, d, n)

  written-bodies :
      (m : ℕ → Message) (a : ℕ) (v : Message) (ys : List ℕ)
      → NotIn a ys
      → bodies (update m a v) ys ≡ bodies m ys
  written-bodies m a v [] out = refl
  written-bodies m a v (y ∷ ys) out = ground (arith, written-bodies m a v ys out.1)

  -- one more message, behind the others
  pub post_new-Ready :
      (mid : ℤ) (k : ℕ) (q : MsgState) (ys : List ℕ)
      → Ready supply k q ys
      → let q' = post_new supply mid k q in
        Ready supply (k + 1) q' (ys ++ supply.at k ∷ [])
        × (bodies q'.mem (ys ++ supply.at k ∷ []) ≡ bodies q.mem ys ++ (mid, negsuc 0) ∷ [])
  unfolding post_new
  post_new-Ready mid k q ys r = (
    record {
      holds = posted.1;
      new = λ i h.
          NotIn-append (supply.at i) ys (msg ∷ []) (r.new i (omega arith))
            (fresh.at_ne i k (omega arith), tt);
      apart = λ i h.
          post_list-Apart (supply.at i) msg (supply.fresh k) q.list written.mem
            (fresh.at_ne_fresh i k) (r.apart i (omega arith));
    },
    posted.2 ∙ rw (written-bodies q.mem msg v ys (r.new k (omega arith)), says),
  )
    where
      msg : ℕ
      msg = supply.at k

      v : Message
      v = record { mid = mid; pid = negsuc 0; next = null }

      written : MsgState
      written = record { list = q.list; mem = update q.mem msg v }

      says : body (written.mem msg) ≡ (mid, negsuc 0)
      says = ground arith

      posted :
          let (code, s) = sys_post_message msg (supply.fresh k) written in
          (code ≡ pos 0)
          × Holds s (ys ++ msg ∷ [])
          × (bodies s.mem (ys ++ msg ∷ []) ≡ bodies written.mem ys ++ body (written.mem msg) ∷ [])
      posted =
          sys_post_message-append msg (supply.fresh k) written ys (fresh.at_ne_null k)
            (Apart-from_head msg (supply.fresh k) q.list q.mem written.mem (fresh.at_ne_fresh k k)
              (r.apart k (omega arith)))
            (r.new k (omega arith))
            (written-Holds q.list q.mem msg v ys (r.apart k (omega arith)) (r.new k (omega arith))
              r.holds)
