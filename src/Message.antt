-- ===== src/Message.antt =====
-- kernel/message.c and include/message.h: the queue of messages that the mouse driver and the user
-- timers fill and that the game reads. A pointer is a number, NULL is 0, and `mem` is the memory
-- where the message structures lie. What `malloc` returns is an argument.
pub mod Chain
pub mod Queue
pub mod Refine
pub mod Run
pub mod Post
mod Tests
use os_lab2_gui.Prelude.{ℕ, Option, none, some, ◌==◌, if◌then◌else◌}
use os_lab2_gui.Prelude.Int.{ℤ, pos, negsuc, ◌+ℤ◌, ◌-ℤ◌}
use os_lab2_gui.Prelude.Table.{update}
use os_lab2_gui.Prelude.Chain.{null}

-- `message`
pub record Message : Type 0 where
  pub mid : ℤ
  pub pid : ℤ
  pub next : ℕ

-- `MsgList`
pub record MsgList : Type 0 where
  pub head : ℕ
  pub rear : ℕ
  pub num : ℤ

abbrev pub Memory : Type 0
Memory = ℕ → Message

-- The global `MsgL` (`none` while it is NULL) and the memory.
pub record MsgState : Type 0 where
  pub list : Option MsgList
  pub mem : Memory

-- `p->next = n`
abbrev pub set_next : Memory → ℕ → ℕ → Memory
set_next m p n = update m p (record (m p) { next = n })

-- `MsgList_Init`, where `fresh` is the node that `malloc` returns
unfoldable pub msg_list_init : ℕ → Memory → MsgList × Memory
msg_list_init fresh m = (record { head = fresh; rear = fresh; num = pos 0 }, set_next m fresh null)

-- What `sys_get_message` returns, and the structure that it copies to the user's memory with its
-- address there.
pub record Reply : Type 0 where
  pub code : ℤ
  pub copied : Option (ℕ × Message)

-- the list and the memory after the first node is taken off; the node
unfoldable pub unlink_first : MsgList → Memory → ℕ × MsgList × Memory
unlink_first l m =
    let first = (m l.head).next in
    if l.rear == first
    then (first, record l { rear = l.head; num = l.num -ℤ pos 1 }, set_next m l.head null)
    else (first, record l { num = l.num -ℤ pos 1 }, set_next m l.head (m first).next)

-- `sys_get_message(msg)`; `spare` is what `malloc` returns, should `msg` be NULL
unfoldable pub sys_get_message : ℕ → ℕ → MsgState → Reply × MsgState
sys_get_message msg spare s =
    let dest : ℕ = if msg == null then spare else msg in
    elim s.list [
      | none ↦ (record { code = negsuc 0; copied = none }, s)
      | some l ↦
          if (s.mem l.head).next == null
          then (record { code = negsuc 0; copied = none }, s)
          else (let (first, l', m') = unlink_first l s.mem in
              (
                record { code = pos 0; copied = some (dest, m' first) },
                record { list = some l'; mem = m' },
              ))
    ]

-- `MsgL`, allocated by the first call; `fresh` is its first node
unfoldable pub ensure_list : ℕ → MsgState → MsgList × Memory
ensure_list fresh s = elim s.list [ none ↦ msg_list_init fresh s.mem | some l ↦ (l, s.mem) ]

-- the insertion behind `rear`
unfoldable pub link_last : ℕ → MsgList → Memory → MsgState
link_last msg l m =
    let at : ℕ = if l.rear == l.head then l.head else l.rear in
    record {
      list = some (record l { rear = msg; num = l.num +ℤ pos 1 });
      mem = set_next (set_next m at msg) msg null;
    }

-- `sys_post_message(msg)`
unfoldable pub sys_post_message : ℕ → ℕ → MsgState → ℤ × MsgState
sys_post_message msg fresh s =
    let (l, m) = ensure_list fresh s in
    if msg == null
    then (negsuc 0, record { list = some l; mem = m })
    else (pos 0, link_last msg l m)
