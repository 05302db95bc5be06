-- ===== src/Message/Queue.antt =====
-- What kernel/message.c promises its clients: a queue of messages, first in, first out.
use os_lab2_gui.Prelude.{ℕ, Option, none, some, List, [], ◌∷◌, ◌++◌}
use os_lab2_gui.Prelude.Int.{ℤ, pos, negsuc}

-- `mid` and `pid`
abbrev pub Body : Type 0
Body = ℤ × ℤ

-- A client writes a message at an address and posts it, or asks for a message. `fresh` and `spare`
-- are what `malloc` returns in the call, if it is needed.
pub data Op : Type 0 where
  post : (at fresh : ℕ) → Body → Op
  get : (msg spare : ℕ) → Op

-- the value returned, and the message received
abbrev pub Answer : Type 0
Answer = ℤ × Option Body

unfoldable pub take_first : List Body → Answer × List Body
take_first [] = ((negsuc 0, none), [])
take_first (b ∷ q) = ((pos 0, some b), q)

unfoldable pub run : List Body → List Op → List Answer
unfolding take_first
run q [] = []
run q (post at fresh b ∷ ops) = (pos 0, none) ∷ run (q ++ b ∷ []) ops
run q (get msg spare ∷ ops) = let (a, q') = take_first q in a ∷ run q' ops
