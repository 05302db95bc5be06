-- ===== src/Message/Tests.antt =====
-- Concrete queues of kernel/message.c, and the theorems at them.
use os_lab2_gui.Prelude.{◌≡◌, refl, none, some, List, [], ◌∷◌, arith, ◌-◌, ◌*◌}
use os_lab2_gui.Prelude.Int.{pos, negsuc}
use os_lab2_gui.Message.{
  MsgState, msg_list_init, unlink_first, sys_get_message, ensure_list, link_last, sys_post_message,
}
use os_lab2_gui.Message.Queue
use os_lab2_gui.Message.Queue.{Op, post, get}
use os_lab2_gui.Message.Refine.{Holds}
use os_lab2_gui.Message.Run.{run_calls, run_calls_refines}

-- the state at start-up: no list
abbrev blank : MsgState
blank = record { list = none; mem = λ a. record { mid = pos a; pid = negsuc 0; next = 77 } }

-- the calls of a mouse click, a timer and the game that reads them
abbrev script : List Op
script =
    get 0 5
    ∷ post 20 10 (pos 1, negsuc 0)
    ∷ post 30 11 (pos 3, negsuc 0)
    ∷ get 0x8000 0
    ∷ get 0 40
    ∷ get 0 41
    ∷ []

run_script :
    run_calls blank script
    ≡ (negsuc 0, none)
      ∷ (pos 0, none)
      ∷ (pos 0, none)
      ∷ (pos 0, some (pos 1, negsuc 0))
      ∷ (pos 0, some (pos 3, negsuc 0))
      ∷ (negsuc 0, none)
      ∷ []
unfolding run_calls sys_post_message sys_get_message ensure_list link_last msg_list_init
    unlink_first
run_script = refl

run_calls_refines_example : run_calls blank script ≡ Queue.run [] script
run_calls_refines_example =
    run_calls_refines [] blank [] script (omega arith) (λ a out. (tt, tt)) refl

-- The head node is 10 and leads to 20, which is the last.
abbrev single : MsgState
single = record {
  list = some (record { head = 10; rear = 20; num = pos 1 });
  mem = λ a. record { mid = pos a; pid = negsuc 0; next = (20 - a) * 2 };
}

single-Holds : Holds single (20 ∷ [])
single-Holds = (omega arith, refl, omega arith, refl)
