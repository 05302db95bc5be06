-- ===== src/UserTimer/Tests.antt =====
-- Concrete timers of kernel/timer.c, and the theorems at them.
use os_lab2_gui.Prelude.{
  ℕ, ◌+◌, ◌*◌, ◌≡◌, refl, Option, none, some, List, [], ◌∷◌, replicate, arith, ltb, ◌==◌,
  if◌then◌else◌,
}
use os_lab2_gui.Prelude.Int.{pos, negsuc}
use os_lab2_gui.Message.{MsgState}
use os_lab2_gui.Message.Refine.{bodies}
use os_lab2_gui.Message.Post.{Supply, IsFresh, Ready}
use os_lab2_gui.UserTimer.{
  UserTimerList, Memory, TimerState, ScanState, remove_loop, remove_user_timer, destroy_loop,
  sys_timer_destroy, scan_loop,
}
use os_lab2_gui.UserTimer.Period.{tick}
use os_lab2_gui.UserTimer.Links
use os_lab2_gui.UserTimer.Links.{insert_user_timer-append}
use os_lab2_gui.UserTimer.Scan.{has, ups, up_body, scan_loop_lem}

abbrev blank : TimerState
blank = record {
  list = none;
  mem = λ a. record { usr_jiffies = pos 0; init_jiffies = pos 0; pid = pos 9; next = 0 };
}

-- head node 10, then the timers at 20, 30 and 40, with 1, 2 and 1 ticks left
abbrev mem : Memory
mem a = record {
  usr_jiffies = (if a == 30 then pos 2 else pos 1);
  init_jiffies = pos 5;
  pid = negsuc 0;
  next = (if ltb a 40 then a + 10 else 0);
}

abbrev list : UserTimerList
list = record { head = 10; rear = 40; num = pos 3 }

list-HoldsIn : Links.HoldsIn list mem (20 ∷ 30 ∷ 40 ∷ [])
list-HoldsIn = (omega arith, refl, omega arith)

-- `sys_timer_destroy(-1)` is asked for all three: the first timer stays, behind the head node.
destroy_all : Option ℕ
unfolding sys_timer_destroy destroy_loop remove_user_timer remove_loop
destroy_all = elim (sys_timer_destroy 9 (negsuc 0) (record { list = some list; mem = mem })) [
  | none ↦ none
  | some (r, s) ↦ some ((s.mem 10).next + (s.mem 20).next)
]

destroy_all_leaves_first : destroy_all ≡ some 20
unfolding destroy_all
destroy_all_leaves_first = refl

abbrev supply : Supply
supply = record { at = λ i. 100 + 2 * i; fresh = λ i. 101 + 2 * i }

supply-IsFresh : IsFresh supply
supply-IsFresh = omega arith

abbrev empty_queue : MsgState
empty_queue = record { list = none; mem = λ a. record { mid = pos 0; pid = pos 0; next = 0 } }

abbrev before : ScanState
before = record { timers = mem; queue = empty_queue; allocs = 0 }

before-Ready : Ready supply 0 empty_queue []
before-Ready = record { holds = refl; new = λ i h. tt; apart = λ i h. tt }

scan_loop_lem_example :
    (s' : ScanState) × (scan_loop supply 4 20 before ≡ some s')
    × ((a : ℕ) → s'.timers a ≡ (if has a (20 ∷ 30 ∷ 40 ∷ []) then (tick (mem a)).0 else mem a))
    × ((zs : List ℕ) × Ready supply s'.allocs s'.queue zs
        × (bodies s'.queue.mem zs ≡ replicate (ups mem (20 ∷ 30 ∷ 40 ∷ [])) up_body))
scan_loop_lem_example =
    scan_loop_lem supply supply-IsFresh 4 20 before (20 ∷ 30 ∷ 40 ∷ []) [] (omega arith)
      (omega arith) (omega arith) before-Ready
