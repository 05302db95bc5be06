-- ===== src/UserTimer.antt =====
-- kernel/timer.c and include/timer.h: the user timers, which `do_timer` scans at every tick and which
-- post a message each time they run out. Pointers are numbers, as in Message.
pub mod Scan
pub mod Period
pub mod Links
pub mod Removal
mod Tests
use os_lab2_gui.Prelude.{ℕ, zero, suc, ◌+◌, Option, none, some, ◌==◌, if◌then◌else◌}
use os_lab2_gui.Prelude.Int.{ℤ, pos, negsuc, ◌+ℤ◌, ◌-ℤ◌, eqb_ℤ, div_ℤ}
use os_lab2_gui.Prelude.Table.{update}
use os_lab2_gui.Prelude.Chain.{null}
use os_lab2_gui.Message.{MsgState}
use os_lab2_gui.Message.Post.{Supply, post_new}

-- `user_timer`, less the field `type`, which nothing reads or writes
pub record UserTimer : Type 0 where
  pub usr_jiffies : ℤ
  pub init_jiffies : ℤ
  pub pid : ℤ
  pub next : ℕ

-- `user_timer_list`
pub record UserTimerList : Type 0 where
  pub head : ℕ
  pub rear : ℕ
  pub num : ℤ

abbrev pub Memory : Type 0
Memory = ℕ → UserTimer

-- The global `UL` (`none` while it is NULL) and the memory.
pub record TimerState : Type 0 where
  pub list : Option UserTimerList
  pub mem : Memory

-- `p->next = n`
abbrev pub set_next : Memory → ℕ → ℕ → Memory
set_next m p n = update m p (record (m p) { next = n })

-- `UserTimer_Init`, where `fresh` is the node that `malloc` returns
unfoldable pub user_timer_init : ℕ → Memory → UserTimerList × Memory
user_timer_init fresh m = (
  record { head = fresh; rear = fresh; num = pos 0 },
  update m fresh (record (m fresh) { next = null; pid = pos 0 }),
)

-- the walk of `remove_user_timer`: from `tmp` on, to the node whose successor is `u`
unfoldable pub remove_loop : ℕ → ℕ → ℕ → UserTimerList → Memory → Option (UserTimerList × Memory)
remove_loop zero u tmp l m = none
remove_loop (suc fuel) u tmp l m =
    let rest = remove_loop fuel u (m tmp).next l m in
    if tmp == null
    then some (l, m)
    else if (m tmp).next == u
    then some ((if u == l.rear then record l { rear = tmp } else l), set_next m tmp (m u).next)
    else rest

-- `remove_user_timer(u)`. The field that it reads of `UL` before the test against NULL is not used
-- then. The outer `none` says that the fuel ran out.
unfoldable pub remove_user_timer : ℕ → ℕ → TimerState → Option (ℤ × TimerState)
remove_user_timer fuel u s = elim s.list [
  | none ↦ some (negsuc 0, s)
  | some l ↦
      if l.head == l.rear
      then some (negsuc 0, s)
      else elim (remove_loop fuel u (s.mem l.head).next l s.mem) [
        | none ↦ none
        | some (l', m') ↦ some (pos 0, record { list = some l'; mem = m' })
      ]
]

-- `UL`, allocated by the first insertion
unfoldable pub ensure_list : ℕ → TimerState → UserTimerList × Memory
ensure_list fresh s = elim s.list [ none ↦ user_timer_init fresh s.mem | some l ↦ (l, s.mem) ]

-- `insert_user_timer(timer)`
unfoldable pub insert_user_timer : ℕ → ℕ → TimerState → TimerState
insert_user_timer timer fresh s =
    let (l, m) = ensure_list fresh s in
    let at : ℕ = if l.head == l.rear then l.head else l.rear in
    record {
      list = some (record l { rear = timer; num = l.num +ℤ pos 1 });
      mem = set_next (set_next m at timer) timer null;
    }

-- `sys_timer_create(milliseconds)`; `timer` is the structure that `malloc` returns
unfoldable pub sys_timer_create : ℤ → ℕ → ℕ → TimerState → TimerState
sys_timer_create milliseconds timer fresh s =
    let usr_jiffies = div_ℤ milliseconds 10 in
    insert_user_timer timer fresh (record s {
      mem = update s.mem timer (record (s.mem timer) {
        usr_jiffies = usr_jiffies;
        init_jiffies = usr_jiffies;
        pid = negsuc 0;
      });
    })

-- the walk of `sys_timer_destroy`
unfoldable pub destroy_loop : ℕ → ℤ → ℕ → TimerState → Option TimerState
destroy_loop zero pid tmp s = none
destroy_loop (suc fuel) pid tmp s =
    let removed : Option (ℤ × TimerState) =
      if eqb_ℤ (s.mem tmp).pid pid then remove_user_timer (suc fuel) tmp s else some (pos 0, s) in
    let rest : Option TimerState = elim removed [
      | none ↦ none
      | some (r, s') ↦ destroy_loop fuel pid (s'.mem tmp).next s'
    ] in
    if tmp == null then some s else rest

-- `sys_timer_destroy(pid)`. Behind the loop the function ends without a `return`: its value is then
-- not determined, the inner `none`.
unfoldable pub sys_timer_destroy : ℕ → ℤ → TimerState → Option (Option ℤ × TimerState)
sys_timer_destroy fuel pid s = elim s.list [
  | none ↦ some (some (negsuc 0), s)
  | some l ↦ elim (destroy_loop fuel pid (s.mem l.head).next s) [
    | none ↦ none
    | some s' ↦ some (none, s')
  ]
]

-- the timers, the messages, and how many messages have been allocated
pub record ScanState : Type 0 where
  pub timers : Memory
  pub queue : MsgState
  pub allocs : ℕ

-- `USER_TIMER_UP`
abbrev pub user_timer_up : ℤ
user_timer_up = pos 3

-- the message that a timer posts when it runs out
unfoldable pub post_up : Supply → ScanState → ScanState
post_up supply s = record s {
  queue = post_new supply user_timer_up s.allocs s.queue;
  allocs = s.allocs + 1;
}

-- the body of the scan's loop, at the timer `tmp`
unfoldable pub tick_at : Supply → ℕ → ScanState → ScanState
tick_at supply tmp s =
    let left = (s.timers tmp).usr_jiffies -ℤ pos 1 in
    if eqb_ℤ left (pos 0)
    then post_up supply (record s {
      timers =
          update s.timers tmp (record (s.timers tmp) { usr_jiffies = (s.timers tmp).init_jiffies });
    })
    else record s { timers = update s.timers tmp (record (s.timers tmp) { usr_jiffies = left }) }

unfoldable pub scan_loop : Supply → ℕ → ℕ → ScanState → Option ScanState
scan_loop supply zero tmp s = none
scan_loop supply (suc fuel) tmp s =
    let s' = tick_at supply tmp s in
    let rest = scan_loop supply fuel (s'.timers tmp).next s' in if tmp == null then some s else rest

-- `scan_user_timer_list()`
unfoldable pub scan_user_timer_list :
    Supply → ℕ → Option UserTimerList → ScanState → Option ScanState
scan_user_timer_list supply fuel list s = elim list [
  | none ↦ some s
  | some l ↦ scan_loop supply fuel (s.timers l.head).next s
]
