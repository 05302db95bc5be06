-- ===== src/KernelTimer.antt =====
-- kernel/sched.c: the timers of the kernel (add_timer, and their part of do_timer) and the motors of the
-- floppy drives. The element `timer_list + i` is the number i + 1, and NULL is 0; a function pointer is a
-- number, 0 for NULL.
pub mod Sink
pub mod Add
mod Tests
use os_lab2_gui.Prelude.{
  ℕ, zero, suc, ◌+◌, ◌-◌, ◌≤◌, Bool, true, false, not, ◌&&◌, ◌||◌, Option, none, some, List, [],
  ◌∷◌, ltb, leb, ◌==◌, if◌then◌else◌,
}
use os_lab2_gui.Prelude.Int.{ℤ, pos, negsuc, ◌+ℤ◌, ◌-ℤ◌, ltb_ℤ, eqb_ℤ}
use os_lab2_gui.Prelude.Bits.{Bits, bit, bits_or, bits_and, bits_not}
use os_lab2_gui.Prelude.Table.{update}
use os_lab2_gui.Prelude.Chain.{null}

-- TIME_REQUESTS
abbrev pub time_requests : ℕ
time_requests = 64

-- `struct timer_list`
pub record Timer : Type 0 where
  pub jiffies : ℤ
  pub fn : ℕ
  pub next : ℕ

abbrev pub Slots : Type 0
Slots = ℕ → Timer

-- `timer_list` and `next_timer`
pub record Timers : Type 0 where
  pub slots : Slots
  pub next_timer : ℕ

-- the first element from `p` on, of `n`, that is not in use
unfoldable pub free_slot : ℕ → ℕ → Slots → Option ℕ
free_slot zero p slots = none
free_slot (suc n) p slots = if (slots p).fn == 0 then some p else free_slot n (p + 1) slots

-- the body of the loop of add_timer: `p` and the element behind it change places
unfoldable pub swap_next : ℕ → Slots → Slots
swap_next p slots =
    let q : ℕ = (slots p).next in
    let left : ℤ = (slots p).jiffies -ℤ (slots q).jiffies in
    let slots' : Slots =
      update slots p (record (slots p) { fn = (slots q).fn; jiffies = (slots q).jiffies }) in
    update slots' q (record (slots' q) { fn = (slots p).fn; jiffies = left })

-- whether the loop goes on
unfoldable pub goes_on : ℕ → Slots → Bool
goes_on p slots =
    not ((slots p).next == null) && ltb_ℤ (slots (slots p).next).jiffies (slots p).jiffies

unfoldable pub sink : ℕ → ℕ → Slots → Option Slots
sink zero p slots = none
sink (suc fuel) p slots =
    let rest = sink fuel (slots p).next (swap_next p slots) in
    if goes_on p slots then rest else some slots

-- How add_timer ends: it does nothing, it calls the function at once, or the timers are changed; `panic` is
-- for a full table.
pub data Added : Type 0 where
  ignored : Added
  called : ℕ → Added
  queued : Timers → Added
  panicked : Added
  out_of_fuel : Added

abbrev pub queue_up : Option Slots → ℕ → Added
queue_up none p = out_of_fuel
queue_up (some slots) p = queued (record { slots = slots; next_timer = p })

-- `add_timer(jiffies, fn)`
unfoldable pub add_timer : ℕ → ℤ → ℕ → Timers → Added
add_timer fuel jiffies fn t =
    if fn == 0
    then ignored
    else if not (ltb_ℤ (pos 0) jiffies)
    then called fn
    else elim (free_slot time_requests 1 t.slots) [
      | none ↦ panicked
      | some p ↦
          queue_up
            (sink fuel p
              (update t.slots p (record { jiffies = jiffies; fn = fn; next = t.next_timer })))
            p
    ]

-- the loop of do_timer over the timers that have run out: the functions called, in order
unfoldable pub expire : ℕ → Timers → Option (List ℕ × Timers)
expire zero t = none
expire (suc fuel) t =
    let p : ℕ = t.next_timer in
    let t' : Timers = record {
      slots = update t.slots p (record (t.slots p) { fn = 0 });
      next_timer = (t.slots p).next;
    } in
    let rest : Option (List ℕ × Timers) = elim (expire fuel t') [
      | none ↦ none
      | some (fns, t2) ↦ some ((t.slots p).fn ∷ fns, t2)
    ] in
    if p == null || ltb_ℤ (pos 0) (t.slots p).jiffies then some ([], t) else rest

-- `if (next_timer) { next_timer->jiffies--; while … }`
unfoldable pub tick_timers : ℕ → Timers → Option (List ℕ × Timers)
tick_timers fuel t =
    let p : ℕ = t.next_timer in
    let run : Option (List ℕ × Timers) = expire fuel (record t {
      slots = update t.slots p (record (t.slots p) { jiffies = (t.slots p).jiffies -ℤ pos 1 });
    }) in
    if p == null then some ([], t) else run

-- `mon_timer`, `moff_timer` and `current_DOR`
pub record Motors : Type 0 where
  pub mon_timer : ℕ → ℕ
  pub moff_timer : ℕ → ℕ
  pub current_dor : Bits

-- the turn of do_floppy_timer for the drive `i`: whether it calls `wake_up(i + wait_motor)`, and the motors
unfoldable pub motor_tick : ℕ → Motors → Bool × Motors
motor_tick i m =
    if not (m.current_dor (i + 4))
    then (false, m)
    else if not (m.mon_timer i == 0)
    then (m.mon_timer i == 1, record m { mon_timer = update m.mon_timer i (m.mon_timer i - 1) })
    else if m.moff_timer i == 0
    then (false, record m { current_dor = bits_and m.current_dor (bits_not (bit (i + 4))) })
    else (false, record m { moff_timer = update m.moff_timer i (m.moff_timer i - 1) })

-- `do_floppy_timer()`: the drives whose waiting tasks are woken, and the motors
unfoldable pub motor_loop : ℕ → ℕ → Motors → List ℕ × Motors
motor_loop zero i m = ([], m)
motor_loop (suc n) i m =
    let (wakes, m1) = motor_tick i m in
    let (woken, m2) = motor_loop n (i + 1) m1 in ((if wakes then i ∷ woken else woken), m2)

unfoldable pub do_floppy_timer : Motors → List ℕ × Motors
do_floppy_timer m = motor_loop 4 0 m

-- `floppy_off(nr)`
unfoldable pub floppy_off : ℕ → Motors → Motors
floppy_off nr m = record m { moff_timer = update m.moff_timer nr 300 }
