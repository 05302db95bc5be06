-- ===== src/KernelTimer/Tests.antt =====
-- Timers and motors of kernel/sched.c, and the theorems at them.
use os_lab2_gui.Prelude.{ℕ, ◌≡◌, ◌⊎◌, refl, [], ◌∷◌, arith, ◌==◌, if◌then◌else◌}
use os_lab2_gui.Prelude.Int.{pos, ◌+ℤ◌, ◌-ℤ◌}
use os_lab2_gui.Prelude.Bits.{bit}
use os_lab2_gui.Prelude.Chain.{Linked}
use os_lab2_gui.KernelTimer.{
  Timers, Slots, queued, panicked, add_timer, motor_tick, motor_loop, do_floppy_timer,
}
use os_lab2_gui.KernelTimer.Sink.{entries, insert, next_of}
use os_lab2_gui.KernelTimer.Add.{NoneFree, PutAt, dues, add_timer-insert, add_timer-dues}

-- two timers in the elements 1 and 2: due after 4 and after 10 ticks
abbrev slots : Slots
slots p =
    if p == 1
    then record { jiffies = pos 4; fn = 101; next = 2 }
    else if p == 2
    then record { jiffies = pos 6; fn = 102; next = 0 }
    else record { jiffies = pos 0; fn = 0; next = 0 }

abbrev timers : Timers
timers = record { slots = slots; next_timer = 1 }

add_timer-insert_example :
    ((add_timer 3 (pos 7) 103 timers ≡ panicked) × NoneFree slots)
    ⊎ ((p : ℕ) × (t' : Timers) × (add_timer 3 (pos 7) 103 timers ≡ queued t')
        × Linked (next_of t'.slots) t'.next_timer (p ∷ 1 ∷ 2 ∷ [])
        × (entries t'.slots (p ∷ 1 ∷ 2 ∷ []) ≡ insert (pos 7) 103 (entries slots (1 ∷ 2 ∷ []))))
add_timer-insert_example =
    add_timer-insert 3 (pos 7) 103 timers (1 ∷ 2 ∷ []) (omega arith) refl (omega arith)
      (omega arith) (omega arith) (omega arith)

-- the timer that was due after 10 ticks is due after 13
late :
    dues (pos 0) (insert (pos 7) 103 (entries slots (1 ∷ 2 ∷ [])))
    ≡ (pos 4, 101) ∷ (pos 7, 103) ∷ (pos 13, 102) ∷ []
unfolding ◌+ℤ◌ ◌-ℤ◌
late = refl

add_timer-dues_example :
    ((add_timer 3 (pos 7) 103 timers ≡ panicked) × NoneFree slots)
    ⊎ ((p : ℕ) × (t' : Timers) × (add_timer 3 (pos 7) 103 timers ≡ queued t')
        × PutAt
            (pos 0 +ℤ pos 7)
            103
            (dues (pos 0) (entries slots (1 ∷ 2 ∷ [])))
            (dues (pos 0) (entries t'.slots (p ∷ 1 ∷ 2 ∷ []))))
add_timer-dues_example =
    add_timer-dues 3 (pos 7) 103 timers (1 ∷ 2 ∷ []) (omega arith) refl (omega arith) (omega arith)
      (omega arith) (omega arith)

-- a motor that starts: with its last tick the waiting task is woken
started :
    (do_floppy_timer (record {
      mon_timer = λ i. if i == 2 then 1 else 0;
      moff_timer = λ i. 300;
      current_dor = bit 6;
    })).0
    ≡ 2 ∷ []
unfolding do_floppy_timer motor_loop motor_tick
started = refl
