-- ===== src/Signal/Tests.antt =====
-- A task with a handler for SIGINT, for kernel/signal.c, and the theorems at it.
use os_lab2_gui.Prelude.{ℕ, ◌+◌, ◌-◌, ◌%◌, ◌^◌, ◌≡◌, ◌≢◌, refl, true, arith, ◌==◌, if◌then◌else◌}
use os_lab2_gui.Prelude.Bits.{zeros, bit}
use os_lab2_gui.Prelude.Int.{pos}
use os_lab2_gui.Memory.{Memory, ok}
use os_lab2_gui.Memory.Fault.{write_verify}
use os_lab2_gui.Fork.{verify_area, verify_loop}
use os_lab2_gui.Signal.{
  Sigaction, Machine, Saved, number, exits, calls, sys_ssetmask, sys_signal, do_signal, sigchld,
  ignored,
}
use os_lab2_gui.Signal.Masks.{IsKillable, Step, Reach, Reach-IsKillable}
use os_lab2_gui.Signal.Frame.{Called, do_signal-Called}
use os_lab2_gui.Signal.Once.{do_signal-once}

abbrev no_tables : Memory
no_tables = record { mem_map = λ i. 0; mem = λ a. 0; high_memory = 16777216 }

-- the handler at 1000 for the signal 2, with the mask of SIGHUP
abbrev on_interrupt : Sigaction
on_interrupt = record { sa_handler = 1000; sa_mask = bit 0; sa_flags = zeros; sa_restorer = 2000 }

abbrev default_action : Sigaction
default_action = record { sa_handler = 0; sa_mask = zeros; sa_flags = zeros; sa_restorer = 0 }

abbrev machine : Machine
machine = record {
  signals = record {
    sigaction = λ i. if i == 1 then on_interrupt else default_action;
    blocked = zeros;
  };
  user = λ a. number 0;
  memory = no_tables;
}

abbrev saved : Saved
saved = record { eax = 1; ecx = 2; edx = 3; eflags = 512; eip = 100 }

verified_top : verify_area 0 ((4096 + 2 ^ 32 - 32) % 2 ^ 32) 32 no_tables ≡ ok no_tables
unfolding verify_area verify_loop write_verify
verified_top = refl

do_signal-Called_example :
    (s' : Machine) × (do_signal 0 2 saved 4096 machine ≡ ok (calls 1000 4064 s'))
    × Called 2 saved 4064 machine no_tables s'
do_signal-Called_example =
    do_signal-Called 0 2 saved 4096 machine no_tables (omega arith) (omega arith) (omega arith)
      verified_top

verified_once : verify_area 0 (4096 - 28) 28 machine.memory ≡ ok no_tables
unfolding verify_area verify_loop write_verify
verified_once = refl

two_ne_nine : ◌≢◌ {A = ℕ} 2 9
two_ne_nine e = omega (arith, e)

do_signal-once_example :
    (s' : Machine) × (do_signal 0 2 saved 4096
        (record machine { signals = (sys_signal (pos 2) 1000 2000 machine.signals).1 })
      ≡ ok (calls 1000 4068 s'))
    × (do_signal 0 2 saved 4068 s' ≡ ok (if 2 == sigchld then ignored else exits (2 ^ 1)))
do_signal-once_example =
    do_signal-once 0 2 1000 2000 machine saved saved 4096 4068 no_tables (omega arith) (omega arith)
      two_ne_nine (omega arith) (omega arith) (omega arith) verified_once

machine-IsKillable : IsKillable machine.signals
machine-IsKillable = (refl, λ i. ground arith)

Reach-IsKillable_example :
    IsKillable (record machine { signals = (sys_ssetmask (λ i. true) machine.signals).1 }).signals
Reach-IsKillable_example =
    Reach-IsKillable {s = machine} machine-IsKillable
      (Reach.next Reach.here (Step.set_mask (λ i. true)))
