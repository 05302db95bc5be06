-- ===== src/Signal.antt =====
-- kernel/signal.c: the masks and handlers of the current task, and the call of a handler. A mask or a word
-- of flags is used bit by bit. `user` is the memory that put_fs_long writes to, by the address of a long.
pub mod Masks
pub mod Frame
pub mod Longs
pub mod Once
mod Tests
use os_lab2_gui.Prelude.{
  ℕ, ◌+◌, ◌-◌, ◌*◌, ◌%◌, ◌^◌, Bool, not, ◌||◌, Option, none, some, List, [], ◌∷◌, ◌++◌, ◌==◌,
  if◌then◌else◌,
}
use os_lab2_gui.Prelude.Int.{ℤ, pos, negsuc, pos_part, ltb_ℤ, eqb_ℤ}
use os_lab2_gui.Prelude.Bits.{Bits, zeros, bit, bits_or, bits_and, bits_not}
use os_lab2_gui.Prelude.Table.{update}
use os_lab2_gui.Memory.{Memory, Ran, ok, and_then}
use os_lab2_gui.Fork.{verify_area}

-- `struct sigaction`
pub record Sigaction : Type 0 where
  pub sa_handler : ℕ
  pub sa_mask : Bits
  pub sa_flags : Bits
  pub sa_restorer : ℕ

-- `sigaction[]`, from 0 on, and `blocked` of the current task
pub record Signals : Type 0 where
  pub sigaction : ℕ → Sigaction
  pub blocked : Bits

-- SA_NOMASK and SA_ONESHOT
abbrev pub nomask : ℕ
nomask = 30

abbrev pub oneshot : ℕ
oneshot = 31

-- SIGKILL and SIGCHLD
abbrev pub sigkill : ℕ
sigkill = 9

abbrev pub sigchld : ℕ
sigchld = 17

-- `sys_sgetmask()`
abbrev pub sys_sgetmask : Signals → Bits
sys_sgetmask s = s.blocked

-- `sys_ssetmask(newmask)`
unfoldable pub sys_ssetmask : Bits → Signals → Bits × Signals
sys_ssetmask newmask s =
    (s.blocked, record s { blocked = bits_and newmask (bits_not (bit (sigkill - 1))) })

-- `signum<1 || signum>32 || signum==SIGKILL`
abbrev pub no_handler : ℤ → Bool
no_handler signum = ltb_ℤ signum (pos 1) || ltb_ℤ (pos 32) signum || eqb_ℤ signum (pos sigkill)

-- `signum-1`
abbrev pub index_of : ℤ → ℕ
index_of signum = pos_part signum - 1

abbrev pub set_action : ℕ → Sigaction → Signals → Signals
set_action i a s = record s { sigaction = update s.sigaction i a }

-- `sys_signal(signum, handler, restorer)`: -1, or the old handler
unfoldable pub sys_signal : ℤ → ℕ → ℕ → Signals → Option ℕ × Signals
sys_signal signum handler restorer s = if no_handler signum then (none, s) else (
  some (s.sigaction (index_of signum)).sa_handler,
  set_action (index_of signum)
      (record {
        sa_handler = handler;
        sa_mask = zeros;
        sa_flags = bits_or (bit oneshot) (bit nomask);
        sa_restorer = restorer;
      })
      s,
)

-- the mask that sys_sigaction stores
abbrev pub action_mask : ℕ → Sigaction → Sigaction
action_mask i a = record a {
  sa_mask = if a.sa_flags nomask then zeros else bits_or a.sa_mask (bit i);
}

-- `sys_sigaction(signum, action, oldaction)`: the value, the old action if it is written to `oldaction`,
-- the state and the page tables
unfoldable pub sys_sigaction :
    ℕ → ℤ → Sigaction → Option ℕ → Signals → Memory → Ran (ℤ × Option Sigaction × Signals × Memory)
sys_sigaction base signum action oldaction s m =
    let new : Signals = set_action (index_of signum) (action_mask (index_of signum) action) s in
    if no_handler signum then ok (negsuc 0, none, s, m) else elim oldaction [
      | none ↦ ok (pos 0, none, new, m)
      | some to ↦
          and_then (verify_area base to 16 m)
            (λ m1. ok (pos 0, some (s.sigaction (index_of signum)), new, m1))
    ]

-- a long in the memory of the task: a number, or a mask
pub data Long : Type 0 where
  number : ℕ → Long
  mask : Bits → Long

-- `put_fs_long(…, tmp_esp++)`, for one long after the other
abbrev pub put_longs : List Long → ℕ → (ℕ → Long) → ℕ → Long
put_longs [] tmp_esp user = user
put_longs (v ∷ vs) tmp_esp user = put_longs vs ((tmp_esp + 4) % 2 ^ 32) (update user tmp_esp v)

-- the masks and handlers, the memory of the task and its page tables
pub record Machine : Type 0 where
  pub signals : Signals
  pub user : ℕ → Long
  pub memory : Memory

-- the registers of the task that do_signal saves
pub record Saved : Type 0 where
  pub eax : ℕ
  pub ecx : ℕ
  pub edx : ℕ
  pub eflags : ℕ
  pub eip : ℕ

-- How do_signal ends: nothing happens, the task exits with a code, or it goes on at the handler, with this
-- stack pointer.
pub data Handled : Type 0 where
  ignored : Handled
  exits : ℕ → Handled
  calls : ℕ → ℕ → Machine → Handled

abbrev pub blocked_longs : Sigaction → Bits → List Long
blocked_longs sa blocked = if sa.sa_flags nomask then [] else mask blocked ∷ []

-- what is put on the stack, from its top on
abbrev pub frame : ℕ → Sigaction → Bits → Saved → List Long
frame signr sa blocked r =
    (number sa.sa_restorer ∷ number signr ∷ [])
    ++ blocked_longs sa blocked
    ++ (number r.eax ∷ number r.ecx ∷ number r.edx ∷ number r.eflags ∷ number r.eip ∷ [])

abbrev pub longs_of : Sigaction → ℕ
longs_of sa = if sa.sa_flags nomask then 7 else 8

-- `if (sa->sa_flags & SA_ONESHOT) sa->sa_handler = NULL;`
abbrev pub spent : Sigaction → Sigaction
spent sa = record sa { sa_handler = if sa.sa_flags oneshot then 0 else sa.sa_handler }

-- the call of the handler
unfoldable pub call_handler : ℕ → ℕ → Saved → ℕ → Machine → Ran Handled
call_handler base signr r esp s =
    let sa : Sigaction = s.signals.sigaction (signr - 1) in
    let top : ℕ = (esp + 2 ^ 32 - 4 * longs_of sa) % 2 ^ 32 in
    and_then (verify_area base top (longs_of sa * 4) s.memory) (λ memory1. ok (
      calls sa.sa_handler top (record {
        signals = record s.signals {
          sigaction = update s.signals.sigaction (signr - 1) (spent sa);
          blocked = bits_or s.signals.blocked sa.sa_mask;
        };
        user = put_longs (frame signr sa s.signals.blocked r) top s.user;
        memory = memory1;
      })))

-- `do_signal(signr, …)`, with the data segment of the task at `base`
unfoldable pub do_signal : ℕ → ℕ → Saved → ℕ → Machine → Ran Handled
do_signal base signr r esp s =
    let sa_handler : ℕ = (s.signals.sigaction (signr - 1)).sa_handler in
    if sa_handler == 1
    then ok ignored
    else if sa_handler == 0
    then (if signr == sigchld then ok ignored else ok (exits (2 ^ (signr - 1))))
    else call_handler base signr r esp s
