-- ===== src/Signal/Once.antt =====
-- kernel/signal.c: a handler that sys_signal installs, and do_signal.
use os_lab2_gui.Prelude.{
  ℕ, ◌+◌, ◌-◌, ◌*◌, ◌%◌, ◌^◌, ◌≤◌, ◌<◌, ◌≡◌, ◌≢◌, refl, inl, inr, false, arith, ◌==◌, if◌then◌else◌,
  Bool-cases, ap, ◌∙◌,
}
use os_lab2_gui.Prelude.Int.{pos}
use os_lab2_gui.Prelude.Bits.{zeros, bit, bits_or}
use os_lab2_gui.Prelude.Table.{update_self}
use os_lab2_gui.Memory.{Memory, ok}
use os_lab2_gui.Fork.{verify_area}
use os_lab2_gui.Signal.{
  Sigaction, Signals, nomask, oneshot, sigchld, no_handler, sys_signal, Machine, Saved, ignored,
  exits, calls, frame, longs_of, spent, do_signal,
}
use os_lab2_gui.Signal.Frame.{do_signal-Called}

do_signal-default :
    (base signr : ℕ) (r : Saved) (esp : ℕ) (s : Machine)
    → (s.signals.sigaction (signr - 1)).sa_handler ≡ 0
    → do_signal base signr r esp s
      ≡ ok (if signr == sigchld then ignored else exits (2 ^ (signr - 1)))
unfolding do_signal
do_signal-default base signr r esp s e =
    rw e (elim (Bool-cases (signr == sigchld)) [
      | inl child ↦ rw child refl
      | inr other ↦ rw other refl
    ])

-- what sys_signal installs
abbrev once_action : ℕ → ℕ → Sigaction
once_action handler restorer = record {
  sa_handler = handler;
  sa_mask = zeros;
  sa_flags = bits_or (bit oneshot) (bit nomask);
  sa_restorer = restorer;
}

sys_signal-installs :
    (signr handler restorer : ℕ) (s : Signals)
    → 1 ≤ signr
    → signr ≤ 32
    → signr ≢ 9
    → (sys_signal (pos signr) handler restorer s).1.sigaction (signr - 1)
      ≡ once_action handler restorer
unfolding sys_signal
sys_signal-installs signr handler restorer s h1 h2 h3 =
    rw (valid) (update_self s.sigaction (signr - 1) (once_action handler restorer))
  where
    valid : no_handler (pos signr) ≡ false
    valid = ground arith

default-of_spent :
    (base signr : ℕ) (r : Saved) (esp : ℕ) (s' : Machine) (handler restorer : ℕ) (a : Sigaction)
    → a ≡ once_action handler restorer
    → s'.signals.sigaction (signr - 1) ≡ spent a
    → do_signal base signr r esp s'
      ≡ ok (if signr == sigchld then ignored else exits (2 ^ (signr - 1)))
default-of_spent base signr r esp s' handler restorer a same slot =
    do_signal-default base signr r esp s'
      (ap (λ b. b.sa_handler) slot ∙ ap (λ b. (spent b).sa_handler) same)

-- A handler that sys_signal installs is called once. If the stack has room for its frame and verify_area
-- returns, do_signal of that signal goes on at the handler; and with the state that it leaves the next such
-- signal is ignored if it is SIGCHLD, and ends the task if not.
pub do_signal-once :
    (base signr handler restorer : ℕ) (s : Machine) (r r' : Saved) (esp esp' : ℕ) (memory1 : Memory)
    → 1 ≤ signr
    → signr ≤ 32
    → signr ≢ 9
    → 2 ≤ handler
    → 32 ≤ esp
    → esp < 2 ^ 32
    → verify_area base (esp - 28) 28 s.memory ≡ ok memory1
    → (s' : Machine) × (do_signal base signr r esp
          (record s { signals = (sys_signal (pos signr) handler restorer s.signals).1 })
        ≡ ok (calls handler (esp - 28) s'))
      × (do_signal base signr r' esp' s'
          ≡ ok (if signr == sigchld then ignored else exits (2 ^ (signr - 1))))
do_signal-once base signr handler restorer s r r' esp esp' memory1 h1 h2 h3 h4 lo hi e =
    let installed : (sys_signal (pos signr) handler restorer s.signals).1.sigaction (signr - 1)
        ≡ once_action handler restorer =
      sys_signal-installs signr handler restorer s.signals h1 h2 h3 in
    let start : Machine = record s {
      signals = (sys_signal (pos signr) handler restorer s.signals).1;
    } in
    let at : (esp + 2 ^ 32 - 28) % 2 ^ 32 ≡ esp - 28 = omega arith in
    let (s', ran, (frame, below, slot, others, blocked, kept)) =
      (do_signal-Called base signr r esp start memory1 (rw installed h4) lo hi
        (rw (installed, at) e)) in
    (
      s',
      ran
          ∙ ap (λ a. ok (calls a.sa_handler ((esp + 2 ^ 32 - 4 * longs_of a) % 2 ^ 32) s'))
              installed
          ∙ ap (λ n. ok (calls handler n s')) at,
      default-of_spent base signr r' esp' s' handler restorer _ installed slot,
    )
