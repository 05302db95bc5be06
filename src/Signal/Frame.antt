-- ===== src/Signal/Frame.antt =====
-- kernel/signal.c: do_signal, when the task has a handler.
use os_lab2_gui.Prelude.{
  ℕ, suc, ◌+◌, ◌-◌, ◌*◌, ◌%◌, ◌^◌, ◌≤◌, ◌<◌, ◌≡◌, ◌≢◌, ◌⊎◌, refl, inl, inr, false, some, List, [],
  ◌∷◌, length, get_elem?, arith, ◌==◌, if◌then◌else◌, Bool-cases, ap, sym, ◌∙◌,
}
use os_lab2_gui.Prelude.Bits.{Bits, bits_or}
use os_lab2_gui.Prelude.Table.{update, update_self, update_ne}
use os_lab2_gui.Memory.{Memory, ok}
use os_lab2_gui.Fork.{verify_area}
use os_lab2_gui.Signal.Longs.{put_longs-outside, put_longs-inside}
use os_lab2_gui.Signal.{
  number, mask, Sigaction, nomask, oneshot, Long, put_longs, Machine, Saved, calls, frame, longs_of,
  spent, call_handler, do_signal,
}

length-frame :
    (signr : ℕ) (sa : Sigaction) (blocked : Bits) (r : Saved)
    → length (frame signr sa blocked r) ≡ longs_of sa
length-frame signr sa blocked r = elim (Bool-cases (sa.sa_flags nomask)) [
  | inl e ↦ rw e refl
  | inr e ↦ rw e refl
]

-- the registers that are saved, and where
abbrev saved_longs : Saved → List Long
saved_longs r = number r.eax ∷ number r.ecx ∷ number r.edx ∷ number r.eflags ∷ number r.eip ∷ []

abbrev pub saved_at : ℕ → Sigaction → ℕ
saved_at top sa = if sa.sa_flags nomask then top + 8 else top + 12

-- what the handler finds on its stack
abbrev pub Framed : ℕ → Sigaction → Bits → Saved → ℕ → (ℕ → Long) → Type 0
Framed signr sa blocked r top user =
    (user top ≡ number sa.sa_restorer)
    × (user (top + 4) ≡ number signr)
    × (sa.sa_flags nomask ≡ false → user (top + 8) ≡ mask blocked)
    × (user (saved_at top sa) ≡ number r.eax)
    × (user (saved_at top sa + 4) ≡ number r.ecx)
    × (user (saved_at top sa + 8) ≡ number r.edx)
    × (user (saved_at top sa + 12) ≡ number r.eflags)
    × (user (saved_at top sa + 16) ≡ number r.eip)

module _ (signr : ℕ) (sa : Sigaction) (blocked : Bits) (r : Saved) (top : ℕ) (user : ℕ → Long)
    (at : (i : ℕ) (v : Long)
      → get_elem? (frame signr sa blocked r) i ≡ some v
      → user (top + 4 * i) ≡ v) where
  long-at :
      (a i : ℕ) (v : Long)
      → a ≡ top + 4 * i
      → get_elem? (frame signr sa blocked r) i ≡ some v
      → user a ≡ v
  long-at a i v here e = ap user here ∙ at i v e

  saved-at :
      (a j : ℕ) (v : Long)
      → a ≡ saved_at top sa + 4 * j
      → get_elem? (saved_longs r) j ≡ some v
      → user a ≡ v
  saved-at a j v here e = elim (Bool-cases (sa.sa_flags nomask)) [
    | inl e1 ↦ long-at a (suc (suc j)) v (here ∙ rw e1 (omega arith)) (rw e1 e)
    | inr e1 ↦ long-at a (suc (suc (suc j))) v (here ∙ rw e1 (omega arith)) (rw e1 e)
  ]

  frame-Framed : Framed signr sa blocked r top user
  frame-Framed = (
    long-at top 0 _ (omega arith) refl,
    long-at (top + 4) 1 _ (omega arith) refl,
    λ e. long-at (top + 8) 2 (mask blocked) (omega arith) (rw e refl),
    saved-at (saved_at top sa) 0 _ (omega arith) refl,
    saved-at (saved_at top sa + 4) 1 _ (omega arith) refl,
    saved-at (saved_at top sa + 8) 2 _ (omega arith) refl,
    saved-at (saved_at top sa + 12) 3 _ (omega arith) refl,
    saved-at (saved_at top sa + 16) 4 _ (omega arith) refl,
  )

longs_end : (top : ℕ) (sa : Sigaction) → saved_at top sa + 20 ≡ top + 4 * longs_of sa
longs_end top sa = ground arith

-- The task goes on at the handler, with its frame at `top`.
abbrev pub Called : ℕ → Saved → ℕ → Machine → Memory → Machine → Type 0
Called signr r top s memory1 s' =
    let sa : Sigaction = s.signals.sigaction (signr - 1) in
    Framed signr sa s.signals.blocked r top s'.user
    × ((a : ℕ) → (a < top) ⊎ (saved_at top sa + 20 ≤ a) → s'.user a ≡ s.user a)
    × (s'.signals.sigaction (signr - 1)
        ≡ record sa { sa_handler = if sa.sa_flags oneshot then 0 else sa.sa_handler })
    × ((i : ℕ) → signr - 1 ≢ i → s'.signals.sigaction i ≡ s.signals.sigaction i)
    × (s'.signals.blocked ≡ bits_or s.signals.blocked sa.sa_mask)
    × (s'.memory ≡ memory1)

module _ (base signr : ℕ) (r : Saved) (esp : ℕ) (s : Machine) where
  abbrev sa : Sigaction
  sa = s.signals.sigaction (signr - 1)

  abbrev top : ℕ
  top = (esp + 2 ^ 32 - 4 * longs_of sa) % 2 ^ 32

  abbrev called : Memory → Machine
  called memory1 = record {
    signals = record s.signals {
      sigaction = update s.signals.sigaction (signr - 1) (spent sa);
      blocked = bits_or s.signals.blocked sa.sa_mask;
    };
    user = put_longs (frame signr sa s.signals.blocked r) top s.user;
    memory = memory1;
  }

  below_9 : longs_of sa ≤ 8
  below_9 = ground arith

  top-room : 32 ≤ esp → esp < 2 ^ 32 → top + 4 * longs_of sa < 2 ^ 32
  top-room lo hi = room (longs_of sa) below_9
    where
      room : (n : ℕ) → n ≤ 8 → (esp + 2 ^ 32 - 4 * n) % 2 ^ 32 + 4 * n < 2 ^ 32
      room n le = omega arith

  called-Called :
      (memory1 : Memory) → 32 ≤ esp → esp < 2 ^ 32 → Called signr r top s memory1 (called memory1)
  called-Called memory1 lo hi = (
    frame-Framed signr sa s.signals.blocked r top (called memory1).user (λ i v e.
        put_longs-inside (frame signr sa s.signals.blocked r) (longs_of sa) top s.user i v
          (length-frame signr sa s.signals.blocked r) (top-room lo hi) e),
    λ a out.
        put_longs-outside (frame signr sa s.signals.blocked r) (longs_of sa) top s.user a
          (length-frame signr sa s.signals.blocked r) (top-room lo hi)
          (rw (sym (longs_end top sa)) out),
    update_self s.signals.sigaction (signr - 1) (spent sa),
    λ i ne. update_ne s.signals.sigaction (signr - 1) (spent sa) i ne,
    refl,
    refl,
  )

  -- If the signal has a handler, the stack pointer leaves room for its frame and verify_area returns,
  -- do_signal goes on at the handler: from the new top of the stack on lie the restorer, the signal, the old
  -- mask unless SA_NOMASK is set, the registers and the old place; no other long of the task changes, the mask
  -- of the handler is added to the blocked signals, and the handler is taken away if SA_ONESHOT is set.
  pub do_signal-Called :
      (memory1 : Memory)
      → 2 ≤ sa.sa_handler
      → 32 ≤ esp
      → esp < 2 ^ 32
      → verify_area base top (longs_of sa * 4) s.memory ≡ ok memory1
      → (s' : Machine) × (do_signal base signr r esp s ≡ ok (calls sa.sa_handler top s'))
        × Called signr r top s memory1 s'
  unfolding do_signal call_handler
  do_signal-Called memory1 h lo hi e = (
    called memory1,
    rw (handler-ne 0 (omega arith), handler-ne 1 (omega arith), e) refl,
    called-Called memory1 lo hi,
  )
    where
      handler-ne : (n : ℕ) → n < 2 → (sa.sa_handler == n) ≡ false
      handler-ne n lt = ground arith
