-- ===== src/UserTimer/Scan.antt =====
-- `scan_user_timer_list` of kernel/timer.c: one tick for every timer of the list, and one message for
-- each that runs out.
use mathlib.Core.List.{append-nil, append_assoc}
use mathlib.Core.Path.{fun_ext, subst}
use native.Mathlib.Nat.{zero-add, suc-add}
use os_lab2_gui.Prelude.{
  ℕ, zero, suc, ◌+◌, ◌<◌, ◌≡◌, refl, sym, ap, ◌∙◌, inl, inr, Bool, false, ◌||◌, Bool-cases, ==_iff,
  some, List, [], ◌∷◌, ◌++◌, length, replicate, arith, ◌==◌, if◌then◌else◌,
}
use os_lab2_gui.Prelude.Int.{pos, negsuc, ◌-ℤ◌, eqb_ℤ}
use os_lab2_gui.Prelude.Table.{update}
use os_lab2_gui.Prelude.Chain.{null, Linked, NotIn, Distinct}
use os_lab2_gui.Message.Refine.{bodies}
use os_lab2_gui.Message.Queue.{Body}
use os_lab2_gui.Message.Post.{Supply, IsFresh, Ready, post_new-Ready}
use os_lab2_gui.UserTimer.{UserTimer, Memory, ScanState, user_timer_up, post_up, tick_at, scan_loop}
use os_lab2_gui.UserTimer.Period.{tick}

abbrev pub up_body : Body
up_body = (user_timer_up, negsuc 0)

abbrev pub has : ℕ → List ℕ → Bool
has a [] = false
has a (x ∷ xs) = (x == a) || has a xs

-- how many of the timers at `xs` run out with this tick
abbrev pub ups : Memory → List ℕ → ℕ
ups m [] = 0
ups m (x ∷ xs) = (if (tick (m x)).1 then 1 else 0) + ups m xs

has_of_NotIn : (a : ℕ) (xs : List ℕ) → NotIn a xs → has a xs ≡ false
has_of_NotIn a [] out = refl
has_of_NotIn a (x ∷ xs) out = ground (arith, has_of_NotIn a xs out.1)

ups-update :
    (m : Memory) (a : ℕ) (t : UserTimer) (xs : List ℕ)
    → NotIn a xs
    → ups (update m a t) xs ≡ ups m xs
ups-update m a t [] out = refl
ups-update m a t (x ∷ xs) out =
    ap (λ u. (if (tick u).1 then 1 else 0) + ups (update m a t) xs) same
    ∙ ap (λ n. (if (tick (m x)).1 then 1 else 0) + n) (ups-update m a t xs out.1)
  where
    same : update m a t x ≡ m x
    same = ground arith

replicate-add {ℓ} :
    {A : Type ℓ} (m n : ℕ) (a : A) → replicate m a ++ replicate n a ≡ replicate (m + n) a
replicate-add zero n a = ap (λ k. replicate k a) (sym (zero-add n))
replicate-add (suc m) n a =
    ap (λ t. a ∷ t) (replicate-add m n a) ∙ ap (λ k. replicate k a) (sym (suc-add m n))

-- a tick keeps the links
tick-next : (t : UserTimer) → (tick t).0.next ≡ t.next
unfolding tick
tick-next t = ground arith

abbrev pub next_of : Memory → ℕ → ℕ
next_of m a = (m a).next

next-tick : (m : Memory) (x : ℕ) → next_of (update m x (tick (m x)).0) ≡ next_of m
next-tick m x = fun_ext λ a. ground (arith, tick-next (m x))

module _ (supply : Supply) (fresh : IsFresh supply) where
  -- what one turn of the loop does: the timer's tick, and the message if it runs out
  tick_at_lem :
      (x : ℕ) (s : ScanState) (ys : List ℕ)
      → Ready supply s.allocs s.queue ys
      → let s' = tick_at supply x s in
        (s'.timers ≡ update s.timers x (tick (s.timers x)).0)
        × ((zs : List ℕ) × Ready supply s'.allocs s'.queue zs
            × (bodies s'.queue.mem zs
                ≡ bodies s.queue.mem ys
                  ++ replicate (if (tick (s.timers x)).1 then 1 else 0) up_body))
  unfolding tick_at tick post_up
  tick_at_lem x s ys r = elim (Bool-cases (eqb_ℤ ((s.timers x).usr_jiffies -ℤ pos 1) (pos 0))) [
    | inl e ↦
        rw (e, tick_at, tick)
          (
            refl,
            (let (r', b) = post_new-Ready supply fresh user_timer_up s.allocs s.queue ys r in
                (ys ++ supply.at s.allocs ∷ [], r', b)),
          )
    | inr e ↦ rw (e, tick_at, tick) (refl, (ys, r, sym (append-nil (bodies s.queue.mem ys))))
  ]

  -- The scan of a list of timers at `xs`: every timer of the list ticks once and no other changes; one
  -- message USER_TIMER_UP is appended to the queue for each that runs out. With more fuel than there
  -- are timers the scan ends.
  pub scan_loop_lem :
      (fuel p : ℕ) (s : ScanState) (xs ys : List ℕ)
      → length xs < fuel
      → Linked (next_of s.timers) p xs
      → Distinct xs
      → Ready supply s.allocs s.queue ys
      → (s' : ScanState) × (scan_loop supply fuel p s ≡ some s')
        × ((a : ℕ) → s'.timers a ≡ (if has a xs then (tick (s.timers a)).0 else s.timers a))
        × ((zs : List ℕ) × Ready supply s'.allocs s'.queue zs
            × (bodies s'.queue.mem zs
                ≡ bodies s.queue.mem ys ++ replicate (ups s.timers xs) up_body))
  unfolding scan_loop
  scan_loop_lem zero p s xs ys fuel_left c d r = absurd (omega arith)
  scan_loop_lem (suc fuel) p s [] ys fuel_left c d r =
      (s, rw c, (λ a. refl), (ys, r, sym (append-nil (bodies s.queue.mem ys))))
  scan_loop_lem (suc fuel) p s (x ∷ xs) ys fuel_left (e, ne, c) (out, d) r =
      let s1 = tick_at supply x s in
      let (same, (ys1, r1, b1)) = tick_at_lem x s ys r in
      let links : Linked (next_of s1.timers) (next_of s1.timers x) xs =
        subst (λ n. Linked n (n x) xs) (sym (ap next_of same ∙ next-tick s.timers x)) c in
      let (s', run, ticked, (zs, r2, b2)) =
        scan_loop_lem fuel (next_of s1.timers x) s1 xs ys1 (omega arith) links d r1 in
      rw (e, not_null)
        (
          s',
          run,
          (λ a. each a s1 (ap (λ m. m a) same) (s'.timers a) (ticked a)),
          (
            zs,
            r2,
            b2
                ∙ ap (λ b. b ++ replicate (ups s1.timers xs) up_body) b1
                ∙ counted (bodies s.queue.mem ys) (ups s1.timers xs)
                    (ap (λ m. ups m xs) same ∙ ups-update s.timers x (tick (s.timers x)).0 xs out),
          ),
        )
    where
      not_null : (x == null) ≡ false
      not_null = ground arith

      each :
          (a : ℕ) (s1 : ScanState)
          → s1.timers a ≡ update s.timers x (tick (s.timers x)).0 a
          → (t : UserTimer) → t ≡ (if has a xs then (tick (s1.timers a)).0 else s1.timers a)
          → t ≡ (if (x == a) || has a xs then (tick (s.timers a)).0 else s.timers a)
      each a s1 same t h = elim (Bool-cases (x == a)) [
        | inl hit ↦
            let q : x ≡ a = (==_iff x a).0 hit in
            rw hit (
              (rw (has_of_NotIn a xs (subst (λ k. NotIn k xs) q out)) at h)
              ∙ (rw hit at same)
              ∙ ap (λ k. (tick (s.timers k)).0) q)
        | inr miss ↦ rw miss (rw (rw miss at same) at h)
      ]

      counted :
          (b : List Body) (n : ℕ)
          → n ≡ ups s.timers xs
          → (b ++ replicate (if (tick (s.timers x)).1 then 1 else 0) up_body) ++ replicate n up_body
            ≡ b ++ replicate (ups s.timers (x ∷ xs)) up_body
      counted b n e =
          append_assoc b (replicate (if (tick (s.timers x)).1 then 1 else 0) up_body)
            (replicate n up_body)
          ∙ ap (λ t. b ++ t) (replicate-add (if (tick (s.timers x)).1 then 1 else 0) n up_body)
          ∙ ap (λ k. b ++ replicate ((if (tick (s.timers x)).1 then 1 else 0) + k) up_body) e
