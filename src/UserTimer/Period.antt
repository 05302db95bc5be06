-- ===== src/UserTimer/Period.antt =====
-- When a user timer of kernel/timer.c posts its message: the ticks between two of them.
use os_lab2_gui.Prelude.{
  ℕ, zero, suc, ◌+◌, ◌-◌, ◌/◌, ◌≡◌, ◌<◌, ◌≤◌, refl, sym, ap, ◌∙◌, Bool, true, false, Option, none,
  some, arith, if◌then◌else◌,
}
use os_lab2_gui.Prelude.Int.{ℤ, pos, negsuc, pos_part, ◌-ℤ◌, eqb_ℤ, div_ℤ}
use os_lab2_gui.Prelude.Table.{update}
use native.Mathlib.Nat.{div-eq_of_lt, add-div_right}
use os_lab2_gui.UserTimer.{
  UserTimer, UserTimerList, TimerState, Memory, user_timer_init, ensure_list, insert_user_timer,
  sys_timer_create,
}

-- what a tick does to a timer, and whether it posts
unfoldable pub tick : UserTimer → UserTimer × Bool
tick t =
    let left = t.usr_jiffies -ℤ pos 1 in
    if eqb_ℤ left (pos 0)
    then (record t { usr_jiffies = t.init_jiffies }, true)
    else (record t { usr_jiffies = left }, false)

-- a timer after `n` ticks, and how many of them post
unfoldable pub ticks : ℕ → UserTimer → UserTimer × ℕ
ticks zero t = (t, 0)
ticks (suc n) t =
    let (t', up) = tick t in let (t'', ups) = ticks n t' in (t'', (if up then 1 else 0) + ups)

-- the timer `t` with `j` ticks left
abbrev pub at_jiffies : UserTimer → ℤ → UserTimer
at_jiffies t j = record t { usr_jiffies = j }

tick-more :
    (t : UserTimer) (j : ℕ)
    → tick (at_jiffies t (pos (suc (suc j)))) ≡ (at_jiffies t (pos (suc j)), false)
unfolding tick ◌-ℤ◌
tick-more t j = ground arith

tick-last : (t : UserTimer) → tick (at_jiffies t (pos 1)) ≡ (at_jiffies t t.init_jiffies, true)
unfolding tick ◌-ℤ◌
tick-last t = refl

tick-nonpos :
    (t : UserTimer) (n : ℕ)
    → tick (at_jiffies t (negsuc n)) ≡ (at_jiffies t (negsuc (suc n)), false)
unfolding tick ◌-ℤ◌
tick-nonpos t n = ground arith

counted : ℕ → UserTimer × Bool → ℕ
counted m (t, up) = (if up then 1 else 0) + (ticks m t).1

-- how often a timer posts that has `j + 1` ticks left of its `p`
ticks_left :
    (m p j : ℕ) (t : UserTimer)
    → j < p
    → t.init_jiffies ≡ pos p
    → (ticks m (at_jiffies t (pos (suc j)))).1 ≡ (m + (p - suc j)) / p
unfolding ticks counted
ticks_left zero p j t h e = sym (div-eq_of_lt (omega arith))
ticks_left (suc m) zero zero t h e = absurd (omega arith)
ticks_left (suc m) (suc q) zero t h e =
    ap (counted m) (tick-last t)
    ∙ ap (λ j. 1 + (ticks m (at_jiffies t j)).1) e
    ∙ ap (λ k. 1 + k) (ticks_left m (suc q) q t (omega arith) e)
    ∙ omega (arith, whole, shift, pack)
  where
    whole : (m + suc q) / suc q ≡ m / suc q + 1
    whole = add-div_right m (omega arith)

    shift : (m + (suc q - suc q)) / suc q ≡ m / suc q
    shift = ap (λ k. k / suc q) (omega arith)

    pack : (suc m + (suc q - 1)) / suc q ≡ (m + suc q) / suc q
    pack = ap (λ k. k / suc q) (omega arith)
ticks_left (suc m) p (suc j) t h e =
    ap (counted m) (tick-more t j)
    ∙ ap (λ k. 0 + k) (ticks_left m p j t (omega arith) e)
    ∙ omega (arith, same)
  where
    same : (m + (p - suc j)) / p ≡ (suc m + (p - suc (suc j))) / p
    same = ap (λ k. k / p) (omega arith)

-- a timer of `p` ticks posts once in every `p` of them
ticks-period :
    (m p : ℕ) (t : UserTimer)
    → 0 < p
    → t.usr_jiffies ≡ pos p
    → t.init_jiffies ≡ pos p
    → (ticks m t).1 ≡ m / p
ticks-period m zero t h eu ei = absurd (omega arith)
ticks-period m (suc q) t h eu ei =
    ap (λ j. (ticks m (at_jiffies t j)).1) eu
    ∙ ticks_left m (suc q) q t (omega arith) ei
    ∙ ap (λ k. k / suc q) (omega arith)

negative_never : (m n : ℕ) (t : UserTimer) → (ticks m (at_jiffies t (negsuc n))).1 ≡ 0
unfolding ticks counted
negative_never zero n t = refl
negative_never (suc m) n t =
    ap (counted m) (tick-nonpos t n) ∙ omega (arith, negative_never m (suc n) t)

tick-zero : (t : UserTimer) → tick (at_jiffies t (pos 0)) ≡ (at_jiffies t (negsuc 0), false)
unfolding tick ◌-ℤ◌
tick-zero t = refl

zero_never : (m : ℕ) (t : UserTimer) → (ticks m (at_jiffies t (pos 0))).1 ≡ 0
unfolding ticks counted
zero_never zero t = refl
zero_never (suc m) t = ap (counted m) (tick-zero t) ∙ omega (arith, negative_never m 0 t)

-- the structure that `sys_timer_create` makes
abbrev pub created : ℤ → ℕ → ℕ → TimerState → UserTimer
created ms timer fresh s = (sys_timer_create ms timer fresh s).mem timer

-- what an insertion leaves of a structure
insert-jiffies :
    (timer fresh : ℕ) (o : Option UserTimerList) (m : Memory)
    → let t = (insert_user_timer timer fresh (record { list = o; mem = m })).mem timer in
      (t.usr_jiffies ≡ (m timer).usr_jiffies) × (t.init_jiffies ≡ (m timer).init_jiffies)
unfolding insert_user_timer ensure_list user_timer_init
insert-jiffies timer fresh none m = (ground arith, ground arith)
insert-jiffies timer fresh (some l) m = (ground arith, ground arith)

created-jiffies :
    (ms : ℤ) (timer fresh : ℕ) (s : TimerState)
    → ((created ms timer fresh s).usr_jiffies ≡ div_ℤ ms 10)
      × ((created ms timer fresh s).init_jiffies ≡ div_ℤ ms 10)
unfolding sys_timer_create
created-jiffies ms timer fresh s =
    let m = write in
    let (usr, init) = insert-jiffies timer fresh s.list m in (usr ∙ written.0, init ∙ written.1)
  where
    write : Memory
    write = update s.mem timer (record (s.mem timer) {
      usr_jiffies = div_ℤ ms 10;
      init_jiffies = div_ℤ ms 10;
      pid = negsuc 0;
    })

    written : ((write timer).usr_jiffies ≡ div_ℤ ms 10) × ((write timer).init_jiffies ≡ div_ℤ ms 10)
    written = (ground arith, ground arith)

-- The timer that `sys_timer_create` makes for `ms` milliseconds, 10 or more, posts `m / (ms / 10)`
-- times in the first `m` ticks of 10 milliseconds: once in every `ms / 10` ticks.
pub created-period :
    (m ms timer fresh : ℕ) (s : TimerState)
    → 10 ≤ ms
    → (ticks m (created (pos ms) timer fresh s)).1 ≡ m / (ms / 10)
created-period m ms timer fresh s h =
    let (usr, init) = created-jiffies (pos ms) timer fresh s in
    ticks-period m (ms / 10) (created (pos ms) timer fresh s) (omega arith) usr init

nonpos_never : (m : ℕ) (j : ℤ) (t : UserTimer) → pos_part j ≡ 0 → (ticks m (at_jiffies t j)).1 ≡ 0
nonpos_never m (pos zero) t h = zero_never m t
nonpos_never m (pos (suc n)) t h = absurd (omega arith)
nonpos_never m (negsuc n) t h = negative_never m n t

div_ℤ-nonpos : (ms : ℤ) → pos_part ms < 10 → pos_part (div_ℤ ms 10) ≡ 0
unfolding ◌-ℤ◌
div_ℤ-nonpos (pos n) h = omega arith
div_ℤ-nonpos (negsuc n) h = ground arith

-- The timer made for fewer than 10 milliseconds, or for a negative number of them, never posts.
pub created-never :
    (m timer fresh : ℕ) (ms : ℤ) (s : TimerState)
    → pos_part ms < 10
    → (ticks m (created ms timer fresh s)).1 ≡ 0
created-never m timer fresh ms s h =
    let t = created ms timer fresh s in
    let (usr, init) = created-jiffies ms timer fresh s in
    ap (λ j. (ticks m (at_jiffies t j)).1) usr ∙ nonpos_never m (div_ℤ ms 10) t (div_ℤ-nonpos ms h)
