-- ===== src/Ids/Users.antt =====
-- The user ids of kernel/sys.c: what a task without rights can become.
use mathlib.Core.Path.{subst}
use os_lab2_gui.Prelude.{
  ℕ, ◌<◌, ◌≡◌, ◌≢◌, ◌∙◌, ◌⊎◌, inl, inr, Bool, Bool-cases, Option-cases, none, some, some-eq, true,
  false, List, [], ◌∷◌, ◌||◌, arith,
}
use os_lab2_gui.Prelude.Int.{ℤ, pos, negsuc, ltb_ℤ}
use os_lab2_gui.Task.{Task}
use os_lab2_gui.Ids.{
  to_short, is_id, suser, set_real_uid, set_effective_uid, sys_setreuid, sys_setuid,
}

-- one of three ids
abbrev pub OneOf : ℕ → ℕ → ℕ → ℕ → Type 0
OneOf a b c id = (id ≡ a) ⊎ (id ≡ b) ⊎ (id ≡ c)

-- the ids of a task are among `a`, `b` and `c`
abbrev pub Within : ℕ → ℕ → ℕ → Task → Type 0
Within a b c t = OneOf a b c t.uid × OneOf a b c t.euid × OneOf a b c t.suid

-- a system call that changes them
pub data UidCall : Type 0 where
  setuid : ℤ → UidCall
  setreuid : ℤ → ℤ → UidCall

unfoldable pub call : UidCall → Task → Task
call (setuid uid) t = (sys_setuid uid t).1
call (setreuid ruid euid) t = (sys_setreuid ruid euid t).1

unfoldable pub calls : List UidCall → Task → Task
calls [] t = t
calls (c ∷ cs) t = calls cs (call c t)

is_id-short : (id : ℕ) (n : ℤ) → id < 65536 → is_id id n ≡ true → to_short n ≡ id
is_id-short id (pos n) lt h = ground arith
is_id-short id (negsuc n) lt h = absurd (ground arith)

none_ne : {t : Task} → none ≢ some t
none_ne e = cc

no_suser : (p q : Bool) → q ≡ false → (p || q) ≡ true → p ≡ true
no_suser p q e h = ground arith

second : (p q : Bool) → p ≡ false → (p || q) ≡ true → q ≡ true
second p q e h = ground arith

module _ (a b c : ℕ) (short_a : a < 65536) (short_b : b < 65536) (short_c : c < 65536)
    (no_root : (a ≢ 0) × (b ≢ 0) × (c ≢ 0)) where
  -- an id that compares equal to one of the three is stored as it
  same-OneOf : (id : ℕ) (n : ℤ) → OneOf a b c id → is_id id n ≡ true → OneOf a b c (to_short n)
  same-OneOf id n (inl e) h = inl (is_id-short id n (omega arith) h ∙ e)
  same-OneOf id n (inr (inl e)) h = inr (inl (is_id-short id n (omega arith) h ∙ e))
  same-OneOf id n (inr (inr e)) h = inr (inr (is_id-short id n (omega arith) h ∙ e))

  either-OneOf :
      (id id' : ℕ) (n : ℤ)
      → OneOf a b c id
      → OneOf a b c id'
      → (is_id id n || is_id id' n) ≡ true
      → OneOf a b c (to_short n)
  either-OneOf id id' n o o' h = elim (Bool-cases (is_id id n)) [
    | inl e ↦ same-OneOf id n o e
    | inr e ↦ same-OneOf id' n o' (second (is_id id n) (is_id id' n) e h)
  ]

  not_suser : (t : Task) → Within a b c t → suser t ≡ false
  not_suser t (u, inl e, v) = ground arith
  not_suser t (u, inr (inl e), v) = ground arith
  not_suser t (u, inr (inr e), v) = ground arith

  setuid-Within : (uid : ℤ) (t : Task) → Within a b c t → Within a b c (sys_setuid uid t).1
  unfolding sys_setuid
  setuid-Within uid t (u, e, v) = elim (Bool-cases (is_id t.uid uid || is_id t.suid uid)) [
    | inl h ↦ rw (not_suser t (u, e, v), h) (u, either-OneOf t.uid t.suid uid u v h, v)
    | inr h ↦ rw (not_suser t (u, e, v), h) (u, e, v)
  ]

  real-Within :
      (ruid : ℤ) (t t' : Task) → Within a b c t → set_real_uid ruid t ≡ some t' → Within a b c t'
  unfolding set_real_uid
  real-Within ruid t t' w at = elim (Bool-cases (ltb_ℤ (pos 0) ruid)) [
    | inl p ↦ elim (Bool-cases (is_id t.euid ruid || is_id t.uid ruid || suser t)) [
      | inl h ↦ subst (Within a b c) (some-eq (rw (p, h) at at)) (
        either-OneOf t.euid t.uid ruid w.1 w.0
            (no_suser (is_id t.euid ruid || is_id t.uid ruid) (suser t) (not_suser t w) h),
        w.1,
        w.2,
      )
      | inr h ↦ absurd (none_ne (rw (p, h) at at))
    ]
    | inr p ↦ subst (Within a b c) (some-eq (rw p at at)) w
  ]

  effective-Within :
      (old : ℕ) (euid : ℤ) (t : Task)
      → OneOf a b c old
      → Within a b c t
      → Within a b c (set_effective_uid old euid t).1
  unfolding set_effective_uid
  effective-Within old euid t o w = elim (Bool-cases (ltb_ℤ (pos 0) euid)) [
    | inl p ↦ elim (Bool-cases (is_id old euid || is_id t.euid euid || suser t)) [
      | inl h ↦
          let got : OneOf a b c (to_short euid) =
            either-OneOf old t.euid euid o w.1
              (no_suser (is_id old euid || is_id t.euid euid) (suser t) (not_suser t w) h) in
          rw (p, h) (w.0, got, got)
      | inr h ↦ rw (p, h) (o, w.1, w.2)
    ]
    | inr p ↦ rw p w
  ]

  setreuid-Within :
      (ruid euid : ℤ) (t : Task) → Within a b c t → Within a b c (sys_setreuid ruid euid t).1
  unfolding sys_setreuid
  setreuid-Within ruid euid t w = elim (Option-cases (set_real_uid ruid t)) [
    | inl e ↦ rw (e, sys_setreuid) w
    | inr (t', e) ↦
        rw (e, sys_setreuid) (effective-Within t.uid euid t' w.0 (real-Within ruid t t' w e))
  ]

  call-Within : (u : UidCall) (t : Task) → Within a b c t → Within a b c (call u t)
  unfolding call
  call-Within (setuid uid) t w = setuid-Within uid t w
  call-Within (setreuid ruid euid) t w = setreuid-Within ruid euid t w

  -- Whatever setuid and setreuid are called with, a task whose three user ids are not 0 only ever has user
  -- ids that are one of these three; it does not become the superuser.
  pub calls-Within : (us : List UidCall) (t : Task) → Within a b c t → Within a b c (calls us t)
  unfolding calls
  calls-Within [] t w = w
  calls-Within (u ∷ us) t w = calls-Within us (call u t) (call-Within u t w)
