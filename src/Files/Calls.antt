-- ===== src/Files/Calls.antt =====
-- fs/fcntl.c and sys_close of fs/open.c: the counts of the files over sequences of calls.
use os_lab2_gui.Prelude.{
  ℕ, ◌+◌, ◌-◌, ◌≤◌, ◌<◌, ◌≡◌, ◌≢◌, refl, ap, ◌∙◌, inl, inr, Bool-cases, Option-cases, true, false,
  Option, none, some, List, [], ◌∷◌, arith, ltb, ltb→lt, ◌==◌, if◌then◌else◌,
}
use os_lab2_gui.Prelude.Int.{ℤ, pos}
use os_lab2_gui.Prelude.Table.{update}
use os_lab2_gui.Prelude.Bits.{bit, bits_and, bits_not}
use os_lab2_gui.Files.{einval, sys_dup, sys_dup2, Files, nr_open, set_count, dupfd, sys_close}
use os_lab2_gui.Files.Counts.{
  points, uses, Balanced, uses-update, dupfd-Balanced, close_fd-Balanced,
}

-- A file in the table has a count of at least its descriptors of the task; and the other pointers to it are
-- so few that 16 bits count them with one in each of the 20 descriptors.
abbrev pub Sound : Files → Type 0
Sound s =
    (f : ℕ)
    → (uses nr_open s.filp f ≤ (s.file_table f).f_count)
      × ((s.file_table f).f_count + nr_open < 65536 + uses nr_open s.filp f)

uses-some :
    (fd f : ℕ) (filp : ℕ → Option ℕ) → fd < nr_open → filp fd ≡ some f → 1 ≤ uses nr_open filp f
uses-some fd f filp lt e =
    let one : points f (filp fd) ≡ 1 = ap (points f) e ∙ self in
    omega (arith, one, uses-update nr_open filp fd none f lt)
  where
    self : points f (some f) ≡ 1
    self = ground arith

-- a call that returns, with the counts in balance
abbrev pub Closed : Files → Option (ℤ × Option ℕ × Files) → Type 0
Closed s o =
    (code : ℤ) × (inode : Option ℕ) × (s' : Files) × (o ≡ some (code, inode, s')) × Balanced s s'

sys_close-Closed : (fd : ℕ) (s : Files) → Sound s → Closed s (sys_close fd s)
unfolding sys_close
sys_close-Closed fd s sound = elim (Bool-cases (ltb fd nr_open)) [
  | inl a ↦ elim (Option-cases (s.filp fd)) [
    | inl o ↦ (
      einval,
      none,
      record s { close_on_exec = bits_and s.close_on_exec (bits_not (bit fd)) },
      rw (a, o, sys_close) refl,
      λ g. refl,
    )
    | inr (f, o) ↦ (
      pos 0,
      (if (s.file_table f).f_count == 1 then some (s.file_table f).f_inode else none),
      closed f,
      rw (a, o, in_use f a o, sys_close) refl,
      close_fd-Balanced fd f s (closed f) (ltb→lt fd nr_open a) o (nonzero f a o) refl refl,
    )
  ]
  | inr a ↦ (einval, none, s, rw (a, sys_close) refl, λ g. refl)
]
  where
    closed : ℕ → Files
    closed f = record {
      filp = update s.filp fd none;
      close_on_exec = bits_and s.close_on_exec (bits_not (bit fd));
      file_table = set_count s.file_table f ((s.file_table f).f_count - 1);
    }

    nonzero : (f : ℕ) → ltb fd nr_open ≡ true → s.filp fd ≡ some f → (s.file_table f).f_count ≢ 0
    nonzero f a o = omega (arith, uses-some fd f s.filp (ltb→lt fd nr_open a) o, (sound f).0)

    in_use :
        (f : ℕ)
        → ltb fd nr_open ≡ true
        → s.filp fd ≡ some f
        → ((s.file_table f).f_count == 0) ≡ false
    in_use f a o = ground (arith, nonzero f a o)

Balanced-Sound : (s s' : Files) → Balanced s s' → Sound s → Sound s'
Balanced-Sound s s' b sound f = (omega (arith, b f, (sound f).0), omega (arith, b f, (sound f).1))

Balanced-trans : (s s1 s2 : Files) → Balanced s s1 → Balanced s1 s2 → Balanced s s2
Balanced-trans s s1 s2 b b' f = omega (arith, b f, b' f)

pub data FdCall : Type 0 where
  dup : ℕ → FdCall
  dup2 : ℕ → ℕ → FdCall
  fcntl_dup : ℕ → ℕ → FdCall
  close : ℕ → FdCall

abbrev pub files_of : Option (ℤ × Option ℕ × Files) → Option Files
files_of none = none
files_of (some (code, inode, s)) = some s

abbrev pub call : FdCall → Files → Option Files
call (dup fd) s = some (sys_dup fd s).1
call (dup2 oldfd newfd) s = files_of (sys_dup2 oldfd newfd s)
call (fcntl_dup fd arg) s = some (dupfd fd arg s).1
call (close fd) s = files_of (sys_close fd s)

unfoldable pub calls : List FdCall → Files → Option Files
calls [] s = some s
calls (c ∷ cs) s = elim (call c s) [ none ↦ none | some s' ↦ calls cs s' ]

call-Balanced :
    (c : FdCall) (s : Files) → Sound s → (s' : Files) × (call c s ≡ some s') × Balanced s s'
unfolding sys_dup2
call-Balanced (dup fd) s sound = ((dupfd fd 0 s).1, refl, dupfd-Balanced fd 0 s (λ f. (sound f).1))
call-Balanced (fcntl_dup fd arg) s sound =
    ((dupfd fd arg s).1, refl, dupfd-Balanced fd arg s (λ f. (sound f).1))
call-Balanced (close fd) s sound =
    let (code, inode, s', e, b) = sys_close-Closed fd s sound in (s', rw e refl, b)
call-Balanced (dup2 oldfd newfd) s sound =
    let (code, inode, s1, e, b) = sys_close-Closed newfd s sound in
    (
      (dupfd oldfd newfd s1).1,
      rw (e, sys_dup2) refl,
      Balanced-trans s s1 (dupfd oldfd newfd s1).1 b
          (dupfd-Balanced oldfd newfd s1 (λ f. (Balanced-Sound s s1 b sound f).1)),
    )

-- If no file has a smaller count than descriptors of the task, and its other pointers with 20 more fit in
-- 16 bits, no sequence of calls of dup, dup2, the
-- duplication by fcntl, and close panics; it stays so, and the count of each file changes by as much as its
-- descriptors.
pub calls-Balanced :
    (cs : List FdCall) (s : Files)
    → Sound s
    → (s' : Files) × (calls cs s ≡ some s') × Sound s' × Balanced s s'
unfolding calls
calls-Balanced [] s sound = (s, refl, sound, λ g. refl)
calls-Balanced (c ∷ cs) s sound =
    let (s1, e, b) = call-Balanced c s sound in
    let (s2, run, sound', b') = calls-Balanced cs s1 (Balanced-Sound s s1 b sound) in
    (s2, rw (e, calls) run, sound', Balanced-trans s s1 s2 b b')
