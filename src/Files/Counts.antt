-- ===== src/Files/Counts.antt =====
-- fs/fcntl.c and sys_close of fs/open.c: the counts of the files and the descriptors.
use os_lab2_gui.Prelude.{
  ℕ, zero, suc, ◌+◌, ◌%◌, ◌-◌, ◌≤◌, ◌<◌, ◌≡◌, ◌≢◌, refl, sym, ap, ◌∙◌, inl, inr, Bool-cases,
  Option-cases, ==_iff, Option, none, some, some-eq, arith, ltb, ltb→lt, ◌==◌, if◌then◌else◌,
}
use os_lab2_gui.Prelude.Table.{update, update_ne}
use os_lab2_gui.Files.{Files, File, nr_open, free_fd, set_count, share_fd, dupfd}

-- 1 for a descriptor of the file `f`
abbrev pub points : ℕ → Option ℕ → ℕ
points f none = 0
points f (some g) = if g == f then 1 else 0

-- how many of the first `n` descriptors are of the file `f`
unfoldable pub uses : ℕ → (ℕ → Option ℕ) → ℕ → ℕ
uses zero filp f = 0
uses (suc n) filp f = points f (filp n) + uses n filp f

uses-outside :
    (n : ℕ) (filp : ℕ → Option ℕ) (i : ℕ) (v : Option ℕ) (f : ℕ)
    → n ≤ i
    → uses n (update filp i v) f ≡ uses n filp f
unfolding uses
uses-outside zero filp i v f le = refl
uses-outside (suc n) filp i v f le =
    ap (λ o. points f o + uses n (update filp i v) f) (update_ne filp i v n (omega arith))
    ∙ ap (λ k. points f (filp n) + k) (uses-outside n filp i v f (omega arith))

pub uses-update :
    (n : ℕ) (filp : ℕ → Option ℕ) (i : ℕ) (v : Option ℕ) (f : ℕ)
    → i < n
    → uses n (update filp i v) f + points f (filp i) ≡ uses n filp f + points f v
unfolding uses
uses-update zero filp i v f lt = absurd (omega arith)
uses-update (suc n) filp i v f lt = elim (Bool-cases (i == n)) [
  | inl e ↦
      let q : i ≡ n = (==_iff i n).0 e in
      let old : points f (filp i) ≡ points f (filp n) = ap (λ k. points f (filp k)) q in
      let new : points f (update filp i v n) ≡ points f v = ap (points f) (rw e refl) in
      omega (arith, old, new, uses-outside n filp i v f (omega (arith, q)))
  | inr e ↦
      let same : points f (update filp i v n) ≡ points f (filp n) = ap (points f) (rw e refl) in
      omega (arith, same, uses-update n filp i v f (ground arith))
]

some_ne : {f : ℕ} → some f ≢ none
some_ne e = cc

-- The count of each file and the descriptors of the task that are of it change by the same number.
abbrev pub Balanced : Files → Files → Type 0
Balanced s s' =
    (f : ℕ)
    → (s'.file_table f).f_count + uses nr_open s.filp f
      ≡ (s.file_table f).f_count + uses nr_open s'.filp f

free_fd-some :
    (n arg : ℕ) (filp : ℕ → Option ℕ) (q : ℕ)
    → free_fd n arg filp ≡ some q
    → (q < arg + n) × (filp q ≡ none)
unfolding free_fd
free_fd-some zero arg filp q e = absurd (cc)
free_fd-some (suc n) arg filp q e = elim (Option-cases (filp arg)) [
  | inl o ↦
      let same : arg ≡ q = some-eq (rw o at e) in (omega (arith, same), ap filp (sym same) ∙ o)
  | inr (f, o) ↦
      let (lt, free) = free_fd-some n (arg + 1) filp q (rw o at e) in (omega (arith, lt), free)
]

uses_bound : (n : ℕ) (filp : ℕ → Option ℕ) (f : ℕ) → uses n filp f ≤ n
unfolding uses
uses_bound zero filp f = omega arith
uses_bound (suc n) filp f = omega (arith, at_most (filp n), uses_bound n filp f)
  where
    at_most : (o : Option ℕ) → points f o ≤ 1
    at_most none = omega arith
    at_most (some g) = ground arith

-- What others count of a file, and a pointer to it in each descriptor of the task, fit in 16 bits.
abbrev pub Room : Files → Type 0
Room s = (f : ℕ) → (s.file_table f).f_count + nr_open < 65536 + uses nr_open s.filp f

set_count-up :
    (table : ℕ → File) (f g : ℕ)
    → (table f).f_count + 1 < 65536
    → (set_count table f (((table f).f_count + 1) % 65536) g).f_count
      ≡ (table g).f_count + points g (some f)
set_count-up table f g small = elim (Bool-cases (f == g)) [
  | inl e ↦ rw e (below ∙ ap (λ h. (table h).f_count + 1) ((==_iff f g).0 e))
  | inr e ↦ rw e (omega arith)
]
  where
    below : ((table f).f_count + 1) % 65536 ≡ (table f).f_count + 1
    below = omega arith

set_count-down :
    (table : ℕ → File) (f g : ℕ)
    → (table f).f_count ≢ 0
    → (set_count table f ((table f).f_count - 1) g).f_count + points g (some f) ≡ (table g).f_count
set_count-down table f g ne = elim (Bool-cases (f == g)) [
  | inl e ↦ rw e (back ∙ ap (λ h. (table h).f_count) ((==_iff f g).0 e))
  | inr e ↦ rw e (omega arith)
]
  where
    back : (table f).f_count - 1 + 1 ≡ (table f).f_count
    back = omega arith

share_fd-Balanced :
    (f n : ℕ) (s : Files) → Room s → n < nr_open → s.filp n ≡ none → Balanced s (share_fd f n s)
unfolding share_fd
share_fd-Balanced f n s room lt free g =
    let nothing : points g (s.filp n) ≡ 0 = ap (points g) free in
    omega (
      arith,
      nothing,
      set_count-up s.file_table f g small,
      uses-update nr_open s.filp n (some f) g lt,
    )
  where
    one : points f (some f) ≡ 1
    one = ground arith

    small : (s.file_table f).f_count + 1 < 65536
    small =
        let empty : points f (s.filp n) ≡ 0 = ap (points f) free in
        omega (
          arith,
          one,
          empty,
          room f,
          uses_bound nr_open (update s.filp n (some f)) f,
          uses-update nr_open s.filp n (some f) f lt,
        )

pub dupfd-Balanced : (fd arg : ℕ) (s : Files) → Room s → Balanced s (dupfd fd arg s).1
unfolding dupfd
dupfd-Balanced fd arg s room = elim (Bool-cases (ltb fd nr_open)) [
  | inl a ↦ elim (Option-cases (s.filp fd)) [
    | inl o ↦ rw (a, o, dupfd) (λ g. refl)
    | inr (f, o) ↦ elim (Bool-cases (ltb arg nr_open)) [
      | inl b ↦ elim (Option-cases (free_fd (nr_open - arg) arg s.filp)) [
        | inl e ↦ rw (a, o, b, e, dupfd) (λ g. refl)
        | inr (n, e) ↦
            let (lt, free) = free_fd-some (nr_open - arg) arg s.filp n e in
            rw (a, o, b, e, dupfd)
              (share_fd-Balanced f n s room (omega (arith, ltb→lt arg nr_open b, lt)) free)
      ]
      | inr b ↦ rw (a, o, b, dupfd) (λ g. refl)
    ]
  ]
  | inr a ↦ rw (a, dupfd) (λ g. refl)
]

pub close_fd-Balanced :
    (fd f : ℕ) (s s' : Files)
    → fd < nr_open
    → s.filp fd ≡ some f
    → (s.file_table f).f_count ≢ 0
    → s'.filp ≡ update s.filp fd none
    → s'.file_table ≡ set_count s.file_table f ((s.file_table f).f_count - 1)
    → Balanced s s'
close_fd-Balanced fd f s s' lt open_fd ne filp table g =
    let one : points g (s.filp fd) ≡ points g (some f) = ap (points g) open_fd in
    let counted : (s'.file_table g).f_count + points g (some f) ≡ (s.file_table g).f_count =
      ap (λ t. (t g).f_count + points g (some f)) table ∙ set_count-down s.file_table f g ne in
    let used : uses nr_open s'.filp g + points g (s.filp fd) ≡ uses nr_open s.filp g + 0 =
      ap (λ p. uses nr_open p g + points g (s.filp fd)) filp
      ∙ uses-update nr_open s.filp fd none g lt in
    omega (arith, one, counted, used)
