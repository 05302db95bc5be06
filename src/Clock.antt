-- ===== src/Clock.antt =====
-- kernel/mktime.c: the seconds from 1970 to a date, against a count of years and months.
mod Tests
use os_lab2_gui.Prelude.{
  ℕ, zero, suc, ◌+◌, ◌-◌, ◌*◌, ◌/◌, ◌%◌, ◌^◌, ◌≤◌, ◌<◌, ◌≡◌, refl, sym, ap, ◌∙◌, inl, inr,
  Bool-cases, Bool, true, false, not, ◌&&◌, List, [], ◌∷◌, get_or, ltb, arith, ◌==◌, if◌then◌else◌,
}
use os_lab2_gui.Prelude.Int.{ℤ, pos, negsuc, ◌+ℤ◌, ◌-ℤ◌, int_laws}

abbrev pub minute : ℕ
minute = 60

abbrev pub hour : ℕ
hour = 60 * 60

abbrev pub day : ℕ
day = 24 * (60 * 60)

abbrev pub year : ℕ
year = 365 * (24 * (60 * 60))

-- the table `month`
abbrev pub month : ℕ → ℕ
month m =
    get_or
      (0
        ∷ day * 31
        ∷ day * (31 + 29)
        ∷ day * (31 + 29 + 31)
        ∷ day * (31 + 29 + 31 + 30)
        ∷ day * (31 + 29 + 31 + 30 + 31)
        ∷ day * (31 + 29 + 31 + 30 + 31 + 30)
        ∷ day * (31 + 29 + 31 + 30 + 31 + 30 + 31)
        ∷ day * (31 + 29 + 31 + 30 + 31 + 30 + 31 + 31)
        ∷ day * (31 + 29 + 31 + 30 + 31 + 30 + 31 + 31 + 30)
        ∷ day * (31 + 29 + 31 + 30 + 31 + 30 + 31 + 31 + 30 + 31)
        ∷ day * (31 + 29 + 31 + 30 + 31 + 30 + 31 + 31 + 30 + 31 + 30)
        ∷ [])
      m 0

-- `struct tm`
pub record Tm : Type 0 where
  pub tm_sec : ℕ
  pub tm_min : ℕ
  pub tm_hour : ℕ
  pub tm_mday : ℕ
  pub tm_mon : ℕ
  pub tm_year : ℕ

-- `year`, after the years below 70 have been taken for those of the next century
abbrev pub years_since : Tm → ℕ
years_since tm = (if ltb tm.tm_year 70 then tm.tm_year + 100 else tm.tm_year) - 70

-- what a `long` of 32 bits holds, from the lowest 32 bits
abbrev pub signed_32 : ℕ → ℤ
signed_32 n = if ltb n (2 ^ 31) then pos n else pos n -ℤ pos (2 ^ 32)

abbrev pub to_long : ℤ → ℤ
to_long (pos n) = signed_32 (n % 2 ^ 32)
to_long (negsuc n) = signed_32 (2 ^ 32 - 1 - n % 2 ^ 32)

-- `kernel_mktime(tm)`; `tm_mon` is below 12. The sums wrap to 32 bits, which is done once at the end.
unfoldable pub kernel_mktime : Tm → ℤ
kernel_mktime tm =
    let y : ℕ = years_since tm in
    let res : ℤ = pos (year * y + day * ((y + 1) / 4)) +ℤ pos (month tm.tm_mon) in
    let adjusted : ℤ = if ltb 1 tm.tm_mon && not ((y + 2) % 4 == 0) then res -ℤ pos day else res in
    to_long (
      adjusted
      +ℤ (pos (day * tm.tm_mday) -ℤ pos day)
      +ℤ pos (hour * tm.tm_hour)
      +ℤ pos (minute * tm.tm_min)
      +ℤ pos tm.tm_sec)

-- whether the year 1970 + y has 366 days, up to 2099
abbrev pub is_leap : ℕ → Bool
is_leap y = (1970 + y) % 4 == 0

-- the days of the years before it
abbrev pub days_before_year : ℕ → ℕ
days_before_year zero = 0
days_before_year (suc y) = days_before_year y + (if is_leap y then 366 else 365)

abbrev pub month_length : Bool → ℕ → ℕ
month_length leap m =
    get_or (31 ∷ (if leap then 29 else 28) ∷ 31 ∷ 30 ∷ 31 ∷ 30 ∷ 31 ∷ 31 ∷ 30 ∷ 31 ∷ 30 ∷ 31 ∷ []) m
      0

-- the days of the months before a month
abbrev pub days_before_month : Bool → ℕ → ℕ
days_before_month leap zero = 0
days_before_month leap (suc m) = days_before_month leap m + month_length leap m

leap_lem : (y : ℕ) → is_leap y ≡ ((y + 2) % 4 == 0)
leap_lem y = ground arith

days_before_year_lem : (y : ℕ) → days_before_year y ≡ 365 * y + (y + 1) / 4
days_before_year_lem zero = refl
days_before_year_lem (suc y) = ground (arith, days_before_year_lem y)

-- the months one by one
month_lem :
    (leap : Bool) (m : ℕ)
    → m < 12
    → month m ≡ day * days_before_month leap m + (if ltb 1 m && not leap then day else 0)
month_lem leap m lt = ground arith

-- the seconds before a date: of the days before it, if every fourth year has 366 days, and of the time of day
abbrev pub seconds_before : Tm → ℕ
seconds_before tm =
    let y : ℕ = years_since tm in
    let days : ℕ =
      days_before_year y + days_before_month (is_leap y) tm.tm_mon + (tm.tm_mday - 1) in
    day * days + hour * tm.tm_hour + minute * tm.tm_min + tm.tm_sec

to_long-small : (n : ℕ) → n < 2 ^ 31 → to_long (pos n) ≡ pos n
to_long-small n lt =
    let low : n % 2 ^ 32 ≡ n = omega arith in
    let below : ltb n (2 ^ 31) ≡ true = ground arith in rw (low, below) refl

-- For a month of the year, a day from 1 on, and a date before 2^31 seconds have gone since 1970, in January
-- 2038, kernel_mktime is the seconds of the days before the date, if every fourth year has 366 days, and of the
-- time of day.
pub kernel_mktime-seconds :
    (tm : Tm)
    → tm.tm_mon < 12
    → 1 ≤ tm.tm_mday
    → seconds_before tm < 2 ^ 31
    → kernel_mktime tm ≡ pos (seconds_before tm)
unfolding kernel_mktime
kernel_mktime-seconds tm mon mday fits =
    ap to_long (
      total (years_since tm) (days_before_year (years_since tm))
        (days_before_month (is_leap (years_since tm)) tm.tm_mon) (month tm.tm_mon)
        (days_before_year_lem (years_since tm))
        (month_lem (is_leap (years_since tm)) tm.tm_mon mon))
    ∙ to_long-small (seconds_before tm) fits
  where
    total :
        (y b d m : ℕ)
        → b ≡ 365 * y + (y + 1) / 4
        → m ≡ day * d + (if ltb 1 tm.tm_mon && not (is_leap y) then day else 0)
        → (let res : ℤ = pos (year * y + day * ((y + 1) / 4)) +ℤ pos m in
            (if ltb 1 tm.tm_mon && not ((y + 2) % 4 == 0) then res -ℤ pos day else res)
            +ℤ (pos (day * tm.tm_mday) -ℤ pos day)
            +ℤ pos (hour * tm.tm_hour)
            +ℤ pos (minute * tm.tm_min)
            +ℤ pos tm.tm_sec)
          ≡ pos (
              day * (b + d + (tm.tm_mday - 1)) + hour * tm.tm_hour + minute * tm.tm_min + tm.tm_sec)
    total y b d m eb em = elim (Bool-cases (ltb 1 tm.tm_mon && not ((y + 2) % 4 == 0))) [
      | inl c ↦
          let more : m ≡ day * d + day =
            em
            ∙ ap (λ l. day * d + (if ltb 1 tm.tm_mon && not l then day else 0)) (leap_lem y)
            ∙ rw c refl in
          rw c (omega (int_laws, more, eb))
      | inr c ↦
          let same : m ≡ day * d + 0 =
            em
            ∙ ap (λ l. day * d + (if ltb 1 tm.tm_mon && not l then day else 0)) (leap_lem y)
            ∙ rw c refl in
          rw c (omega (int_laws, same, eb))
    ]
