-- ===== src/Clock/Tests.antt =====
-- Dates of kernel/mktime.c, and the theorem at one.
use os_lab2_gui.Prelude.{◌^◌, ◌<◌, ◌≡◌, refl, arith}
use os_lab2_gui.Prelude.Int.{pos, negsuc, ◌+ℤ◌, ◌-ℤ◌}
use os_lab2_gui.Clock.{Tm, kernel_mktime, kernel_mktime-seconds, seconds_before}

-- the first of March 2000, at 12:30:15
abbrev march : Tm
march = record { tm_sec = 15; tm_min = 30; tm_hour = 12; tm_mday = 1; tm_mon = 2; tm_year = 0 }

march_seconds : kernel_mktime march ≡ pos 951913815
unfolding kernel_mktime ◌+ℤ◌ ◌-ℤ◌
march_seconds = refl

march_fits : seconds_before march < 2 ^ 31
march_fits = omega arith

kernel_mktime-seconds_example : kernel_mktime march ≡ pos (seconds_before march)
kernel_mktime-seconds_example = kernel_mktime-seconds march (omega arith) (omega arith) march_fits

-- the first of February 2038 does not fit in a long
abbrev too_late : Tm
too_late = record { tm_sec = 0; tm_min = 0; tm_hour = 0; tm_mday = 1; tm_mon = 1; tm_year = 38 }

wraps : kernel_mktime too_late ≡ negsuc 2146372095
unfolding kernel_mktime ◌+ℤ◌ ◌-ℤ◌
wraps = refl
