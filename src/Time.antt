-- ===== src/Time.antt =====
-- src/ac_time.c: differences of times, hours and minutes, sleeping.
--
-- Seconds are `long`, here integers; nanoseconds are not negative. The sum as a `double` that
-- `ac_time_tspec_diff` returns is not modelled. `nanosleep(2)` is an argument.
pub mod Laws
mod Tests
use libac.Prelude.{
  ℕ, zero, suc, ◌+◌, ◌-◌, ◌*◌, ◌/◌, ◌%◌, Bool, true, false, Option, none, some, ltb, if◌then◌else◌,
}
use libac.Prelude.Int.{ℤ, pos, negsuc}

-- `AC_TIME_NS_SEC`
abbrev pub ns_sec : ℕ
ns_sec = 1000000000

-- `struct timespec`, with the seconds since a time that is early enough for them not to be negative
pub record Timespec : Type 0 where
  pub sec : ℕ
  pub nsec : ℕ

-- The difference of two numbers of seconds
unfoldable pub sub : ℕ → ℕ → ℤ
sub a b = if ltb a b then negsuc (b - a - 1) else pos (a - b)

-- `ac_time_tspec_diff`, as the seconds and nanoseconds of `delta`
unfoldable pub tspec_diff : Timespec → Timespec → ℤ × ℕ
unfolding sub
tspec_diff end start =
    if ltb end.nsec start.nsec
    then (sub end.sec (start.sec + 1), ns_sec - (start.nsec - end.nsec))
    else (sub end.sec start.sec, end.nsec - start.nsec)

-- `ac_time_secs_to_hms`, of a total that is not negative and below 2 ^ 31 hours, which `int` holds:
-- hours, minutes and seconds
unfoldable pub secs_to_hms : ℕ → ℕ × ℕ × ℕ
secs_to_hms total =
    let seconds = total % 60 in let total' = total / 60 in (total' / 60, total' % 60, seconds)

-- What a call of `nanosleep(2)` does: it sleeps to the end, is interrupted with so much left, or fails.
pub data Slept : Type 0 where
  finished failed : Slept
  interrupted : Timespec → Slept

-- The request that `ac_time_nsleep` makes
unfoldable pub request : ℕ → Timespec
request nsecs =
    if ltb nsecs ns_sec
    then record { sec = 0; nsec = nsecs }
    else record { sec = nsecs / ns_sec; nsec = nsecs % ns_sec }

-- The loop at `do_sleep`; the `i`-th call is `nanosleep i`. `none` if it is not over by then.
unfoldable pub sleep_loop : (ℕ → Timespec → Slept) → ℕ → ℕ → Timespec → Option ℤ
sleep_loop nanosleep zero i req = none
sleep_loop nanosleep (suc f) i req = elim (nanosleep i req) [
  | finished ↦ some (pos 0)
  | failed ↦ some (negsuc 0)
  | interrupted rem ↦ sleep_loop nanosleep f (i + 1) rem
]

-- `ac_time_nsleep`
unfoldable pub nsleep : (ℕ → Timespec → Slept) → ℕ → ℕ → Option ℤ
unfolding sleep_loop request
nsleep nanosleep fuel nsecs = sleep_loop nanosleep fuel 0 (request nsecs)
