-- ===== src/Time/Laws.antt =====
-- The functions of ac_time.c as arithmetic, and runs of `nanosleep(2)`.
use libac.Prelude.{
  ℕ, zero, suc, ◌+◌, ◌*◌, ◌≤◌, ◌<◌, ◌≡◌, refl, Bool-cases, inl, inr, some, ltb, arith,
}
use libac.Prelude.Int.{ℤ, pos, negsuc}
use libac.Time.{
  Timespec, ns_sec, sub, tspec_diff, secs_to_hms, request, Slept, finished, failed, interrupted,
  sleep_loop, nsleep,
}

-- The nanoseconds of a time
abbrev pub total : Timespec → ℕ
total t = t.sec * ns_sec + t.nsec

-- A number of seconds and nanoseconds leads from one time to another.
abbrev pub Leads : Timespec → Timespec → ℤ × ℕ → Type 0
Leads start end (pos s, n) = total start + s * ns_sec + n ≡ total end
Leads start end (negsuc s, n) = total start + n ≡ total end + (s + 1) * ns_sec

-- `ac_time_tspec_diff` of two valid times gives seconds, which may be negative, and nanoseconds below
-- 10 ^ 9, which added to the start make the end.
pub tspec_diff-Leads :
    (start end : Timespec)
    → start.nsec < ns_sec
    → end.nsec < ns_sec
    → Leads start end (tspec_diff end start) × (let (s, n) = tspec_diff end start in n < ns_sec)
unfolding tspec_diff sub
tspec_diff-Leads start end hs he = elim (Bool-cases (ltb end.nsec start.nsec)) [
  | inl borrow ↦ elim (Bool-cases (ltb end.sec (start.sec + 1))) [
    | inl before ↦ rw (borrow, before) (ground arith, ground arith)
    | inr after ↦ rw (borrow, after) (ground arith, ground arith)
  ]
  | inr exact ↦ elim (Bool-cases (ltb end.sec start.sec)) [
    | inl before ↦ rw (exact, before) (ground arith, ground arith)
    | inr after ↦ rw (exact, after) (ground arith, ground arith)
  ]
]

-- `ac_time_secs_to_hms` gives fewer than 60 minutes and seconds, which with the hours make the total.
pub secs_to_hms_lem :
    (total : ℕ)
    → let (h, m, s) = secs_to_hms total in (m < 60) × (s < 60) × (h * 3600 + m * 60 + s ≡ total)
unfolding secs_to_hms
secs_to_hms_lem total = (omega arith, omega arith, omega arith)

-- A run of `nanosleep(2)` calls: interrupted ones, each of which names what is left to sleep, and then
-- one that ends the sleep or fails. The first is the `i`-th call, and there are `n` of them.
pub data Ends (nanosleep : ℕ → Timespec → Slept) : ℕ → Timespec → ℕ → ℤ → Type 0 where
  slept : {i : ℕ} {req : Timespec} → nanosleep i req ≡ finished → Ends nanosleep i req 1 (pos 0)
  error : {i : ℕ} {req : Timespec} → nanosleep i req ≡ failed → Ends nanosleep i req 1 (negsuc 0)
  again :
      {i n : ℕ} {req rem : Timespec} {r : ℤ}
      → nanosleep i req ≡ interrupted rem
      → Ends nanosleep (i + 1) rem n r
      → Ends nanosleep i req (n + 1) r

sleep_loop-Ends :
    (nanosleep : ℕ → Timespec → Slept) (fuel : ℕ) {i n : ℕ} {req : Timespec} {r : ℤ}
    → Ends nanosleep i req n r
    → n ≤ fuel
    → sleep_loop nanosleep fuel i req ≡ some r
unfolding sleep_loop
sleep_loop-Ends nanosleep zero (slept e) h = absurd (omega arith)
sleep_loop-Ends nanosleep zero (error e) h = absurd (omega arith)
sleep_loop-Ends nanosleep zero (again e rest) h = absurd (omega arith)
sleep_loop-Ends nanosleep (suc f) (slept e) h = rw (sleep_loop, e) refl
sleep_loop-Ends nanosleep (suc f) (error e) h = rw (sleep_loop, e) refl
sleep_loop-Ends nanosleep (suc f) (again e rest) h =
    rw (sleep_loop, e) (sleep_loop-Ends nanosleep f rest (omega arith))

-- `ac_time_nsleep` asks for all the nanoseconds, in a valid request; as long as the calls are
-- interrupted it asks for what is left, and it returns 0 when one ends the sleep and -1 when one fails.
-- Fuel for the calls is enough.
pub nsleep-Ends :
    (nanosleep : ℕ → Timespec → Slept) (fuel nsecs : ℕ) {n : ℕ} {r : ℤ}
    → Ends nanosleep 0 (request nsecs) n r
    → n ≤ fuel
    → (nsleep nanosleep fuel nsecs ≡ some r)
      × (total (request nsecs) ≡ nsecs)
      × ((request nsecs).nsec < ns_sec)
unfolding nsleep request
nsleep-Ends nanosleep fuel nsecs run enough =
    (sleep_loop-Ends nanosleep fuel run enough, ground arith, ground arith)
