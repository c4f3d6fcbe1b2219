-- ===== src/Time/Tests.antt =====
-- Runs of the time functions.
use libac.Prelude.{ℕ, ◌<◌, ◌≡◌, refl, some, arith, ◌==◌, if◌then◌else◌}
use libac.Prelude.Int.{pos}
use libac.Time.{Timespec, ns_sec, request, Slept, finished, interrupted, nsleep}
use libac.Time.Laws.{total, Ends, slept, again, nsleep-Ends}

abbrev early : Timespec
early = record { sec = 5; nsec = 900 }

abbrev late : Timespec
late = record { sec = 7; nsec = 100 }

-- The first call is interrupted, the second is not.
abbrev signal : ℕ → Timespec → Slept
signal i req = if i == 0 then interrupted late else finished

signal-Ends : Ends signal 0 (request 500) 2 (pos 0)
signal-Ends = again {n = 1} refl (slept refl)

nsleep-Ends_example :
    (nsleep signal 2 500 ≡ some (pos 0))
    × (total (request 500) ≡ 500)
    × ((request 500).nsec < ns_sec)
nsleep-Ends_example = nsleep-Ends signal 2 500 signal-Ends (omega arith)
