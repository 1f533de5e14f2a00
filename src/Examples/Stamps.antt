-- ===== src/Examples/Stamps.antt =====
-- The theorem on time stamps, at the last second of February 1970.
use zeromux.Prelude.{◌≡◌, refl, some}
use zeromux.EventLog.{
  is_leap, days_in_year, month_lengths, find_year, find_month, Stamp, stamp_of, stamp_from_secs,
}
use zeromux.EventLog.Calendar.{IsStamp, seconds_to, stamp_from_secs-seconds_to}

last_of_february :
    stamp_from_secs 5097599
    ≡ some record { year = 1970; month = 2; day = 28; hour = 23; minute = 59; second = 59 }
unfolding stamp_from_secs find_year days_in_year is_leap stamp_of find_month month_lengths
last_of_february = refl

stamp_from_secs-seconds_to_example :
    (s : Stamp) × (stamp_from_secs 5097599 ≡ some s) × IsStamp s × (seconds_to s ≡ 5097599)
stamp_from_secs-seconds_to_example = stamp_from_secs-seconds_to 5097599
