-- ===== src/EventLog.antt =====
-- The time stamps of src/events.rs: `is_leap`, and `iso_from_secs` up to the numbers that it prints, in
-- `stamp_from_secs`. The days of a u64 of seconds fit an i64 and none of the subtractions of the loops
-- passes zero, so the years and the days left are natural numbers.
pub mod Calendar
use zeromux.Prelude.{
  ℕ, zero, suc, ◌+◌, ◌-◌, ◌/◌, ◌%◌, Bool, not, ◌&&◌, ◌||◌, Option, none, some, List, [], ◌∷◌, ltb,
  ◌==◌, if◌then◌else◌,
}

unfoldable pub is_leap : ℕ → Bool
is_leap y = y % 4 == 0 && not (y % 100 == 0) || y % 400 == 0

unfoldable pub days_in_year : ℕ → ℕ
days_in_year y = if is_leap y then 366 else 365

unfoldable pub month_lengths : ℕ → List ℕ
month_lengths y =
    if is_leap y
    then 31 ∷ 29 ∷ 31 ∷ 30 ∷ 31 ∷ 30 ∷ 31 ∷ 31 ∷ 30 ∷ 31 ∷ 30 ∷ 31 ∷ []
    else 31 ∷ 28 ∷ 31 ∷ 30 ∷ 31 ∷ 30 ∷ 31 ∷ 31 ∷ 30 ∷ 31 ∷ 30 ∷ 31 ∷ []

-- The loop over the years, on fuel.
unfoldable pub find_year : ℕ → ℕ → ℕ → Option (ℕ × ℕ)
find_year zero y remaining = none
find_year (suc fuel) y remaining =
    let later = find_year fuel (y + 1) (remaining - days_in_year y) in
    if ltb remaining (days_in_year y) then some (y, remaining) else later

-- The loop over the months.
unfoldable pub find_month : List ℕ → ℕ → ℕ → ℕ × ℕ
find_month [] mo remaining = (mo, remaining)
find_month (md ∷ months) mo remaining =
    let later = find_month months (mo + 1) (remaining - md) in
    if ltb remaining md then (mo, remaining) else later

pub record Stamp : Type 0 where
  pub year : ℕ
  pub month : ℕ
  pub day : ℕ
  pub hour : ℕ
  pub minute : ℕ
  pub second : ℕ

unfoldable pub stamp_of : ℕ → ℕ × ℕ → Stamp
stamp_of time_secs (y, remaining) =
    let found = find_month (month_lengths y) 1 remaining in
    record {
      year = y;
      month = found.0;
      day = found.1 + 1;
      hour = time_secs / 3600;
      minute = time_secs % 3600 / 60;
      second = time_secs % 60;
    }

-- Each turn of the loop takes 365 days at least, so the number of days is fuel enough.
unfoldable pub stamp_from_secs : ℕ → Option Stamp
stamp_from_secs secs = elim (find_year (suc (secs / 86400)) 1970 (secs / 86400)) [
  | none ↦ none
  | some found ↦ some (stamp_of (secs % 86400) found)
]
