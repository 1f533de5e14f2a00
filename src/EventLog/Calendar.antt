-- ===== src/EventLog/Calendar.antt =====
-- The calendar that the stamps follow: the numbers of the days of the Gregorian calendar.
use zeromux.Prelude.{
  ℕ, zero, suc, ◌+◌, ◌-◌, ◌*◌, ◌/◌, ◌%◌, ◌≤◌, ◌<◌, ◌≡◌, refl, ◌∙◌, some, List, [], ◌∷◌, ltb, ltb→lt,
  arith, Bool-cases, inl, inr, length,
}
use zeromux.EventLog.{
  is_leap, days_in_year, month_lengths, find_year, find_month, Stamp, stamp_of, stamp_from_secs,
}

-- The days before the year `y` of the Gregorian calendar, counted from the year 1 and less 365 days for each.
day_number : ℕ → ℕ
day_number y = 365 * y + ((y - 1) / 4 + (y - 1) / 400 - (y - 1) / 100)

days_before : List ℕ → ℕ → ℕ
days_before [] k = 0
days_before (m ∷ ms) zero = 0
days_before (m ∷ ms) (suc k) = m + days_before ms k

length_at : List ℕ → ℕ → ℕ
length_at [] k = 0
length_at (m ∷ ms) zero = m
length_at (m ∷ ms) (suc k) = length_at ms k

day_number-next : (y : ℕ) → 1 ≤ y → day_number y + days_in_year y ≡ day_number (y + 1)
unfolding day_number days_in_year is_leap
day_number-next y h = ground arith

days_in_year_ge : (y : ℕ) → 365 ≤ days_in_year y
unfolding days_in_year
days_in_year_ge y = ground arith

-- With a turn for each day, the loop over the years finds the year of a day.
find_year-finds :
    (fuel y remaining : ℕ)
    → 1 ≤ y
    → remaining < fuel
    → (year : ℕ) × (rest : ℕ) × (find_year fuel y remaining ≡ some (year, rest))
      × (y ≤ year)
      × (rest < days_in_year year)
      × (day_number year + rest ≡ day_number y + remaining)
unfolding find_year
find_year-finds zero y remaining h enough = absurd (omega arith)
find_year-finds (suc fuel) y remaining h enough =
    elim (Bool-cases (ltb remaining (days_in_year y))) [
      | inl here ↦
          (y, remaining, rw here, omega arith, ltb→lt remaining (days_in_year y) here, refl)
      | inr later ↦
          let long = days_in_year_ge y in
          let left : days_in_year y ≤ remaining = ground arith in
          let v =
            find_year-finds fuel (y + 1) (remaining - days_in_year y) (omega arith) (omega arith) in
          (
            v.0,
            v.1,
            rw (later, v.2),
            omega (arith, v.3),
            v.4,
            omega (arith, v.5, day_number-next y h),
          )
    ]

-- The loop over the months finds the month of a day of the year.
find_month-finds :
    (months : List ℕ) (mo remaining : ℕ)
    → remaining < days_before months (length months)
    → (k : ℕ) × (rest : ℕ) × (find_month months mo remaining ≡ (mo + k, rest))
      × (k < length months)
      × (rest < length_at months k)
      × (days_before months k + rest ≡ remaining)
unfolding find_month days_before length_at
find_month-finds [] mo remaining h = absurd (omega arith)
find_month-finds (m ∷ ms) mo remaining h = elim (Bool-cases (ltb remaining m)) [
  | inl here ↦
      let first : mo + 0 ≡ mo = omega arith in
      (0, remaining, rw (here, first), omega arith, ltb→lt remaining m here, omega arith)
  | inr later ↦
      let left : m ≤ remaining = ground arith in
      let v = find_month-finds ms (mo + 1) (remaining - m) (omega arith) in
      let next : mo + suc v.0 ≡ mo + 1 + v.0 = omega arith in
      (suc v.0, v.1, rw (later, v.2, next), omega (arith, v.3), v.4, omega (arith, v.5))
]

-- The days of the year.
days_before-year :
    (y : ℕ) → days_before (month_lengths y) (length (month_lengths y)) ≡ days_in_year y
unfolding days_before month_lengths days_in_year
days_before-year y = elim (Bool-cases (is_leap y)) [ inl leap ↦ rw leap | inr common ↦ rw common ]

length-month_lengths : (y : ℕ) → length (month_lengths y) ≡ 12
unfolding month_lengths
length-month_lengths y = elim (Bool-cases (is_leap y)) [
  | inl leap ↦ rw leap
  | inr common ↦ rw common
]

-- A stamp of the calendar.
pub record IsStamp (s : Stamp) : Type 0 where
  since_1970 : 1970 ≤ s.year
  month_one : 1 ≤ s.month
  month_twelve : s.month ≤ 12
  day_one : 1 ≤ s.day
  day_last : s.day ≤ length_at (month_lengths s.year) (s.month - 1)
  hour_last : s.hour < 24
  minute_last : s.minute < 60
  second_last : s.second < 60

-- The seconds from the start of 1970 to a stamp.
pub seconds_to : Stamp → ℕ
seconds_to s =
    let days =
      day_number s.year
      - day_number 1970
      + (days_before (month_lengths s.year) (s.month - 1) + (s.day - 1)) in
    86400 * days + (3600 * s.hour + 60 * s.minute + s.second)

day_number-1970 : (y : ℕ) → 1970 ≤ y → day_number 1970 ≤ day_number y
unfolding day_number
day_number-1970 y h = omega arith

stamp_at : ℕ → ℕ → ℕ → ℕ → Stamp
stamp_at time_secs y k rest = record {
  year = y;
  month = 1 + k;
  day = rest + 1;
  hour = time_secs / 3600;
  minute = time_secs % 3600 / 60;
  second = time_secs % 60;
}

stamp_at-IsStamp :
    (time_secs y k rest : ℕ)
    → time_secs < 86400
    → 1970 ≤ y
    → k < 12
    → rest < length_at (month_lengths y) k
    → IsStamp (stamp_at time_secs y k rest)
unfolding stamp_at
stamp_at-IsStamp time_secs y k rest in_day since in_year in_month =
    let back : 1 + k - 1 ≡ k = omega arith in
    record {
      since_1970 = since;
      month_one = omega arith;
      month_twelve = omega arith;
      day_one = omega arith;
      day_last = rw back (omega arith);
      hour_last = omega arith;
      minute_last = omega arith;
      second_last = omega arith;
    }

seconds_to-stamp_at :
    (time_secs y k rest days : ℕ)
    → time_secs < 86400
    → 1970 ≤ y
    → day_number y + (days_before (month_lengths y) k + rest) ≡ day_number 1970 + days
    → seconds_to (stamp_at time_secs y k rest) ≡ 86400 * days + time_secs
unfolding stamp_at seconds_to
seconds_to-stamp_at time_secs y k rest days in_day since e =
    let back : 1 + k - 1 ≡ k = omega arith in rw back (omega (arith, day_number-1970 y since))

stamp_from_secs-found :
    (secs y remaining k rest : ℕ)
    → find_year (suc (secs / 86400)) 1970 (secs / 86400) ≡ some (y, remaining)
    → find_month (month_lengths y) 1 remaining ≡ (1 + k, rest)
    → stamp_from_secs secs ≡ some (stamp_at (secs % 86400) y k rest)
unfolding stamp_from_secs stamp_of stamp_at
stamp_from_secs-found secs y remaining k rest e e' = rw (stamp_from_secs, e, stamp_of, e')

-- For every count of seconds both loops end, and the stamp is one of the calendar, such that the
-- seconds from the start of 1970 to it are the count.
pub stamp_from_secs-seconds_to :
    (secs : ℕ) → (s : Stamp) × (stamp_from_secs secs ≡ some s) × IsStamp s × (seconds_to s ≡ secs)
stamp_from_secs-seconds_to secs =
    let days = secs / 86400 in
    let y = find_year-finds (suc days) 1970 days (omega arith) (omega arith) in
    let whole = days_before-year y.0 in
    let m = find_month-finds (month_lengths y.0) 1 y.1 (omega (arith, whole, y.4)) in
    let twelve = length-month_lengths y.0 in
    (
      stamp_at (secs % 86400) y.0 m.0 m.1,
      stamp_from_secs-found secs y.0 y.1 m.0 m.1 y.2 m.2,
      stamp_at-IsStamp (secs % 86400) y.0 m.0 m.1 (omega arith) y.3 (omega (arith, m.3, twelve))
          m.4,
      seconds_to-stamp_at (secs % 86400) y.0 m.0 m.1 days (omega arith) y.3
            (omega (arith, y.5, m.5))
          ∙ omega arith,
    )
