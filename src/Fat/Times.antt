-- ===== src/Fat/Times.antt =====
-- src/fatfs/fat.c: dates and times of directory entries (`to_filDateTime`).
use rpv_platforms_evt_driven.Base.{ℕ, ◌+◌, ◌-◌, ◌*◌, ◌/◌, ◌%◌, ◌^◌, ◌≤◌, ◌<◌, ◌≡◌, arith}

pub record FilDateTime : Type 0 where
  pub year : ℕ
  pub month : ℕ
  pub day : ℕ
  pub hour : ℕ
  pub minute : ℕ
  pub second : ℕ

abbrev pub file_year_base : ℕ
file_year_base = 1980

-- The fields are the bits under the masks 0x7f, 0x0f, 0x1f and 0x3f, written as remainders.
unfoldable pub to_fil_date_time : (fs_date fs_time : ℕ) → FilDateTime
to_fil_date_time fs_date fs_time = record {
  year = fs_date / 2 ^ 9 % 2 ^ 7 + file_year_base;
  month = fs_date / 2 ^ 5 % 2 ^ 4;
  day = fs_date % 2 ^ 5;
  hour = fs_time / 2 ^ 11 % 2 ^ 5;
  minute = fs_time / 2 ^ 5 % 2 ^ 6;
  second = fs_time % 2 ^ 6 * 2;
}

-- A time that a directory entry can hold, to two seconds.
pub record IsFatTime (t : FilDateTime) : Type 0 where
  pub first_year : file_year_base ≤ t.year
  pub last_year : t.year < file_year_base + 2 ^ 7
  pub months : t.month ≤ 12
  pub days : t.day ≤ 31
  pub hours : t.hour < 24
  pub minutes : t.minute < 60
  pub seconds : t.second < 60

-- The words of a directory entry: the date is seven bits of years, four of months and five of days,
-- the time is five bits of hours, six of minutes and five of double seconds.
abbrev pub fat_date : FilDateTime → ℕ
fat_date t = (t.year - file_year_base) * 2 ^ 9 + t.month * 2 ^ 5 + t.day

abbrev pub fat_time : FilDateTime → ℕ
fat_time t = t.hour * 2 ^ 11 + t.minute * 2 ^ 5 + t.second / 2

-- Of a time that a directory entry can hold the code reads back every field but the seconds: these
-- are even, and in an odd minute 64 more than they should be.
pub to_fil_date_time_lem :
    (t : FilDateTime)
    → IsFatTime t
    → to_fil_date_time (fat_date t) (fat_time t)
      ≡ record t { second = t.second / 2 * 2 + t.minute % 2 * 64 }
unfolding to_fil_date_time
to_fil_date_time_lem t v = λ i. record {
  year = years i;
  month = months i;
  day = days i;
  hour = hours i;
  minute = minutes i;
  second = seconds i;
}
  where
    d : ℕ
    d = fat_date t

    m : ℕ
    m = fat_time t

    years : d / 2 ^ 9 % 2 ^ 7 + file_year_base ≡ t.year
    years = omega (arith, v.first_year, v.last_year, v.months, v.days)

    months : d / 2 ^ 5 % 2 ^ 4 ≡ t.month
    months = omega (arith, v.first_year, v.months, v.days)

    days : d % 2 ^ 5 ≡ t.day
    days = omega (arith, v.days)

    hours : m / 2 ^ 11 % 2 ^ 5 ≡ t.hour
    hours = omega (arith, v.hours, v.minutes, v.seconds)

    minutes : m / 2 ^ 5 % 2 ^ 6 ≡ t.minute
    minutes = omega (arith, v.hours, v.minutes, v.seconds)

    seconds : m % 2 ^ 6 * 2 ≡ t.second / 2 * 2 + t.minute % 2 * 64
    seconds = omega (arith, v.seconds)
