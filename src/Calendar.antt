-- ===== src/Calendar.antt =====
-- `datetime.date` of Python's library, as far as the archive uses it: comparison, `timedelta(days=1)`
-- and `calendar.monthrange`. An instant (`datetime` in UTC) is a number of microseconds, a plain ℕ.
use lotus_archive.Prelude.{
  ℕ, ◌+◌, ◌%◌, ◌≡◌, refl, Bool, not, ◌&&◌, ◌||◌, ltb, ◌==◌, nat_eq, Eq, if◌then◌else◌,
}
use native.Mathlib.Decide.{ℕ_discrete}

pub record Date : Type 0 where
  pub year : ℕ
  pub month : ℕ
  pub day : ℕ

unfoldable pub Date-discrete : Discrete Date
Date-discrete = hlevel ℕ_discrete

instance abbrev pub date_eq : Eq Date
date_eq = record { dec = Date-discrete }

-- `a < b`, year first
unfoldable pub before : Date → Date → Bool
before a b =
    ltb a.year b.year
    || (a.year == b.year && (ltb a.month b.month || (a.month == b.month && ltb a.day b.day)))

abbrev pub is_leap : ℕ → Bool
is_leap y = y % 4 == 0 && (not (y % 100 == 0) || y % 400 == 0)

-- `monthrange(year, month)[1]`
unfoldable pub month_length : ℕ → ℕ → ℕ
month_length y m =
    if m == 2
    then (if is_leap y then 29 else 28)
    else if m == 4 || m == 6 || m == 9 || m == 11
    then 30
    else 31

-- `d + timedelta(days=1)`
unfoldable pub next_day : Date → Date
unfolding month_length
next_day d =
    if ltb d.day (month_length d.year d.month)
    then record d { day = d.day + 1 }
    else if ltb d.month 12
    then record { year = d.year; month = d.month + 1; day = 1 }
    else record { year = d.year + 1; month = 1; day = 1 }

march_first :
    next_day (record { year = 2023; month = 2; day = 28 })
    ≡ record { year = 2023; month = 3; day = 1 }
unfolding next_day ℕ_discrete
march_first = refl
