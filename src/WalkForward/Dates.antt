-- ===== src/WalkForward/Dates.antt =====
-- Python's `datetime.date` as far as services/walk_forward.py uses it, and its `_add_months`.
use research_orchestrator.Prelude.{
  List, [], ◌∷◌, Option, none, some, get_elem?, ℕ, ◌+◌, ◌-◌, ◌*◌, ◌/◌, ◌%◌, min, Bool, ◌&&◌, ◌||◌,
  not, if◌then◌else◌, ltb, ◌==◌,
}

pub record Date : Type 0 where
  pub year : ℕ
  pub month : ℕ
  pub day : ℕ

abbrev pub date : (year month day : ℕ) → Date
date y m d = record { year = y; month = m; day = d }

unfoldable pub is_leap : ℕ → Bool
is_leap y = (y % 4 == 0) && (not (y % 100 == 0) || (y % 400 == 0))

-- the days of the months before each, in a common year
abbrev pub days_before : List ℕ
days_before = 0 ∷ 31 ∷ 59 ∷ 90 ∷ 120 ∷ 151 ∷ 181 ∷ 212 ∷ 243 ∷ 273 ∷ 304 ∷ 334 ∷ []

abbrev pub or_zero : Option ℕ → ℕ
or_zero none = 0
or_zero (some n) = n

-- d.toordinal()
unfoldable pub to_ordinal : Date → ℕ
to_ordinal d =
    let y = d.year - 1 in
    y * 365
    + y / 4
    - y / 100
    + y / 400
    + or_zero (get_elem? days_before (d.month - 1))
    + (if ltb 2 d.month && is_leap d.year then 1 else 0)
    + d.day

-- a < b
unfoldable pub before : Date → Date → Bool
before a b = ltb (to_ordinal a) (to_ordinal b)

-- the day before the first of the next month: the last of a month
unfoldable pub last_day : (year month : ℕ) → ℕ
last_day year month =
    if month == 2
    then (if is_leap year then 29 else 28)
    else if (month == 4) || (month == 6) || (month == 9) || (month == 11)
    then 30
    else 31

unfoldable pub add_months : Date → ℕ → Date
add_months d months =
    let total = d.year * 12 + (d.month - 1) + months in
    let year = total / 12 in
    let month = total % 12 + 1 in date year month (min d.day (last_day year month))

-- months since the beginning of the calendar
abbrev pub month_index : Date → ℕ
month_index d = d.year * 12 + (d.month - 1)
