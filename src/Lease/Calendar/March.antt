-- ===== src/Lease/Calendar/March.antt =====
-- Years that start in March, as in `iso8601_now` of src/migrations.rs, day by day.
use workspace_atlas.Common.{
  ◌∙◌, ap, ℕ, zero, suc, ◌+◌, ◌-◌, ◌*◌, ◌/◌, ◌<◌, Bool, true, false, not, ◌&&◌, ltb, leb, ◌==◌,
  if◌then◌else◌, Bool-cases, inl, inr, ◌≡◌, refl, arith,
}
use workspace_atlas.Lease.Stamps.{CivilDate}
use workspace_atlas.Lease.Calendar.{leap, month_days, tomorrow}

-- The date of a day in a year that starts in March.
abbrev pub march_month : ℕ → ℕ
march_month doy = let mp = (5 * doy + 2) / 153 in if ltb mp 10 then mp + 3 else mp - 9

abbrev pub march_day : ℕ → ℕ
march_day doy = doy - (153 * ((5 * doy + 2) / 153) + 2) / 5 + 1

abbrev pub march_date : ℕ → ℕ → CivilDate
march_date y doy = record {
  year = if leb (march_month doy) 2 then y + 1 else y;
  month = march_month doy;
  day = march_day doy;
}

unfoldable pub year_days : ℕ → ℕ
year_days y = if leap y then 366 else 365

-- What the next day of a year that starts in March is, by the lengths of the months.
follows : Bool → (m dy m' dy' : ℕ) → Bool
follows in_leap m dy m' dy' =
    if ltb dy (month_days in_leap m)
    then m' == m && dy' == dy + 1
    else (if ltb m 12 then m' == m + 1 && dy' == 1 && not (m == 2) else m' == 1 && dy' == 1)

follows-tomorrow :
    (y m dy m' dy' : ℕ)
    → follows (leap (y + 1)) m dy m' dy' ≡ true
    → record { year = if leb m' 2 then y + 1 else y; month = m'; day = dy' }
      ≡ tomorrow (record { year = if leb m 2 then y + 1 else y; month = m; day = dy })
unfolding follows
follows-tomorrow y m dy m' dy' h = ground arith

-- The test of each day before the given one.
before : ℕ → (ℕ → Bool) → Bool
before zero test = true
before (suc last) test = if test last then before last test else false

before-day :
    (days : ℕ) (test : ℕ → Bool)
    → before days test ≡ true
    → (day : ℕ) → day < days
    → test day ≡ true
unfolding before
before-day zero test passed day early = absurd (omega arith)
before-day (suc last) test passed day early = elim (Bool-cases (day == last)) [
  | inl e ↦ let here : day ≡ last = ground arith in ap test here ∙ ground arith
  | inr e ↦ before-day last test (ground arith) day (ground arith)
]

march_follows : Bool → ℕ → Bool
unfolding follows
march_follows in_leap d =
    follows in_leap (march_month d) (march_day d) (march_month (d + 1)) (march_day (d + 1))

common_table : before 364 (march_follows false) ≡ true
unfolding before march_follows
common_table = refl

leap_table : before 365 (march_follows true) ≡ true
unfolding before march_follows
leap_table = refl

pub march_date-within :
    (y d : ℕ) → d + 1 < year_days (y + 1) → march_date y (d + 1) ≡ tomorrow (march_date y d)
unfolding year_days march_follows
march_date-within y d h =
    follows-tomorrow y (march_month d) (march_day d) (march_month (d + 1)) (march_day (d + 1))
      (elim (Bool-cases (leap (y + 1))) [
        | inl e ↦ rw e (before-day 365 (march_follows true) leap_table d (ground arith))
        | inr e ↦ rw e (before-day 364 (march_follows false) common_table d (ground arith))
      ])

pub march_date-turn :
    (y d : ℕ) → d + 1 ≡ year_days (y + 1) → march_date (y + 1) 0 ≡ tomorrow (march_date y d)
unfolding year_days
march_date-turn y d h = ground arith
