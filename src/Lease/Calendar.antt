-- ===== src/Lease/Calendar.antt =====
-- The calendar day by day, as a description of the civil dates of src/migrations.rs.
pub mod March
pub mod Civil
use mathlib.Core.Path.{subst}
use workspace_atlas.Common.{
  ℕ, zero, suc, ◌+◌, ◌-◌, ◌*◌, ◌/◌, ◌%◌, ◌≤◌, ◌<◌, Bool, true, false, not, ◌&&◌, ◌||◌, ltb, leb,
  ◌==◌, if◌then◌else◌, Bool-cases, ◌⊎◌, inl, inr, ◌≡◌, refl, sym, ap, ◌∙◌, arith,
}
use workspace_atlas.Lease.Stamps.{CivilDate, year_of_era, day_of_year, civil_date}

unfoldable pub leap : ℕ → Bool
leap y = (y % 4 == 0 && not (y % 100 == 0)) || y % 400 == 0

abbrev pub month_days : Bool → ℕ → ℕ
month_days in_leap m =
    if m == 2
    then (if in_leap then 29 else 28)
    else (if m == 4 || m == 6 || m == 9 || m == 11 then 30 else 31)

abbrev pub tomorrow : CivilDate → CivilDate
tomorrow date =
    if ltb date.day (month_days (leap date.year) date.month)
    then record date { day = date.day + 1 }
    else (if ltb date.month 12
        then record date { month = date.month + 1; day = 1 }
        else record { year = date.year + 1; month = 1; day = 1 })

-- The date so many days after the first of January 1970.
unfoldable pub calendar : ℕ → CivilDate
calendar zero = record { year = 1970; month = 1; day = 1 }
calendar (suc days) = tomorrow (calendar days)
