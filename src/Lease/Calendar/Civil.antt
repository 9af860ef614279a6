-- ===== src/Lease/Calendar/Civil.antt =====
-- The civil dates of src/migrations.rs against the calendar.
use mathlib.Core.Path.{ap₂}
use workspace_atlas.Common.{
  ℕ, zero, suc, ◌+◌, ◌-◌, ◌*◌, ◌/◌, ◌%◌, ◌≤◌, ◌<◌, ltb, if◌then◌else◌, Bool-cases, inl, inr, ◌≡◌,
  refl, sym, ap, ◌∙◌, arith,
}
use workspace_atlas.Lease.Stamps.{CivilDate, year_of_era, day_of_year, civil_date}
use workspace_atlas.Lease.Calendar.{leap, tomorrow, calendar}
use workspace_atlas.Lease.Calendar.March.{march_date, year_days, march_date-within, march_date-turn}

-- The days of an era before its year `y`, which starts in March.
abbrev whole : ℕ → ℕ
whole y = 365 * y + y / 4 + y / 400 - y / 100

whole-suc : (y : ℕ) → whole (y + 1) ≡ whole y + (if leap (y + 1) then 366 else 365)
unfolding leap
whole-suc y = ground arith

year-whole :
    (doe : ℕ)
    → doe < 146097
    → (year_of_era doe < 400)
      × (whole (year_of_era doe) ≤ doe)
      × (doe < whole (year_of_era doe + 1))
year-whole doe h = omega arith

whole-day : (doe : ℕ) → doe < 146097 → day_of_year doe + whole (year_of_era doe) ≡ doe
whole-day doe h = omega arith

year_unique : (doe y : ℕ) → y < 400 → whole y ≤ doe → doe < whole (y + 1) → year_of_era doe ≡ y
year_unique doe y few low high = omega arith

-- The date of a day in an era.
abbrev date_in : ℕ → ℕ → CivilDate
date_in era doe = march_date (year_of_era doe + era * 400) (day_of_year doe)

civil_date-date_in :
    (days : ℕ) → civil_date days ≡ date_in ((days + 719468) / 146097) ((days + 719468) % 146097)
unfolding civil_date
civil_date-date_in days = refl

leap-era : (y era : ℕ) → leap (y + era * 400 + 1) ≡ leap (y + 1)
unfolding leap
leap-era y era =
    let four : (y + era * 400 + 1) % 4 ≡ (y + 1) % 4 = omega arith in
    let hundred : (y + era * 400 + 1) % 100 ≡ (y + 1) % 100 = omega arith in
    let all : (y + era * 400 + 1) % 400 ≡ (y + 1) % 400 = omega arith in
    rw (four, hundred, all) refl

year_days-whole : (y era : ℕ) → whole y + year_days (y + era * 400 + 1) ≡ whole (y + 1)
unfolding year_days
year_days-whole y era = rw (leap-era y era) (sym (whole-suc y))

date_in-within :
    (era doe : ℕ) → doe + 1 < 146097 → date_in era (doe + 1) ≡ tomorrow (date_in era doe)
date_in-within era doe h =
    let y = year_of_era doe in
    let (few, low, high) = year-whole doe (omega arith) in
    let here = whole-day doe (omega arith) in
    let there = whole-day (doe + 1) h in
    let length = year_days-whole y era in
    elim (Bool-cases (ltb (doe + 1) (whole (y + 1)))) [
      | inl e ↦
          let below : doe + 1 < whole (y + 1) = ground arith in
          let same : year_of_era (doe + 1) ≡ y =
            year_unique (doe + 1) y few (omega arith) (ground arith) in
          let day : day_of_year (doe + 1) ≡ day_of_year doe + 1 =
            omega (arith, same, ap whole same) in
          ap (λ y'. march_date (y' + era * 400) (day_of_year (doe + 1))) same
          ∙ ap (march_date (y + era * 400)) day
          ∙ march_date-within (y + era * 400) (day_of_year doe) (omega (arith, length, below))
      | inr e ↦
          let turned : doe + 1 ≡ whole (y + 1) = ground arith in
          let more : y + 1 < 400 = omega (arith, turned) in
          let next : year_of_era (doe + 1) ≡ y + 1 =
            year_unique (doe + 1) (y + 1) more (omega arith) (omega arith) in
          let day : day_of_year (doe + 1) ≡ 0 = omega (arith, next, ap whole next) in
          let year : y + 1 + era * 400 ≡ y + era * 400 + 1 = omega arith in
          ap (λ y'. march_date (y' + era * 400) (day_of_year (doe + 1))) next
          ∙ ap (march_date (y + 1 + era * 400)) day
          ∙ ap (λ y'. march_date y' 0) year
          ∙ march_date-turn (y + era * 400) (day_of_year doe) (omega (arith, length))
    ]

date_in-era : (era : ℕ) → date_in (era + 1) 0 ≡ tomorrow (date_in era 146096)
date_in-era era =
    let year : 0 + (era + 1) * 400 ≡ 399 + era * 400 + 1 = omega arith in
    let length = year_days-whole 399 era in
    ap (λ y. march_date y 0) year ∙ march_date-turn (399 + era * 400) 365 (omega (arith, length))

next-day : (days : ℕ) → civil_date (suc days) ≡ tomorrow (civil_date days)
next-day days =
    let z = days + 719468 in
    let now = ap tomorrow (sym (civil_date-date_in days)) in
    elim (Bool-cases (ltb (z % 146097 + 1) 146097)) [
      | inl e ↦
          let inside : z % 146097 + 1 < 146097 = ground arith in
          let era : (suc days + 719468) / 146097 ≡ z / 146097 = omega arith in
          let doe : (suc days + 719468) % 146097 ≡ z % 146097 + 1 = omega arith in
          civil_date-date_in (suc days)
          ∙ ap₂ date_in era doe
          ∙ date_in-within (z / 146097) (z % 146097) inside
          ∙ now
      | inr e ↦
          let last : z % 146097 ≡ 146096 = ground arith in
          let era : (suc days + 719468) / 146097 ≡ z / 146097 + 1 = omega arith in
          let doe : (suc days + 719468) % 146097 ≡ 0 = omega arith in
          civil_date-date_in (suc days)
          ∙ ap₂ date_in era doe
          ∙ date_in-era (z / 146097)
          ∙ ap (λ d. tomorrow (date_in (z / 146097) d)) (sym last)
          ∙ now
    ]

-- The civil date of a day is that of a calendar which counts the days from the first of January 1970
-- one by one, by the lengths of the months and the leap years.
pub civil_date-calendar : (days : ℕ) → civil_date days ≡ calendar days
unfolding calendar
civil_date-calendar zero = civil_date-date_in 0
civil_date-calendar (suc days) = next-day days ∙ ap tomorrow (civil_date-calendar days)
