-- ===== src/Lease/Stamps.antt =====
-- The timestamps of `iso8601_now` (src/migrations.rs) and `now_plus_iso8601` (src/catalogue.rs). A time
-- is the number of nanoseconds since 1970; the clock stands after that year.
use workspace_atlas.Common.{
  ℕ, zero, suc, ◌+◌, ◌-◌, ◌*◌, ◌/◌, ◌%◌, ◌^◌, ◌&&◌, [], ◌∷◌, ◌++◌, Text, ltb, leb, if◌then◌else◌,
}

pub record CivilDate : Type 0 where
  pub year : ℕ
  pub month : ℕ
  pub day : ℕ

-- The day within an era of 400 years that starts in March: first its year, then the day in the year.
abbrev pub year_of_era : ℕ → ℕ
year_of_era doe = (doe - doe / 1460 + doe / 36524 - doe / 146096) / 365

abbrev pub day_of_year : ℕ → ℕ
day_of_year doe = let yoe = year_of_era doe in doe - (365 * yoe + yoe / 4 - yoe / 100)

-- Civil from days.
unfoldable pub civil_date : ℕ → CivilDate
civil_date days =
    let z = days + 719468 in
    let era = z / 146097 in
    let doe = z % 146097 in
    let yoe = year_of_era doe in
    let doy = day_of_year doe in
    let mp = (5 * doy + 2) / 153 in
    let m = if ltb mp 10 then mp + 3 else mp - 9 in
    let y = yoe + era * 400 in
    record { year = if leb m 2 then y + 1 else y; month = m; day = doy - (153 * mp + 2) / 5 + 1 }

-- `{:02}` and its like; a number of more digits than the width is written whole.
unfoldable pub padded : (width fuel n : ℕ) → Text
padded width zero n = []
padded width (suc fuel) n =
    let rest = padded (width - 1) fuel (n / 10) ++ (b'0' + n % 10) ∷ [] in
    if leb width 1 && ltb n 10 then (b'0' + n % 10) ∷ [] else rest

-- The text of a number of milliseconds since 1970.
unfoldable pub iso8601 : ℕ → Text
iso8601 total_ms =
    let secs = total_ms / 1000 in
    let date = civil_date (secs / 86400) in
    let secs_of_day = secs % 86400 in
    padded 4 20 date.year
    ++ (b'-' ∷ padded 2 20 date.month
        ++ (b'-' ∷ padded 2 20 date.day
            ++ (b'T' ∷ padded 2 20 (secs_of_day / 3600)
                ++ (b':' ∷ padded 2 20 (secs_of_day % 3600 / 60)
                    ++ (b':' ∷ padded 2 20 (secs_of_day % 60)
                        ++ (b'.' ∷ padded 3 20 (total_ms % 1000) ++ b'Z' ∷ []))))))

unfoldable pub iso8601_now : ℕ → Text
iso8601_now now = iso8601 (now / 1000000)

-- `now` and, should the sum be past what a `SystemTime` holds, the clock read again.
unfoldable pub now_plus_iso8601 : (now again duration : ℕ) → Text
now_plus_iso8601 now again duration =
    iso8601
      ((if leb (2 ^ 63 * 1000000000) (now + duration) then again else now + duration) / 1000000)
