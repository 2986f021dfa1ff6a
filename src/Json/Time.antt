-- ===== src/Json/Time.antt =====
-- `Batyr::Json::stringify(time_point)` of server/json.cpp: `gmtime` and `strftime("%FT%TZ")`, for
-- times from the epoch on, in seconds.
use batyr.Prelude.{ℕ, ◌+◌, ◌-◌, ◌*◌, ◌/◌, ◌%◌, [], ◌∷◌, ◌++◌, Text, ltb, leb, if◌then◌else◌}
use batyr.Json.{to_string}

-- A number padded with zeros to two and to four digits.
abbrev two_digits : ℕ → Text
two_digits n = if ltb n 10 then b'0' ∷ to_string n else to_string n

abbrev four_digits : ℕ → Text
four_digits n =
    if ltb n 100
    then b'0' ∷ b'0' ∷ two_digits n
    else if ltb n 1000
    then b'0' ∷ to_string n
    else to_string n

-- Year, month and day of a day number. Years are counted from March, in cycles of 400 years.
unfoldable pub civil_date : ℕ → ℕ × ℕ × ℕ
civil_date days =
    let z = days + 719468 in
    let doe = z % 146097 in
    let yoe = (doe - doe / 1460 + doe / 36524 - doe / 146096) / 365 in
    let doy = doe - (365 * yoe + yoe / 4 - yoe / 100) in
    let mp = (5 * doy + 2) / 153 in
    let month = if ltb mp 10 then mp + 3 else mp - 9 in
    let year = yoe + z / 146097 * 400 in
    (if leb month 2 then year + 1 else year, month, doy - (153 * mp + 2) / 5 + 1)

unfoldable pub stringify_time : ℕ → Text
unfolding civil_date
stringify_time t =
    let (year, month, day) = civil_date (t / 86400) in
    four_digits year
    ++ (b'-' ∷ two_digits month
        ++ (b'-' ∷ two_digits day
            ++ (b'T' ∷ two_digits (t % 86400 / 3600)
                ++ (b':' ∷ two_digits (t % 3600 / 60)
                    ++ (b':' ∷ two_digits (t % 60) ++ b'Z' ∷ [])))))
