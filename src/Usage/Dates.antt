-- ===== src/Usage/Dates.antt =====
-- `daily_date_str` of crates/daemon/src/store/daos/daily_usage/accumulate.rs: a time in milliseconds as a
-- `YYYY-MM-DD` text.
use Prim.Native.Char.{Char}
use Prim.Native.String.{String}
use digital_wellbeing.Common.{
  ℕ, zero, suc, ◌+◌, ◌-◌, ◌*◌, ◌/◌, ◌%◌, ◌≡◌, refl, ◌==◌, ltb, leb, ◌&&◌, if◌then◌else◌,
}

pub record Civil : Type 0 where
  pub year : ℕ
  pub month : ℕ
  pub day : ℕ

-- The civil date of a number of days since the epoch; all the intermediate results are non-negative.
unfoldable pub civil_of_days : ℕ → Civil
civil_of_days days =
    let z = days + 719468 in
    let era = z / 146097 in
    let doe = z - era * 146097 in
    let yoe = (doe - doe / 1460 + doe / 36524 - doe / 146096) / 365 in
    let y = yoe + era * 400 in
    let doy = doe - (365 * yoe + yoe / 4 - yoe / 100) in
    let mp = (5 * doy + 2) / 153 in
    let d = doy - (153 * mp + 2) / 5 + 1 in
    let m = if ltb mp 10 then mp + 3 else mp - 9 in
    record { year = if leb m 2 then y + 1 else y; month = m; day = d }

digit : ℕ → Char
digit n =
    if n == 0
    then "0"
    else if n == 1
    then "1"
    else if n == 2
    then "2"
    else if n == 3
    then "3"
    else if n == 4
    then "4"
    else if n == 5
    then "5"
    else if n == 6
    then "6"
    else if n == 7
    then "7"
    else if n == 8
    then "8"
    else "9"

-- Decimal digits with leading zeros up to a width, in front of a text. A 64-bit number has at most 20.
pad_loop : ℕ → ℕ → ℕ → String → String
unfolding digit
pad_loop zero width n rest = rest
pad_loop (suc fuel) width n rest =
    let more = pad_loop fuel (width - 1) (n / 10) (String.◌∷◌ (digit (n % 10)) rest) in
    if (n == 0) && (width == 0) then rest else more

-- `format!("{y:04}-{m:02}-{d:02}")` of the date of the day that `ts_ms / 1000 / 86_400` counts.
unfoldable pub daily_date_str : ℕ → String
unfolding civil_of_days pad_loop
daily_date_str ts_ms =
    let c = civil_of_days (ts_ms / 1000 / 86400) in
    pad_loop 20 4 c.year
      (String.◌∷◌ "-" (pad_loop 20 2 c.month (String.◌∷◌ "-" (pad_loop 20 2 c.day ""))))

known_date : daily_date_str 1785024000000 ≡ "2026-07-26"
unfolding daily_date_str
known_date = refl
