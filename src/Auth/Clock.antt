-- ===== src/Auth/Clock.antt =====
-- Times of src/auth/mod.rs: a unix time, not negative, as a date and a time of the day.
pub mod Calendar
use Prim.Native.Char.{Char}
use Prim.Native.String.{char_at, ◌++◌}
use Prim.Native.String
use evorule_rule.Prelude.{ℕ, zero, suc, ◌/◌, ◌%◌, String}
use evorule_rule.Auth.Clock.Calendar.{civil_from_days}

abbrev decimal : ℕ → Char
decimal n = char_at "0123456789" (n % 10)

-- `{:02}` of a number below 100 and `{:04}` of one below 10000.
abbrev two : ℕ → String
two n = String.◌∷◌ (decimal (n / 10)) (String.◌∷◌ (decimal n) String.[])

abbrev four : ℕ → String
four n = two (n / 100) ++ two n

unfoldable pub iso_from_unix_no_z : ℕ → String
unfolding civil_from_days
iso_from_unix_no_z secs =
    let date = civil_from_days (secs / 86400) in
    let rem = secs % 86400 in
    four date.year
    ++ "-"
    ++ two date.month
    ++ "-"
    ++ two date.day
    ++ "T"
    ++ two (rem / 3600)
    ++ ":"
    ++ two (rem % 3600 / 60)
    ++ ":"
    ++ two (rem % 60)

unfoldable pub iso_from_unix : ℕ → String
unfolding iso_from_unix_no_z
iso_from_unix secs = iso_from_unix_no_z secs ++ "Z"
