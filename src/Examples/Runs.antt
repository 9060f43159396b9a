-- ===== src/Examples/Runs.antt =====
-- Runs of the texts, the durations and the numbers.
use mutandae.Prelude.{◌≡◌, ◌+◌, ◌*◌, refl, true, false, trim_space, decimal, decimal_03, str_lt}
use mutandae.Protocol.Errors.{ok}
use mutandae.Protocol.Iso8601.{parse_iso8601_duration, format_iso8601_duration, day, hour, second}
use mutandae.Protocol.Iso8601.Binary64.{nearest, times, truncate}

parse_runs :
    (parse_iso8601_duration " P90D " ≡ ok (90 * day))
    × (parse_iso8601_duration "P1DT6H" ≡ ok (30 * hour))
    × (parse_iso8601_duration "PT1.001S" ≡ ok 1000999999)
    × (parse_iso8601_duration "P1.5.7D" ≡ ok (36 * hour))
    × (parse_iso8601_duration "PT1.S" ≡ ok second)
unfolding parse_iso8601_duration nearest times truncate
parse_runs = (refl, refl, refl, refl, refl)

format_runs :
    (format_iso8601_duration (90 * day) ≡ "P90D")
    × (format_iso8601_duration (30 * hour + 1_500_000_000) ≡ "P1DT6H1.500S")
    × (format_iso8601_duration 999_999 ≡ "P")
unfolding format_iso8601_duration decimal decimal_03
format_runs = (refl, refl, refl)

-- 1.5 * 2 and the integers are exact; 1.001 * 10 ^ 9 is not.
nearest_runs :
    (truncate (times (nearest 15 10) 2) ≡ 3)
    × (truncate (times (nearest 90 1) 86400000000000) ≡ 7776000000000000)
    × (truncate (times (nearest 1001 1000) 1000000000) ≡ 1000999999)
unfolding nearest times truncate
nearest_runs = (refl, refl, refl)

trim_space_runs : trim_space " \t ab c \n" ≡ "ab c"
unfolding trim_space
trim_space_runs = refl

decimal_03_runs : (decimal_03 7 ≡ "007") × (decimal_03 42 ≡ "042") × (decimal_03 1000 ≡ "1000")
unfolding decimal_03
decimal_03_runs = (refl, refl, refl)

str_lt_runs : (str_lt "evt-002" "evt-010" ≡ true) × (str_lt "evt-999" "evt-1000" ≡ false)
unfolding str_lt
str_lt_runs = (refl, refl)
