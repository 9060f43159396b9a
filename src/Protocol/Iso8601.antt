-- ===== src/Protocol/Iso8601.antt =====
-- pkg/protocol/duration.go: ISO-8601 durations.
pub mod Binary64
use Prim.Native.Char.{Char, code}
use mutandae.Prelude.{
  ℕ, zero, suc, ◌+◌, ◌-◌, ◌*◌, ◌/◌, ◌%◌, ◌^◌, String, ◌≡◌, refl, Bool, true, false, not, ◌&&◌, ◌||◌,
  ltb, leb, ◌==◌, nat_eq, string_eq, if◌then◌else◌, Option, none, some, ◌<>◌, trim_space, decimal,
  decimal_03,
}
use mutandae.Protocol.Errors.{Error, plain, Result, ok, err, ◌>>=◌, ◌>>◌}
use mutandae.Protocol.Models.{Duration}
use Binary64.{nearest, times, truncate}

abbrev pub millisecond : ℕ
millisecond = 1_000_000

abbrev pub second : ℕ
second = 1_000_000_000

abbrev pub minute : ℕ
minute = 60_000_000_000

abbrev pub hour : ℕ
hour = 3_600_000_000_000

abbrev pub day : ℕ
day = 86_400_000_000_000

-- `isoUnit`: nanoseconds in one unit.
abbrev pub unit_length : ℕ → Option ℕ
unit_length c =
    if c == b'D'
    then some day
    else if c == b'W'
    then some (7 * day)
    else if c == b'H'
    then some hour
    else if c == b'M'
    then some minute
    else if c == b'S'
    then some second
    else none

abbrev pub is_digit : ℕ → Bool
is_digit c = leb b'0' c && leb c b'9'

-- What `fmt.Sscanf(token, "%f", …)` reads of digits and dots: digits, a dot, digits. It leaves a
-- second dot and what follows unread. `seen` says whether there was a digit.
scan_fraction : ℕ → ℕ → Bool → String → Option (ℕ × ℕ)
scan_fraction m scale seen String.[] = if seen then some (m, scale) else none
scan_fraction m scale seen (String.◌∷◌ c s) =
    let rest = scan_fraction (m * 10 + (code c - b'0')) (scale * 10) true s in
    if is_digit (code c) then rest else if seen then some (m, scale) else none

-- The mantissa and the power of ten that divides it.
unfoldable pub scan_float : ℕ → Bool → String → Option (ℕ × ℕ)
unfolding scan_fraction
scan_float m seen String.[] = if seen then some (m, 1) else none
scan_float m seen (String.◌∷◌ c s) =
    let rest = scan_float (m * 10 + (code c - b'0')) true s in
    if is_digit (code c) then rest else scan_fraction m 1 seen s

-- The variables of the loop.
pub record Scan : Type 0 where
  pub token : String
  pub in_time : Bool
  pub time_components : ℕ
  pub total : Duration
  pub count : ℕ

abbrev pub scan_start : Scan
scan_start = record { token = ""; in_time = false; time_components = 0; total = 0; count = 0 }

-- `time.Duration(amount * float64(unit))`
abbrev pub amount_of : ℕ × ℕ → ℕ → Duration
amount_of (m, scale) unit = truncate (times (nearest m scale) unit)

-- The component `d` is added and the token cleared.
abbrev pub add_component : Scan → Duration → Scan
add_component st d = record st {
  token = "";
  total = st.total + d;
  count = st.count + 1;
  time_components = if st.in_time then st.time_components + 1 else st.time_components;
}

-- The unit is looked up after the number is read, and both may fail.
abbrev flush_number : Scan → Option (ℕ × ℕ) → Option ℕ → Result Scan
flush_number st none unit = err (plain "protocol: invalid number")
flush_number st (some amount) none = err (plain "protocol: unsupported unit")
flush_number st (some amount) (some unit) = ok (add_component st (amount_of amount unit))

unfoldable pub flush : Scan → ℕ → Result Scan
unfolding scan_float
flush st c =
    if st.token == ""
    then err (plain "protocol: empty value before unit")
    else flush_number st (scan_float 0 false st.token) (unit_length c)

abbrev pub is_unit : ℕ → Bool
is_unit c = (c == b'Y') || (c == b'M') || (c == b'D') || (c == b'W') || (c == b'H') || (c == b'S')

-- One round of the loop.
unfoldable pub scan_char : Scan → Char → Result Scan
unfolding flush
scan_char st ch =
    let c = code ch in
    if c == b'T'
    then (if st.token == ""
        then ok (record st { in_time = true })
        else err (plain "protocol: misplaced time designator"))
    else if is_digit c || (c == b'.')
    then ok (record st { token = st.token <> String.◌∷◌ ch "" })
    else if is_unit c
    then (if not st.in_time && ((c == b'H') || (c == b'S'))
        then err (plain "protocol: the unit must follow the time designator")
        else if not st.in_time && (c == b'M')
        then err (plain "protocol: months are not supported")
        else flush st c)
    else err (plain "protocol: unexpected character")

unfoldable pub scan_chars : Scan → String → Result Scan
unfolding scan_char
scan_chars st String.[] = ok st
scan_chars st (String.◌∷◌ c s) = scan_char st c >>= λ st'. scan_chars st' s

-- The checks behind the loop.
unfoldable pub finish : Scan → Result Duration
finish st =
    if not (st.token == "")
    then err (plain "protocol: trailing value")
    else if st.in_time && (st.time_components == 0)
    then err (plain "protocol: time designator without components")
    else if st.count == 0
    then err (plain "protocol: no duration components")
    else ok st.total

-- `s[1:]` behind `HasPrefix(s, "P")` and `len(s) < 2`.
unfoldable pub after_p : String → Result String
after_p String.[] = err (plain "protocol: invalid ISO-8601 duration")
after_p (String.◌∷◌ c s) =
    if (code c == b'P') && not (s == "")
    then ok s
    else err (plain "protocol: invalid ISO-8601 duration")

unfoldable pub parse_iso8601_duration : String → Result Duration
unfolding trim_space after_p scan_chars finish
parse_iso8601_duration value = do
  s ← after_p (trim_space value)
  st ← scan_chars scan_start s
  finish st

abbrev pub component : ℕ → String → String
component n unit = if ltb 0 n then decimal n <> unit else ""

-- The seconds, with milliseconds where there are some.
abbrev pub seconds_component : ℕ → ℕ → String
seconds_component seconds ms =
    if ltb 0 ms then decimal seconds <> "." <> decimal_03 ms <> "S" else component seconds "S"

-- A duration that is not positive is printed like 0.
unfoldable pub format_iso8601_duration : Duration → String
format_iso8601_duration d =
    let days = d / day in
    let hours = d % day / hour in
    let minutes = d % day % hour / minute in
    let seconds = d % day % hour % minute / second in
    let ms = d % day % hour % minute % second / millisecond in
    let designator =
      if ltb 0 hours || ltb 0 minutes || ltb 0 seconds || ltb 0 ms then "T" else "" in
    if d == 0
    then "P0D"
    else "P"
      <> component days "D"
      <> designator
      <> component hours "H"
      <> component minutes "M"
      <> seconds_component seconds ms
