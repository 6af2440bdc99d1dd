-- ===== src/Schedule/Time.antt =====
-- parse_time and _next_wall_clock of packages/dynrec/dynrec/schedule.py. Python's datetime and the
-- spellings of a float beyond plain decimals are parameters.
pub mod Forms
use Prim.Native.Char.{code}
use rosbag2_dynamic_recorder.Base.{
  leb, ℕ, ◌+◌, ◌*◌, String, Bool, true, false, ◌&&◌, ◌||◌, Option, none, some, List, [], ◌∷◌, ltb,
  ◌==◌, str_eq, if◌then◌else◌,
}
use rosbag2_dynamic_recorder.Base.Seconds.{Seconds, add_seconds, times, is_after}
use rosbag2_dynamic_recorder.Base.Text.{
  append, len, starts_with, strip_spaces, is_digits, value, decimal_prefix, decimal, split_on,
}
use rosbag2_dynamic_recorder.Errors.{
  Reason, invalid_request, not_a_time, unreadable_time, bad_time_of_day, Fault, fault,
  overflow_error, value_error, assertion_error, Result, ok, err,
}
use rosbag2_dynamic_recorder.Schedule.{split, Stamp, At}

-- A float that a caller can pass or write. An int past the floats is infinite here: `float` raises
-- OverflowError for the one, and `int` for the other.
pub data Number : Type 0 where
  finite : Seconds → Number
  infinite nan : Number

-- What `timestamp()` gives of a datetime, or raises; for one without a time zone `astimezone()` before it.
pub data Instant : Type 0 where
  timestamped : Seconds → Instant
  raised : Fault → Instant

-- `at=`: a datetime, with its timestamp; a number; a text; a value of another type.
pub data TimeArg : Type 0 where
  instant : Instant → TimeArg
  number : Number → TimeArg
  written : String → TimeArg
  other : TimeArg

-- What Python does with times: `local_date` is the calendar day of an instant, counted, with its
-- fold; `timestamp` is the instant of a second of a day; `overflows` says which numbers are past the
-- largest float; `other_float` is what float reads of a text that is not plain decimals, none for
-- ValueError; `from_iso` is what datetime.fromisoformat reads, none for ValueError.
pub record Platform : Type 0 where
  pub local_date : Seconds → ℕ × Bool
  pub timestamp : ℕ → Bool → ℕ → Instant
  pub overflows : Seconds → Bool
  pub other_float : String → Option Number
  pub from_iso : String → Option Instant

-- `_UNIT_SECONDS`, with the units that `_RELATIVE` allows.
unfoldable pub unit_seconds : String → Option ℕ
unit_seconds unit =
    if str_eq unit "" || str_eq unit "s"
    then some 1
    else if str_eq unit "m"
    then some 60
    else if str_eq unit "h"
    then some 3600
    else none

unit_after : Seconds × String → Option (Seconds × ℕ)
unfolding unit_seconds
unit_after (amount, unit) = elim (unit_seconds unit) [ none ↦ none | some k ↦ some (amount, k) ]

after_plus : String → Option (Seconds × ℕ)
unfolding decimal_prefix unit_after
after_plus rest = elim (decimal_prefix rest) [ none ↦ none | some found ↦ unit_after found ]

-- The groups of `_RELATIVE`, the amount as a number and the unit as its seconds.
unfoldable pub relative : String → Option (Seconds × ℕ)
unfolding after_plus
relative String.[] = none
relative (String.◌∷◌ c rest) = if code c == b'+' then after_plus rest else none

-- A field of `_WALL_CLOCK`, of as many digits as the numbers say.
unfoldable pub clock_field : ℕ → ℕ → String → Option ℕ
unfolding is_digits len value
clock_field least most field =
    if is_digits field && leb least (len field) && leb (len field) most
    then some (value 0 field)
    else none

abbrev pub Clock : Type 0
Clock = ℕ × ℕ × ℕ

unfoldable pub clock : Option ℕ → Option ℕ → Option ℕ → Option Clock
clock (some hour) (some minute) (some second) = some (hour, minute, second)
clock _ _ _ = none

unfoldable pub clock_fields : List String → Option Clock
unfolding clock clock_field
clock_fields (h ∷ m ∷ []) = clock (clock_field 1 2 h) (clock_field 2 2 m) (some 0)
clock_fields (h ∷ m ∷ s ∷ []) = clock (clock_field 1 2 h) (clock_field 2 2 m) (clock_field 2 2 s)
clock_fields _ = none

-- `_WALL_CLOCK` and the numbers of its fields.
unfoldable pub wall_clock : String → Option Clock
unfolding split_on clock_fields
wall_clock text = clock_fields (split_on b':' text)

-- What datetime.replace accepts.
unfoldable pub is_in_range : Clock → Bool
is_in_range (hour, minute, second) = ltb hour 24 && ltb minute 60 && ltb second 60

abbrev pub second_of_day : Clock → ℕ
second_of_day (hour, minute, second) = hour * 3600 + minute * 60 + second

-- `_split`, of a float that may be no number of seconds.
unfoldable pub split_number : Number → Result Stamp
unfolding split
split_number (finite seconds) = ok (split seconds)
split_number infinite = err (fault overflow_error)
split_number nan = err (fault value_error)

-- `_split(parsed.timestamp())`
unfoldable pub split_instant : Instant → Result Stamp
unfolding split
split_instant (timestamped seconds) = ok (split seconds)
split_instant (raised f) = err (fault f)

-- `_split` of a time of day, where any ValueError is caught.
unfoldable pub split_clock_or : Reason → Option Instant → Result Stamp
unfolding split_instant
split_clock_or reason none = err (invalid_request reason)
split_clock_or reason (some (raised value_error)) = err (invalid_request reason)
split_clock_or reason (some (raised overflow_error)) = split_instant (raised overflow_error)
split_clock_or reason (some (raised assertion_error)) = split_instant (raised assertion_error)
split_clock_or reason (some (timestamped seconds)) = split_instant (timestamped seconds)

-- A datetime that was read, whose conversion is outside the `try`.
unfoldable pub split_iso_or : Reason → Option Instant → Result Stamp
unfolding split_instant
split_iso_or reason none = err (invalid_request reason)
split_iso_or reason (some parsed) = split_instant parsed

-- `_split(float(text))`, where a ValueError of either leads on.
unfoldable pub split_float_or : Option Number → Result Stamp → Result Stamp
unfolding split_number
split_float_or none rest = rest
split_float_or (some nan) rest = rest
split_float_or (some infinite) rest = split_number infinite
split_float_or (some (finite seconds)) rest = split_number (finite seconds)

abbrev pub float_or : Option Number → Option Number → Option Number
float_or none more = more
float_or (some n) more = some n

-- Today's time if it is after now, and else tomorrow's.
abbrev pub next_of : Seconds → Instant → Instant → Instant
unfolding is_after
next_of now (raised f) tomorrow = raised f
next_of now (timestamped today) tomorrow =
    if is_after today now then timestamped today else tomorrow

module _ (platform : Platform) (now : Seconds) where
  -- `datetime.fromtimestamp(now).replace(...)`, or ValueError, and a day later; only the replaced
  -- time keeps the fold.
  unfoldable pub next_wall_clock : Clock → Option Instant
  unfolding is_in_range next_of
  next_wall_clock time =
      let (day, fold) = platform.local_date now in
      let today = platform.timestamp day fold (second_of_day time) in
      let tomorrow = platform.timestamp (day + 1) false (second_of_day time) in
      if is_in_range time then some (next_of now today tomorrow) else none

  -- The float of a number.
  abbrev pub float_of : Seconds → Number
  float_of seconds = if platform.overflows seconds then infinite else finite seconds

  abbrev pub float_of_decimal : Option Seconds → Option Number
  float_of_decimal none = none
  float_of_decimal (some seconds) = some (float_of seconds)

  -- `float(text)`
  unfoldable pub read_float : String → Option Number
  unfolding decimal
  read_float text = float_or (float_of_decimal (decimal text)) (platform.other_float text)

  unfoldable pub parse_iso : String → String → Result Stamp
  unfolding split_iso_or
  parse_iso original stripped = split_iso_or (unreadable_time original) (platform.from_iso stripped)

  unfoldable pub parse_clock : String → String → Result Stamp
  unfolding wall_clock next_wall_clock parse_iso split_clock_or
  parse_clock original stripped = elim (wall_clock stripped) [
    | none ↦ parse_iso original stripped
    | some time ↦ split_clock_or (bad_time_of_day original) (next_wall_clock time)
  ]

  unfoldable pub parse_absolute : String → String → Result Stamp
  unfolding read_float split_float_or parse_clock
  parse_absolute original stripped =
      split_float_or (read_float stripped) (parse_clock original stripped)

  -- Whether the amount, its seconds or the time is past the floats.
  abbrev pub offset_overflows : Seconds → ℕ → Bool
  unfolding add_seconds times
  offset_overflows amount k =
      platform.overflows amount
      || platform.overflows (times amount k)
      || platform.overflows (add_seconds now (times amount k))

  -- `_split(now + float(amount) * _UNIT_SECONDS[unit])` if `_RELATIVE` matches.
  unfoldable pub split_relative_or : Option (Seconds × ℕ) → Result Stamp → Result Stamp
  unfolding split_number add_seconds times
  split_relative_or none rest = rest
  split_relative_or (some (amount, k)) rest =
      split_number
        (if offset_overflows amount k then infinite else finite (add_seconds now (times amount k)))

  unfoldable pub parse_text : String → Result Stamp
  unfolding strip_spaces relative parse_absolute split_relative_or
  parse_text original =
      let stripped = strip_spaces original in
      split_relative_or (relative stripped) (parse_absolute original stripped)

  unfoldable pub parse_time : TimeArg → Result Stamp
  unfolding parse_text split_number split_instant
  parse_time (instant parsed) = split_instant parsed
  parse_time (number n) = split_number n
  parse_time (written original) = parse_text original
  parse_time other = err (invalid_request not_a_time)

  -- `at=` of set_stamp, which passes no time of its own for now.
  abbrev pub at_of : Option TimeArg → At
  at_of none = none
  at_of (some value) = some (parse_time value)
