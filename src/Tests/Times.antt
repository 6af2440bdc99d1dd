-- ===== src/Tests/Times.antt =====
-- Runs of parse_time of packages/dynrec/dynrec/schedule.py, on a clock that shows UTC.
use rosbag2_dynamic_recorder.Base.{
  ℕ, ◌+◌, ◌*◌, ◌/◌, ◌≡◌, refl, String, Bool, false, Option, none, some, str_eq, if◌then◌else◌,
}
use rosbag2_dynamic_recorder.Base.Int.{pos, pos_part}
use rosbag2_dynamic_recorder.Base.Seconds.{Seconds, whole, add_seconds, times, is_after, round}
use rosbag2_dynamic_recorder.Base.Text.{append, str}
use rosbag2_dynamic_recorder.Errors.{
  ok, err, invalid_request, unreadable_time, bad_time_of_day, fault, overflow_error, value_error,
}
use rosbag2_dynamic_recorder.Schedule.{split}
use rosbag2_dynamic_recorder.Schedule.Time.{
  Platform, Number, Instant, timestamped, raised, offset_overflows, infinite, written, parse_time,
  unit_seconds,
}
use rosbag2_dynamic_recorder.Schedule.Time.Forms.{parse_time-offset, parse_time-seconds}

abbrev pub day_of : Seconds → ℕ × Bool
day_of now = (pos_part now.num / now.den / 86400, false)

abbrev pub instant_of : ℕ → Bool → ℕ → Instant
instant_of day fold second = timestamped (whole (day * 86400 + second))

abbrev pub spelled : String → Option Number
spelled text = if str_eq text "inf" then some infinite else none

-- The first day of the calendar, local time, has no timestamp.
abbrev pub iso : String → Option Instant
iso text = if str_eq text "0001-01-01" then some (raised value_error) else none

-- A stand-in for the largest float.
abbrev pub is_past : Seconds → Bool
unfolding is_after
is_past seconds = is_after seconds (whole 1_000_000_000_000)

abbrev pub utc : Platform
utc = record {
  local_date = day_of;
  timestamp = instant_of;
  other_float = spelled;
  overflows = is_past;
  from_iso = iso;
}

-- A quarter past one on the first day.
abbrev pub one_fifteen : Seconds
one_fifteen = whole 47700

parse_time-five : parse_time utc one_fifteen (written " 5:00 ") ≡ ok (pos 104400, pos 0)
unfolding parse_time round
parse_time-five = refl

parse_time-decimal : parse_time utc one_fifteen (written "+1.5m") ≡ ok (pos 47790, pos 0)
unfolding parse_time round
parse_time-decimal = refl

parse_time-late :
    parse_time utc one_fifteen (written "24:00") ≡ err (invalid_request (bad_time_of_day "24:00"))
unfolding parse_time
parse_time-late = refl

parse_time-unread :
    parse_time utc one_fifteen (written "5:0") ≡ err (invalid_request (unreadable_time "5:0"))
unfolding parse_time
parse_time-unread = refl

parse_time-first_day : parse_time utc one_fifteen (written "0001-01-01") ≡ err (fault value_error)
unfolding parse_time
parse_time-first_day = refl

parse_time-long : parse_time utc one_fifteen (written "9999999999999") ≡ err (fault overflow_error)
unfolding parse_time is_after
parse_time-long = refl

parse_time-inf : parse_time utc one_fifteen (written "inf") ≡ err (fault overflow_error)
unfolding parse_time
parse_time-inf = refl

unit_seconds-m : unit_seconds "m" ≡ some 60
unfolding unit_seconds
unit_seconds-m = refl

parse_time-offset_example :
    parse_time utc one_fifteen (written (append "+" (append (str 5) "m"))) ≡ (
      if offset_overflows utc one_fifteen (whole 5) 60
      then err (fault overflow_error)
      else ok (split (add_seconds one_fifteen (times (whole 5) 60))))
parse_time-offset_example = parse_time-offset utc one_fifteen 5 60 "m" unit_seconds-m

parse_time-seconds_example :
    parse_time utc one_fifteen (written (str 1756900000)) ≡ ok (pos 1756900000, pos 0)
unfolding is_past
parse_time-seconds_example = parse_time-seconds utc one_fifteen 1756900000 refl
