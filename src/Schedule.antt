-- ===== src/Schedule.antt =====
-- packages/dynrec/dynrec/schedule.py: times and modes, as the scheduled services take them. A number
-- of seconds is a fraction; the program has a float there.
pub mod Split
pub mod Time
use rosbag2_dynamic_recorder.Base.{
  ℕ, suc, ◌≡◌, ◌<◌, refl, arith, ◌+◌, ◌-◌, ◌*◌, ◌/◌, ◌%◌, String, Bool, true, false, not, ◌&&◌,
  Option, none, some, List, [], ◌∷◌, ltb, leb, ◌==◌, str_eq, any, if◌then◌else◌,
}
use rosbag2_dynamic_recorder.Base.Seconds.{Seconds, round, scale}
use rosbag2_dynamic_recorder.Base.Int.{ℤ, pos, negsuc, pos_part, neg_part, sub_ℕ, ◌+ℤ◌}
use rosbag2_dynamic_recorder.Errors.{
  invalid_request, unknown_mode, fault, assertion_error, Result, ok, err, ◌>>=◌,
}
use rosbag2_dynamic_recorder.Results.Events.{nanoseconds_per_second}

-- The nanoseconds in what `int(seconds)` leaves of n / d seconds.
abbrev pub rest_nanoseconds : ℕ → ℕ → ℕ
rest_nanoseconds n d = round (n % d * nanoseconds_per_second) d

abbrev pub carry : ℕ → ℕ → ℤ × ℤ
carry whole nanoseconds =
    if leb nanoseconds_per_second nanoseconds
    then (pos (whole + 1), pos (nanoseconds - nanoseconds_per_second))
    else (pos whole, pos nanoseconds)

-- `int` cuts towards zero, so the parts of a negative time are both negative or zero, and the
-- test for a full second fails.
unfoldable pub split : Seconds → ℤ × ℤ
split seconds = elim seconds.num [
  | pos n ↦ carry (n / seconds.den) (rest_nanoseconds n seconds.den)
  | negsuc m ↦ (sub_ℕ 0 (suc m / seconds.den), sub_ℕ 0 (rest_nanoseconds (suc m) seconds.den))
]

-- The argument of `mode=`.
pub data Mode : Type 0 where
  number : ℕ → Mode
  word : String → Mode
  other : Mode

abbrev pub time_modes : List (String × ℕ)
time_modes = ("node", 0) ∷ ("publish", 1) ∷ ("receive", 2) ∷ []

abbrev pub get_mode : String → List (String × ℕ) → Result ℕ
get_mode value [] = err (invalid_request unknown_mode)
get_mode value ((name, k) ∷ modes) = if str_eq value name then ok k else get_mode value modes

unfoldable pub parse_mode : Mode → Result ℕ
parse_mode (number k) =
    if any (λ m. k == m.1) time_modes then ok k else err (invalid_request unknown_mode)
parse_mode (word value) = get_mode value time_modes
parse_mode other = err (invalid_request unknown_mode)

-- builtin_interfaces/Time, as the client sets it.
abbrev pub Stamp : Type 0
Stamp = ℤ × ℤ

abbrev pub zero_stamp : Stamp
zero_stamp = (pos 0, pos 0)

-- `stamp.sec + stamp.nanosec / NANOSECONDS_PER_SECOND`, the epoch time of a stamp.
unfoldable pub seconds_of : Stamp → Seconds
unfolding ◌+ℤ◌
seconds_of (sec, nanosec) = record {
  num = scale nanoseconds_per_second sec +ℤ nanosec;
  den = nanoseconds_per_second;
}

-- `at`: absent, or what parse_time makes of it.
abbrev pub At : Type 0
At = Option (Result Stamp)

-- Whether `sec` is an int32 and `nanosec` a uint32.
unfoldable pub fits : Stamp → Bool
fits (sec, nanosec) =
    leb (neg_part sec) 2_147_483_648
    && ltb (pos_part sec) 2_147_483_648
    && neg_part nanosec == 0
    && ltb (pos_part nanosec) 4_294_967_296

-- The stamp that the request gets, and the time that is returned: None for now. The fields of the
-- message class assert their ranges.
unfoldable pub set_stamp : At → Result (Stamp × Option Stamp)
unfolding fits
set_stamp none = ok (zero_stamp, none)
set_stamp (some parsed) = do
  stamp ← parsed
  if fits stamp then ok (stamp, some stamp) else err (fault assertion_error)

pub set_stamp-fits :
    (stamp : Stamp) → fits stamp ≡ true → set_stamp (some (ok stamp)) ≡ ok (stamp, some stamp)
unfolding set_stamp
set_stamp-fits stamp h = rw h refl

pub fits-pos :
    (sec nanosec : ℕ)
    → sec < 2_147_483_648
    → nanosec < nanoseconds_per_second
    → fits (pos sec, pos nanosec) ≡ true
unfolding fits
fits-pos sec nanosec h k = ground arith

-- The fields of a request that can be scheduled.
pub record Timing : Type 0 where
  pub tracking_topic_name : String
  pub mode : ℕ
  pub stamp : Stamp

unfoldable pub apply_schedule : At → Mode → String → Result (Timing × Option Stamp)
unfolding parse_mode set_stamp
apply_schedule at_time mode tracking_topic = do
  k ← parse_mode mode
  (stamp, scheduled) ← set_stamp at_time
  ok (record { tracking_topic_name = tracking_topic; mode = k; stamp = stamp }, scheduled)
