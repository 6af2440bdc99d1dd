-- ===== src/Cli/Format.antt =====
-- format_duration, format_bytes, format_scheduled and free_space_text of
-- packages/rosbag2_dynamic_recorder_cli/rosbag2_dynamic_recorder_cli/format.py.
pub mod Duration
pub mod Bytes
use rosbag2_dynamic_recorder.Base.{
  ℕ, zero, suc, ◌*◌, ◌/◌, ◌%◌, ◌==◌, String, Bool, true, false, not, Option, none, some, List, [],
  ◌∷◌, ◌++◌, ltb, is_empty, str_eq, if◌then◌else◌,
}
use rosbag2_dynamic_recorder.Base.Int.{ℤ, pos, negsuc}
use rosbag2_dynamic_recorder.Base.Seconds.{Seconds, whole}
use rosbag2_dynamic_recorder.Base.Text.{append, str, with_zeros, fixed, is_blank}
use rosbag2_dynamic_recorder.Client.Connect.{join}
use rosbag2_dynamic_recorder.Results.Status.{Status}

-- `'{}h {:02d}m {:02d}s'` and `'{}m {:02d}s'`, of whole seconds.
unfoldable pub hours_minutes : ℕ → String
unfolding append str with_zeros
hours_minutes seconds =
    let hours = seconds / 3600 in
    let minutes = seconds % 3600 / 60 in
    let secs = seconds % 3600 % 60 in
    let tail = append "m " (append (with_zeros 2 secs) "s") in
    if hours == 0
    then append (str minutes) tail
    else append (str hours) (append "h " (append (with_zeros 2 minutes) tail))

-- `format_duration`; the maximum with 0 is taken first.
unfoldable pub format_duration : Seconds → String
unfolding append fixed hours_minutes
format_duration seconds = elim seconds.num [
  | negsuc n ↦ append (fixed 1 (whole 0)) "s"
  | pos n ↦
      if ltb n (60 * seconds.den)
      then append (fixed 1 seconds) "s"
      else hours_minutes (n / seconds.den)
]

abbrev pub units : List String
units = "KiB" ∷ "MiB" ∷ "GiB" ∷ "TiB" ∷ []

-- The loop: the divisor of the count, and the unit.
unfoldable pub scaled : ℕ → ℕ → String → List String → ℕ × String
scaled count size unit [] = (size, unit)
scaled count size unit (larger ∷ more) =
    let rest = scaled count (size * 1024) larger more in
    if ltb count (size * 1024) then (size, unit) else rest

unfoldable pub format_bytes : ℕ → String
unfolding append str fixed scaled
format_bytes count =
    let (size, unit) = scaled count 1 "B" units in
    if str_eq unit "B"
    then append (str count) " B"
    else append (fixed 1 (record { num = pos count; den = size })) (append " " unit)

-- `format_scheduled`; `left` is the time from now until `at`.
unfoldable pub format_scheduled : String → String → Option Seconds → String → String
unfolding append format_duration
format_scheduled done noun none mode = done
format_scheduled done noun (some left) mode = append noun (
    append " scheduled in " (
      append (format_duration left)
        (if is_blank mode then "" else append " (" (append mode " time)"))))

-- The numbers that are not zero.
abbrev pub is_zero : Seconds → Bool
is_zero seconds = elim seconds.num [ pos zero ↦ true | _ ↦ false ]

abbrev pub floor_if : Bool → String → List String
floor_if true text = []
floor_if false text = text ∷ []

module _ (general : Seconds → String) where
  -- `general` is `'{:g}'.format`.
  unfoldable pub free_space_text : Status Seconds → String
  unfolding append format_bytes
  free_space_text status =
      let text =
        append (format_bytes status.free_space_bytes)
          (append " of " (format_bytes status.total_space_bytes)) in
      let floors =
        floor_if (status.min_free_space == 0) (format_bytes status.min_free_space)
        ++ floor_if (is_zero status.min_free_space_percent)
            (append (general status.min_free_space_percent) "%") in
      if status.total_space_bytes == 0
      then "unknown (the bag filesystem could not be read)"
      else if is_empty floors
      then text
      else append text (append " (recording stops below " (append (join " or " floors) ")"))
