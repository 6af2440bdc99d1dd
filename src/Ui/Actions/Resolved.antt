-- ===== src/Ui/Actions/Resolved.antt =====
-- resolve_at of packages/rosbag2_dynamic_recorder_ui/rosbag2_dynamic_recorder_ui/ui_node.py: whose clock
-- a time is read by.
use rosbag2_dynamic_recorder.Base.{ℕ, ◌+◌, ◌*◌, ◌<◌, ◌≡◌, ap, ◌∙◌, false, some, arith}
use rosbag2_dynamic_recorder.Base.Int.{pos, ◌+ℤ◌, pos-+ℤ-pos}
use rosbag2_dynamic_recorder.Base.Seconds.{Seconds, scale}
use rosbag2_dynamic_recorder.Errors.{ok}
use rosbag2_dynamic_recorder.Results.Events.{nanoseconds_per_second}
use rosbag2_dynamic_recorder.Results.Status.{Status}
use rosbag2_dynamic_recorder.Schedule.{seconds_of, set_stamp, set_stamp-fits, fits-pos, split}
use rosbag2_dynamic_recorder.Schedule.Time.{
  Platform, TimeArg, parse_time, split_number, number, finite, at_of,
}
use rosbag2_dynamic_recorder.Schedule.Time.Forms.{split-stamp}
use rosbag2_dynamic_recorder.Ui.Actions.{
  Payload, is_now, recorder_now, resolve_at, resolve_by, resolved,
}

scale-pos : (k n : ℕ) → scale k (pos n) ≡ pos (k * n)
scale-pos k n = ground arith

seconds_of-pos :
    (sec nanosec : ℕ)
    → seconds_of (pos sec, pos nanosec) ≡ (record {
      num = pos (sec * nanoseconds_per_second + nanosec);
      den = nanoseconds_per_second;
    })
unfolding seconds_of
seconds_of-pos sec nanosec =
    ap (λ z. record { num = z +ℤ pos nanosec; den = nanoseconds_per_second })
      (scale-pos nanoseconds_per_second sec)
    ∙ ap (λ z. record { num = z; den = nanoseconds_per_second })
        (pos-+ℤ-pos (nanoseconds_per_second * sec) nanosec ∙ ap pos (omega arith))

split-seconds_of :
    (sec nanosec : ℕ)
    → nanosec < nanoseconds_per_second
    → split (seconds_of (pos sec, pos nanosec)) ≡ (pos sec, pos nanosec)
split-seconds_of sec nanosec low =
    ap split (seconds_of-pos sec nanosec) ∙ split-stamp sec nanosec low

module _ (platform : Platform) (status : Status Seconds) (age now : Seconds) where
  set_stamp-number :
      (sec nanosec : ℕ)
      → sec < 2_147_483_648
      → nanosec < nanoseconds_per_second
      → set_stamp (at_of platform now (some (number (finite (seconds_of (pos sec, pos nanosec))))))
        ≡ ok ((pos sec, pos nanosec), some (pos sec, pos nanosec))
  unfolding parse_time split_number
  set_stamp-number sec nanosec high low =
      ap (λ stamp. set_stamp (some (ok stamp))) (split-seconds_of sec nanosec low)
      ∙ set_stamp-fits (pos sec, pos nanosec) (fits-pos sec nanosec high low)

  -- A time that the page sends is sent to the recorder as the stamp that it stands for by the
  -- recorder's clock, as of its last status, whatever this machine's clock shows, if it is no blank
  -- text, can be read, and the stamp is one that builtin_interfaces/Time can hold.
  pub resolve_at-recorder_clock :
      (payload : Payload) (at_time : TimeArg) (sec nanosec : ℕ)
      → is_now (some at_time) ≡ false
      → parse_time platform (recorder_now status age) at_time ≡ ok (pos sec, pos nanosec)
      → sec < 2_147_483_648
      → nanosec < nanoseconds_per_second
      → (sent : TimeArg) × (resolve_at platform
            (record payload { at_time = some at_time })
            (some status)
            age
          ≡ ok (record payload { at_time = some sent }))
        × (set_stamp (at_of platform now (some sent))
            ≡ ok ((pos sec, pos nanosec), some (pos sec, pos nanosec)))
  unfolding resolve_at resolve_by
  resolve_at-recorder_clock payload at_time sec nanosec later parsed high low = (
    number (finite (seconds_of (pos sec, pos nanosec))),
    rw later (ap (resolved platform (record payload { at_time = some at_time })) parsed),
    set_stamp-number sec nanosec high low,
  )
