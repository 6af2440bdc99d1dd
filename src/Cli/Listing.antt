-- ===== src/Cli/Listing.antt =====
-- format_clock_time, format_schedule, format_status and format_bag_summary of
-- packages/rosbag2_dynamic_recorder_cli/rosbag2_dynamic_recorder_cli/format.py: blocks as lists of lines.
use rosbag2_dynamic_recorder.Base.{
  ℕ, ◌+◌, ◌*◌, ◌==◌, String, Bool, Option, none, some, List, [], ◌∷◌, ◌++◌, map, length, is_empty,
  str_eq, if◌then◌else◌,
}
use rosbag2_dynamic_recorder.Base.Int.{pos, sub_ℕ}
use rosbag2_dynamic_recorder.Base.Seconds.{Seconds}
use rosbag2_dynamic_recorder.Base.Text.{append, str, fixed, left_in, right_in, is_blank}
use rosbag2_dynamic_recorder.Bag.Live.{Rate}
use rosbag2_dynamic_recorder.Bag.Report.{ChannelStats, BagSummary, Warning, duration}
use rosbag2_dynamic_recorder.Bag.Windows.{Window}
use rosbag2_dynamic_recorder.Results.Events.{nanoseconds_per_second}
use rosbag2_dynamic_recorder.Results.Status.{Status, Scheduled}
use rosbag2_dynamic_recorder.Cli.{state_word, format_topic_loss}
use rosbag2_dynamic_recorder.Cli.Format.{format_duration, format_bytes, free_space_text}

abbrev pub label_width : ℕ
label_width = 14

abbrev pub or_text : String → String → String
or_text s default = if is_blank s then default else s

-- `_row`
unfoldable pub format_row : String → String → String
unfolding append left_in
format_row label value =
    append (left_in label_width (if is_blank label then "" else append label ":")) value

-- A number of nanoseconds, as seconds.
abbrev pub in_seconds : ℕ → Seconds
in_seconds n = record { num = pos n; den = nanoseconds_per_second }

-- One row for each value, the label on the first only.
abbrev pub labelled : String → List String → List String
unfolding format_row
labelled label [] = []
labelled label (value ∷ values) = format_row label value ∷ map (format_row "") values

abbrev pub missed_text : Option ℕ → String
unfolding str
missed_text none = "unknown (this middleware supplies no publication sequence numbers)"
missed_text (some missed) = str missed

abbrev pub disk_text : Status Seconds → String
unfolding append format_bytes
disk_text status = append (format_bytes status.bag_size_bytes) (
    append
      (if status.max_bag_size == 0
        then ""
        else append " of " (append (format_bytes status.max_bag_size) " allowed"))
      " (flushed; the writer caches, so this lags what is captured)")

module _ (date_text : Seconds → String) where
  -- `date_text` is the local date and time of an instant, by strftime.
  unfoldable pub format_clock_time : ℕ → Bool → String
  unfolding append fixed
  format_clock_time seconds use_sim_time =
      if use_sim_time
      then append "t=" (append (fixed 1 (in_seconds seconds)) "s on the simulation clock")
      else date_text (in_seconds seconds)

  unfoldable pub format_schedule : Bool → Scheduled → String
  unfolding append format_clock_time
  format_schedule use_sim_time scheduled =
      let at_when =
        append scheduled.action
          (append " at " (format_clock_time scheduled.at_time use_sim_time)) in
      if str_eq scheduled.mode "node"
      then append at_when " (node time, fires on a timer)"
      else append at_when (
          append " by " (
            append scheduled.mode (
              append " time, on "
                (append (or_text scheduled.topic "any recorded topic") " (waits for traffic)"))))

module _ (general date_text : Seconds → String) where
  unfoldable pub format_status : Status Seconds → List String
  unfolding append str format_row state_word format_duration disk_text missed_text free_space_text
      format_topic_loss format_schedule labelled
  format_status status =
      format_row "recorder" status.recorder
        ∷ format_row "state" (state_word status)
        ∷ format_row "bag" (append status.uri (append " [" (append status.storage_id "]")))
        ∷ format_row "elapsed" (format_duration status.elapsed_seconds)
        ∷ format_row "profile"
            (or_text status.active_profile "(none matches the current selection)")
        ∷ format_row "topics" (append (str (length status.subscribed_topics)) " subscribed")
        ∷ map (format_row "") status.subscribed_topics
      ++ format_row "written" (str status.messages_written)
        ∷ format_row "missed" (missed_text status.messages_missed)
        ∷ format_row "lost (transport)" (
            append (str status.messages_lost_in_transport)
              " (as reported by the transport, which can miss losses)")
        ∷ format_row "lost (recorder)" (
            append (str status.messages_lost_in_recorder)
              " (dropped by the writer: cache full or write failed)")
        ∷ format_row "write errors" (str status.write_errors)
        ∷ format_row "splits" (str status.bag_splits)
        ∷ format_row "on disk" (disk_text status)
        ∷ format_row "free space" (free_space_text general status)
        ∷ labelled "by topic" (map format_topic_loss status.topic_losses)
      ++ labelled "scheduled" (map (format_schedule date_text status.use_sim_time) status.schedules)

-- The time from one stamp to another.
abbrev pub seconds_between : ℕ → ℕ → Seconds
seconds_between from to = record { num = sub_ℕ to from; den = nanoseconds_per_second }

-- A window, from the start of the bag.
abbrev pub pause_line : ℕ → Window → String
unfolding append fixed
pause_line start (begin, end) = append "  " (
    append (fixed 1 (seconds_between start begin)) (
      append "s to " (
        append (fixed 1 (seconds_between start end))
          (append "s  (" (append (fixed 2 (seconds_between begin end)) "s)")))))

abbrev pub seconds_text : Option ℕ → String
unfolding append fixed
seconds_text none = "?"
seconds_text (some value) = append (fixed 1 (in_seconds value)) "s"

abbrev pub rate_text : Rate → String
unfolding append fixed
rate_text rate =
    append
      (fixed 2
        (record { num = pos (rate.messages * nanoseconds_per_second); den = rate.nanoseconds }))
      " Hz"

-- `row.format`
unfoldable pub format_columns :
    String → String → String → String → String → String → String → String
unfolding append left_in right_in
format_columns topic msgs recorded active rate averaged basis = append (left_in 34 topic) (
    append (right_in 8 msgs) (
      append (right_in 10 recorded) (
        append (right_in 9 active)
          (append (right_in 11 rate) (append (right_in 12 averaged) basis)))))

unfoldable pub format_channel : ChannelStats → String
unfolding append str format_columns seconds_text rate_text
format_channel channel =
    format_columns channel.topic (str channel.count) (seconds_text channel.recorded_seconds)
      (seconds_text channel.active_seconds)
      (elim channel.rate [ none ↦ "unknown" | some rate ↦ rate_text rate ])
      (rate_text channel.averaged_rate)
      (if str_eq channel.basis "events" then "" else append "  (" (append channel.basis ")"))

abbrev pub total_count : List ChannelStats → ℕ
total_count [] = 0
total_count (channel ∷ channels) = channel.count + total_count channels

-- Lines under a heading, if there are any.
abbrev pub under : List String → List String → List String
under heading [] = []
under heading (line ∷ lines) = heading ++ line ∷ lines

module _ (warning_text : Warning → String) where
  -- `warning_text` is the text of a warning.
  unfoldable pub format_bag_summary : BagSummary → List String
  unfolding append str fixed duration format_columns format_channel pause_line
  format_bag_summary summary =
      let warnings = map warning_text summary.warnings in
      if is_empty summary.channels
      then append summary.uri ": nothing to report" ∷ warnings
      else append summary.uri (
            append "  " (
              append (fixed 1 (in_seconds (duration summary))) (
                append "s  " (
                  append (str (total_count summary.channels)) (
                    append " messages on " (append (str (length summary.channels)) " channels"))))))
          ∷ ""
          ∷ format_columns "topic" "msgs" "recorded" "active" "rate" "averaged" ""
          ∷ map format_channel summary.channels
        ++ ""
          ∷ "recorded is how long the channel was subscribed and not paused; active trims that"
          ∷ "to when messages were really arriving, and rate is counted over active."
          ∷ "averaged is count over the whole bag -- what ros2 bag info and mcap info report."
          ∷ under ("" ∷ "paused:" ∷ []) (map (pause_line summary.start) summary.pause_windows)
        ++ under ("" ∷ []) (map (append "warning: ") warnings)
