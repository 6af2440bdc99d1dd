-- ===== src/Bag/Plain.antt =====
-- BagSummary.as_dict of packages/dynrec/dynrec/bag.py: the report as plain data. Times are in nanoseconds,
-- and after the bag's start where the program has them relative.
use rosbag2_dynamic_recorder.Base.{ℕ, String, Bool, true, false, Option, none, some, List, map}
use rosbag2_dynamic_recorder.Base.Int.{ℤ, sub_ℕ}
use rosbag2_dynamic_recorder.Results.Events.{Event}
use rosbag2_dynamic_recorder.Bag.Live.{Rate}
use rosbag2_dynamic_recorder.Bag.Windows.{Window}
use rosbag2_dynamic_recorder.Bag.Report.{ChannelStats, BagSummary, Warning, duration}

pub record PlainChannel : Type 0 where
  pub topic : String
  pub message_type : String
  pub count : ℕ
  pub recorded_seconds : Option ℕ
  pub active_seconds : Option ℕ
  pub rate : Option Rate
  pub averaged_rate : Rate
  pub basis : String

pub record PlainReport : Type 0 where
  pub uri : String
  pub duration_seconds : ℕ
  pub channels : List PlainChannel
  pub pause_windows : List (ℤ × ℤ)
  pub unexplained_gaps : List (ℤ × ℤ)
  pub stopped_for_low_disk : Bool
  pub stopped_for_max_bag_size : Bool
  pub warnings : List Warning

abbrev pub plain_channel : ChannelStats → PlainChannel
plain_channel channel = record {
  topic = channel.topic;
  message_type = channel.message_type;
  count = channel.count;
  recorded_seconds = channel.recorded_seconds;
  active_seconds = channel.active_seconds;
  rate = channel.rate;
  averaged_rate = channel.averaged_rate;
  basis = channel.basis;
}

-- `relative`; a window can start before the bag does.
abbrev pub relative_to : ℕ → List Window → List (ℤ × ℤ)
relative_to start windows = map (λ w. (sub_ℕ w.0 start, sub_ℕ w.1 start)) windows

abbrev pub is_present : Option Event → Bool
is_present none = false
is_present (some event) = true

unfoldable pub as_dict : BagSummary → PlainReport
unfolding duration
as_dict summary = record {
  uri = summary.uri;
  duration_seconds = duration summary;
  channels = map plain_channel summary.channels;
  pause_windows = relative_to summary.start summary.pause_windows;
  unexplained_gaps = relative_to summary.start summary.unexplained_gaps;
  stopped_for_low_disk = is_present summary.low_disk_stop;
  stopped_for_max_bag_size = is_present summary.bag_size_limit_stop;
  warnings = summary.warnings;
}
