-- ===== src/Tests/Responses.antt =====
-- A response with nothing in it, for the runs against a recorder.
use rosbag2_dynamic_recorder.Base.{false, none, []}
use rosbag2_dynamic_recorder.Base.Seconds.{Seconds, whole}
use rosbag2_dynamic_recorder.Errors.{Response}
use rosbag2_dynamic_recorder.Results.Events.{Time}
use rosbag2_dynamic_recorder.Results.Status.{StatusMsg}

abbrev pub epoch : Time
epoch = record { sec = 0; nanosec = 0 }

abbrev pub blank_status : StatusMsg Seconds
blank_status = record {
  uri = "";
  storage_id = "";
  recording = false;
  paused = false;
  snapshot_mode = false;
  recording_started = epoch;
  elapsed_seconds = whole 0;
  subscribed_topics = [];
  active_profile = "";
  messages_written = 0;
  messages_missed = 0;
  messages_lost_in_transport = 0;
  messages_lost_in_recorder = 0;
  messages_lost = 0;
  write_errors = 0;
  bag_splits = 0;
  bag_size_bytes = 0;
  sequence_numbers_available = false;
  free_space_bytes = 0;
  total_space_bytes = 0;
  min_free_space = 0;
  min_free_space_percent = whole 0;
  stopped_for_low_disk = false;
  max_bag_size = 0;
  stopped_for_max_bag_size = false;
  use_sim_time = false;
  waiting_for_clock = false;
  schedules = [];
  topic_losses = [];
  stamp = epoch;
}

abbrev pub blank : Response
blank = record {
  return_code = none;
  error_string = none;
  subscribed_topics = none;
  unsubscribed_topics = none;
  unavailable_topics = none;
  not_subscribed_topics = none;
  success = false;
  paused = false;
  topics = [];
  status = blank_status;
  profiles = [];
  active_profile = "";
}
