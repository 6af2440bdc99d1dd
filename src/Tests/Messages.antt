-- ===== src/Tests/Messages.antt =====
-- Runs of packages/dynrec/dynrec/results.py, topics.py, discovery.py and schedule.py.
use rosbag2_dynamic_recorder.Base.{ℕ, ◌<◌, ◌≡◌, refl, true, false, some, List, [], ◌∷◌, arith}
use rosbag2_dynamic_recorder.Base.Seconds.{round}
use rosbag2_dynamic_recorder.Base.Int.{pos}
use rosbag2_dynamic_recorder.Base.Text.{is_digits}
use rosbag2_dynamic_recorder.Errors.{ok}
use rosbag2_dynamic_recorder.Results.Words.{subscription_actions, IsTable}
use rosbag2_dynamic_recorder.Results.Events.{Time}
use rosbag2_dynamic_recorder.Results.Status.{StatusMsg, status_from_msg, missed_figures}
use rosbag2_dynamic_recorder.Topics.{Values, several, parse_topic_specs, spec}
use rosbag2_dynamic_recorder.Discovery.{Service, get_status_type, recorder_nodes, choose_recorder}
use rosbag2_dynamic_recorder.Schedule.{split, rest_nanoseconds}

subscription_actions-IsTable : IsTable subscription_actions
unfolding is_digits
subscription_actions-IsTable = (refl, refl, (refl, refl, tt))

abbrev epoch : Time
epoch = record { sec = 0; nanosec = 0 }

abbrev status_msg : StatusMsg ℕ
status_msg = record {
  uri = "bag";
  storage_id = "mcap";
  recording = true;
  paused = false;
  snapshot_mode = false;
  recording_started = epoch;
  elapsed_seconds = 7;
  subscribed_topics = "/camera" ∷ [];
  active_profile = "";
  messages_written = 40;
  messages_missed = 3;
  messages_lost_in_transport = 1;
  messages_lost_in_recorder = 0;
  messages_lost = 1;
  write_errors = 0;
  bag_splits = 0;
  bag_size_bytes = 1_000;
  sequence_numbers_available = true;
  free_space_bytes = 1_000;
  total_space_bytes = 2_000;
  min_free_space = 0;
  min_free_space_percent = 0;
  stopped_for_low_disk = false;
  max_bag_size = 0;
  stopped_for_max_bag_size = false;
  use_sim_time = false;
  waiting_for_clock = false;
  schedules = [];
  topic_losses =
      record {
        topic_name = "/camera";
        messages_missed = 3;
        messages_lost_in_transport = 1;
        messages_lost_in_recorder = 0;
      }
      ∷ [];
  stamp = epoch;
}

missed_figures-status_msg : missed_figures (status_from_msg status_msg "/recorder") ≡ 3 ∷ 3 ∷ []
unfolding status_from_msg
missed_figures-status_msg = refl

abbrev camera : Values
camera = several (spec "/camera" ∷ [])

camera-accepted : parse_topic_specs camera ≡ ok ("/camera" ∷ [], [])
unfolding parse_topic_specs
camera-accepted = refl

-- A recorder, a node with a service of that name and another type, and an unrelated one.
abbrev services : List Service
services =
    ("/r/get_status", get_status_type ∷ [])
    ∷ ("/lamp/get_status", "lamp_msgs/srv/GetStatus" ∷ [])
    ∷ ("/r/stop", "std_srvs/srv/Trigger" ∷ [])
    ∷ []

recorder_nodes-services : recorder_nodes services ≡ "/r" ∷ []
unfolding recorder_nodes
recorder_nodes-services = refl

chosen : choose_recorder ("/r" ∷ []) (some "") ≡ ok "/r"
unfolding choose_recorder
chosen = refl

-- 1.9999999999 seconds is carried to 2 seconds.
split-carry : split (record { num = pos 19_999_999_999; den = 10_000_000_000 }) ≡ (pos 2, pos 0)
unfolding split round
split-carry = refl

rest-positive : 0 < rest_nanoseconds 3 2
unfolding round
rest-positive = ground arith
