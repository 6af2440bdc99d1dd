-- ===== src/Results/Events.antt =====
-- The events of packages/dynrec/dynrec/results.py. `EventMsg` has the fields that the five event
-- messages have between them; each constructor reads the fields of its own message.
use rosbag2_dynamic_recorder.Base.{ℕ, ◌+◌, ◌*◌, String, List, [], ◌∷◌}
use rosbag2_dynamic_recorder.Results.Words.{
  subscription_actions, pause_actions, stop_actions, action_name,
}

abbrev pub nanoseconds_per_second : ℕ
nanoseconds_per_second = 1_000_000_000

-- builtin_interfaces/Time
pub record Time : Type 0 where
  pub sec : ℕ
  pub nanosec : ℕ

-- `_stamp_seconds`, kept in nanoseconds.
abbrev pub stamp_seconds : Time → ℕ
stamp_seconds stamp = stamp.sec * nanoseconds_per_second + stamp.nanosec

pub record EventMsg : Type 0 where
  pub stamp : Time
  pub action : ℕ
  pub reason : String
  pub node_name : String
  pub topic_name : String
  pub topic_type : String
  pub free_space_bytes : ℕ
  pub total_space_bytes : ℕ
  pub bag_size_bytes : ℕ
  pub max_bag_size : ℕ
  pub closed_file : String
  pub opened_file : String

pub record Event : Type 0 where
  pub kind : String
  pub action : String
  pub stamp : ℕ
  pub reason : String
  pub node_name : String
  pub topic : String
  pub topic_type : String
  pub free_space_bytes : ℕ
  pub total_space_bytes : ℕ
  pub bag_size_bytes : ℕ
  pub max_bag_size : ℕ
  pub closed_file : String
  pub opened_file : String

-- `_from_msg` with no kind-specific fields: those have their defaults.
abbrev pub from_msg : String → String → EventMsg → Event
from_msg kind action msg = record {
  kind = kind;
  action = action;
  stamp = stamp_seconds msg.stamp;
  reason = msg.reason;
  node_name = msg.node_name;
  topic = "";
  topic_type = "";
  free_space_bytes = 0;
  total_space_bytes = 0;
  bag_size_bytes = 0;
  max_bag_size = 0;
  closed_file = "";
  opened_file = "";
}

abbrev pub from_subscription_msg : EventMsg → Event
from_subscription_msg msg =
    record (from_msg "subscription" (action_name subscription_actions msg.action) msg) {
      topic = msg.topic_name;
      topic_type = msg.topic_type;
    }

abbrev pub from_pause_msg : EventMsg → Event
from_pause_msg msg = from_msg "pause" (action_name pause_actions msg.action) msg

abbrev pub from_file_split_msg : EventMsg → Event
from_file_split_msg msg = record (from_msg "split" "split" msg) {
  closed_file = msg.closed_file;
  opened_file = msg.opened_file;
}

abbrev pub from_low_disk_msg : EventMsg → Event
from_low_disk_msg msg = record (from_msg "low_disk" (action_name stop_actions msg.action) msg) {
  free_space_bytes = msg.free_space_bytes;
  total_space_bytes = msg.total_space_bytes;
}

abbrev pub from_bag_size_limit_msg : EventMsg → Event
from_bag_size_limit_msg msg =
    record (from_msg "bag_size_limit" (action_name stop_actions msg.action) msg) {
      bag_size_bytes = msg.bag_size_bytes;
      max_bag_size = msg.max_bag_size;
    }

-- A row of EVENT_STREAMS: the topic suffix, the message type and the constructor.
abbrev pub Stream : Type 0
Stream = String × String × (EventMsg → Event)

abbrev pub event_streams : List Stream
event_streams =
    ("/events/subscription_change", "SubscriptionChangeEvent", from_subscription_msg)
    ∷ ("/events/pause", "PauseEvent", from_pause_msg)
    ∷ ("/events/file_split", "FileSplitEvent", from_file_split_msg)
    ∷ ("/events/low_disk", "LowDiskEvent", from_low_disk_msg)
    ∷ ("/events/bag_size_limit", "BagSizeLimitEvent", from_bag_size_limit_msg)
    ∷ []
