-- ===== src/Results/Status.antt =====
-- Status.from_msg, Scheduled.from_msg and TopicLoss.from_msg of packages/dynrec/dynrec/results.py.
-- `Float` is the type of the float64 fields, which are only passed on.
use rosbag2_dynamic_recorder.Base.{
  ℕ, String, ◌≡◌, Bool, true, false, Option, none, some, List, [], ◌∷◌, map, if◌then◌else◌, refl,
  ap,
}
use rosbag2_dynamic_recorder.Results.Words.{action_name, schedule_actions, schedule_modes}
use rosbag2_dynamic_recorder.Results.Events.{Time, stamp_seconds}

pub record ScheduledMsg : Type 0 where
  pub action : ℕ
  pub time : Time
  pub mode : ℕ
  pub tracking_topic : String

pub record Scheduled : Type 0 where
  pub action : String
  pub at_time : ℕ
  pub mode : String
  pub topic : String

unfoldable pub scheduled_from_msg : ScheduledMsg → Scheduled
scheduled_from_msg msg = record {
  action = action_name schedule_actions msg.action;
  at_time = stamp_seconds msg.time;
  mode = action_name schedule_modes msg.mode;
  topic = msg.tracking_topic;
}

pub record TopicLossMsg : Type 0 where
  pub topic_name : String
  pub messages_missed : ℕ
  pub messages_lost_in_transport : ℕ
  pub messages_lost_in_recorder : ℕ

pub record TopicLoss : Type 0 where
  pub topic : String
  pub missed : Option ℕ
  pub lost_in_transport : ℕ
  pub lost_in_recorder : ℕ

abbrev pub topic_loss_from_msg : Bool → TopicLossMsg → TopicLoss
topic_loss_from_msg sequence_ok msg = record {
  topic = msg.topic_name;
  missed = if sequence_ok then some msg.messages_missed else none;
  lost_in_transport = msg.messages_lost_in_transport;
  lost_in_recorder = msg.messages_lost_in_recorder;
}

pub record StatusMsg (Float : Type 0) : Type 0 where
  pub uri : String
  pub storage_id : String
  pub recording : Bool
  pub paused : Bool
  pub snapshot_mode : Bool
  pub recording_started : Time
  pub elapsed_seconds : Float
  pub subscribed_topics : List String
  pub active_profile : String
  pub messages_written : ℕ
  pub messages_missed : ℕ
  pub messages_lost_in_transport : ℕ
  pub messages_lost_in_recorder : ℕ
  pub messages_lost : ℕ
  pub write_errors : ℕ
  pub bag_splits : ℕ
  pub bag_size_bytes : ℕ
  pub sequence_numbers_available : Bool
  pub free_space_bytes : ℕ
  pub total_space_bytes : ℕ
  pub min_free_space : ℕ
  pub min_free_space_percent : Float
  pub stopped_for_low_disk : Bool
  pub max_bag_size : ℕ
  pub stopped_for_max_bag_size : Bool
  pub use_sim_time : Bool
  pub waiting_for_clock : Bool
  pub schedules : List ScheduledMsg
  pub topic_losses : List TopicLossMsg
  pub stamp : Time

pub record Status (Float : Type 0) : Type 0 where
  pub recorder : String
  pub uri : String
  pub storage_id : String
  pub recording : Bool
  pub paused : Bool
  pub snapshot_mode : Bool
  pub recording_started : ℕ
  pub elapsed_seconds : Float
  pub subscribed_topics : List String
  pub active_profile : String
  pub messages_written : ℕ
  pub messages_missed : Option ℕ
  pub messages_lost_in_transport : ℕ
  pub messages_lost_in_recorder : ℕ
  pub messages_lost_reported : ℕ
  pub write_errors : ℕ
  pub bag_splits : ℕ
  pub bag_size_bytes : ℕ
  pub sequence_numbers_available : Bool
  pub free_space_bytes : ℕ
  pub total_space_bytes : ℕ
  pub min_free_space : ℕ
  pub min_free_space_percent : Float
  pub stopped_for_low_disk : Bool
  pub max_bag_size : ℕ
  pub stopped_for_max_bag_size : Bool
  pub use_sim_time : Bool
  pub waiting_for_clock : Bool
  pub schedules : List Scheduled
  pub topic_losses : List TopicLoss
  pub stamp : ℕ

module _ {Float : Type 0} where
  unfoldable pub status_from_msg : StatusMsg Float → String → Status Float
  status_from_msg msg recorder = record {
    recorder = recorder;
    uri = msg.uri;
    storage_id = msg.storage_id;
    recording = msg.recording;
    paused = msg.paused;
    snapshot_mode = msg.snapshot_mode;
    recording_started = stamp_seconds msg.recording_started;
    elapsed_seconds = msg.elapsed_seconds;
    subscribed_topics = msg.subscribed_topics;
    active_profile = msg.active_profile;
    messages_written = msg.messages_written;
    messages_missed = if msg.sequence_numbers_available then some msg.messages_missed else none;
    messages_lost_in_transport = msg.messages_lost_in_transport;
    messages_lost_in_recorder = msg.messages_lost_in_recorder;
    messages_lost_reported = msg.messages_lost;
    write_errors = msg.write_errors;
    bag_splits = msg.bag_splits;
    bag_size_bytes = msg.bag_size_bytes;
    sequence_numbers_available = msg.sequence_numbers_available;
    free_space_bytes = msg.free_space_bytes;
    total_space_bytes = msg.total_space_bytes;
    min_free_space = msg.min_free_space;
    min_free_space_percent = msg.min_free_space_percent;
    stopped_for_low_disk = msg.stopped_for_low_disk;
    max_bag_size = msg.max_bag_size;
    stopped_for_max_bag_size = msg.stopped_for_max_bag_size;
    use_sim_time = msg.use_sim_time;
    waiting_for_clock = msg.waiting_for_clock;
    schedules = map scheduled_from_msg msg.schedules;
    topic_losses = map (topic_loss_from_msg msg.sequence_numbers_available) msg.topic_losses;
    stamp = stamp_seconds msg.stamp;
  }

abbrev or_nothing : Option ℕ → List ℕ → List ℕ
or_nothing none ns = ns
or_nothing (some n) ns = n ∷ ns

-- The figures for missed messages that a status reports: its total and one for each topic.
abbrev known_missed : List TopicLoss → List ℕ
known_missed [] = []
known_missed (loss ∷ losses) = or_nothing loss.missed (known_missed losses)

module _ {Float : Type 0} where
  abbrev pub missed_figures : Status Float → List ℕ
  missed_figures status = or_nothing status.messages_missed (known_missed status.topic_losses)

  -- A status reports the missed-message figures of its message, the total and then one for each topic
  -- with losses, exactly when sequence numbers are available. Without them it reports no figure at
  -- all, the zeros of the message included.
  pub status_from_msg-missed :
      (msg : StatusMsg Float) (recorder : String)
      → missed_figures (status_from_msg msg recorder) ≡ (
          if msg.sequence_numbers_available
          then msg.messages_missed ∷ map (λ loss. loss.messages_missed) msg.topic_losses
          else [])
  unfolding status_from_msg
  status_from_msg-missed msg recorder = go msg.sequence_numbers_available
    where
      known :
          (losses : List TopicLossMsg)
          → known_missed (map (topic_loss_from_msg true) losses)
            ≡ map (λ loss. loss.messages_missed) losses
      known [] = refl
      known (loss ∷ losses) = ap (◌∷◌ loss.messages_missed) (known losses)

      unknown :
          (losses : List TopicLossMsg) → known_missed (map (topic_loss_from_msg false) losses) ≡ []
      unknown [] = refl
      unknown (loss ∷ losses) = unknown losses

      go :
          (ok : Bool)
          → or_nothing
              (if ok then some msg.messages_missed else none)
              (known_missed (map (topic_loss_from_msg ok) msg.topic_losses))
            ≡ (if ok
                then msg.messages_missed ∷ map (λ loss. loss.messages_missed) msg.topic_losses
                else [])
      go true = ap (◌∷◌ msg.messages_missed) (known msg.topic_losses)
      go false = unknown msg.topic_losses
