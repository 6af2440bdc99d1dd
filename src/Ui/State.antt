-- ===== src/Ui/State.antt =====
-- What the page shows: build_state, snapshot_state, _on_status and _on_event of
-- packages/rosbag2_dynamic_recorder_ui/rosbag2_dynamic_recorder_ui/ui_node.py. Readings of
-- time.monotonic are in nanoseconds.
pub mod Shown
use rosbag2_dynamic_recorder.Base.{
  ℕ, String, Bool, true, false, Option, none, some, List, [], ◌∷◌, leb,
}
use rosbag2_dynamic_recorder.Base.Int.{sub_ℕ}
use rosbag2_dynamic_recorder.Base.Seconds.{Seconds, whole, is_after}
use rosbag2_dynamic_recorder.Base.Sort.{sorted_by}
use rosbag2_dynamic_recorder.Results.Events.{Event, nanoseconds_per_second}
use rosbag2_dynamic_recorder.Results.Profiles.{Profiled}
use rosbag2_dynamic_recorder.Results.Status.{Status}
use rosbag2_dynamic_recorder.Ui.{add_to_history, available_topics}
use rosbag2_dynamic_recorder.Ui.Actions.{recorder_now}

abbrev pub stale_after_seconds : Seconds
stale_after_seconds = whole 5

-- What the page gets of a status.
pub record Told : Type 0 where
  pub status : Status Seconds
  pub stale : Bool
  pub recorder_now : Seconds

pub record PageState : Type 0 where
  pub connected : Bool
  pub recorder : String
  pub available_topics : List String
  pub history : List Event
  pub profiles : Profiled
  pub stale_after : Seconds
  pub told : Option Told

-- `age is not None and age > STALE_AFTER_SECONDS`
unfoldable pub is_stale : Option Seconds → Bool
unfolding is_after
is_stale none = false
is_stale (some age) = is_after age stale_after_seconds

-- `age or 0.0`
abbrev pub age_or_zero : Option Seconds → Seconds
age_or_zero none = whole 0
age_or_zero (some age) = age

abbrev pub told_of : Option (Status Seconds) → Option Seconds → Option Told
unfolding is_stale recorder_now
told_of none age = none
told_of (some status) age = some (record {
  status = status;
  stale = is_stale age;
  recorder_now = recorder_now status (age_or_zero age);
})

abbrev pub is_some : {A : Type 0} → Option A → Bool
is_some none = false
is_some (some a) = true

abbrev pub event_le : Event → Event → Bool
event_le a b = leb a.stamp b.stamp

unfoldable pub build_state :
    Option (Status Seconds)
    → Option Seconds
    → String
    → List String
    → List Event
    → Profiled
    → PageState
unfolding sorted_by told_of
build_state status age recorder topics history profiles = record {
  connected = is_some status;
  recorder = recorder;
  available_topics = topics;
  history = sorted_by event_le history;
  profiles = profiles;
  stale_after = stale_after_seconds;
  told = told_of status age;
}

-- What the node keeps under its lock.
pub record Kept : Type 0 where
  pub recorder : String
  pub status : Option (Status Seconds)
  pub status_stamp : ℕ
  pub events : List Event
  pub profiles : Profiled

-- What `__init__` sets.
abbrev pub nothing_yet : String → Kept
nothing_yet recorder = record {
  recorder = recorder;
  status = none;
  status_stamp = 0;
  events = [];
  profiles = [];
}

-- What arrives from the recorder: a status, at a reading of time.monotonic, or an event.
pub data Arrival : Type 0 where
  status_at : Status Seconds → ℕ → Arrival
  event : Event → Arrival

-- `_on_status` and `_on_event`
unfoldable pub take_in : Arrival → Kept → Kept
unfolding add_to_history
take_in (status_at status now) kept = record kept { status = some status; status_stamp = now }
take_in (event e) kept = record kept { events = add_to_history kept.events e }

-- `time.monotonic() - self._status_stamp if status else None`
unfoldable pub age_of : ℕ → Kept → Option Seconds
age_of now kept = elim kept.status [
  | none ↦ none
  | some status ↦ some (record { num = sub_ℕ now kept.status_stamp; den = nanoseconds_per_second })
]

unfoldable pub snapshot_state : ℕ → List (String × List String) → Kept → PageState
unfolding age_of build_state available_topics
snapshot_state now graph kept =
    build_state kept.status (age_of now kept) kept.recorder (available_topics kept.recorder graph)
      kept.events kept.profiles
