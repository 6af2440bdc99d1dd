-- ===== src/Ui.antt =====
-- packages/rosbag2_dynamic_recorder_ui/rosbag2_dynamic_recorder_ui/ui_node.py: the page server. This file has
-- the events and topics that it keeps and offers, `_on_event` and `available_topics`. The node is ROS; the
-- topics of the graph are given.
pub mod History
pub mod Topics
pub mod Actions
pub mod State
pub mod Profiles
pub mod Pages
use rosbag2_dynamic_recorder.Base.{
  ℕ, suc, zero, ◌-◌, String, Bool, not, ◌&&◌, List, [], ◌∷◌, ◌++◌, map, keep, length,
}
use rosbag2_dynamic_recorder.Base.Sort.{sorted_by}
use rosbag2_dynamic_recorder.Base.Text.{append, starts_with}
use rosbag2_dynamic_recorder.Discovery.{str_le, contains}

abbrev pub history_limit : ℕ
history_limit = 400

abbrev pub hidden_topics : List String
hidden_topics = "/parameter_events" ∷ "/rosout" ∷ []

module _ {Event : Type 0} where
  unfoldable pub drop : ℕ → List Event → List Event
  drop zero events = events
  drop (suc n) [] = []
  drop (suc n) (e ∷ events) = drop n events

  -- `del events[:-limit]` leaves the last ones, and all where there are no more than that.
  unfoldable pub keep_last : ℕ → List Event → List Event
  unfolding drop
  keep_last limit events = drop (length events - limit) events

  -- `_on_event`
  unfoldable pub add_to_history : List Event → Event → List Event
  unfolding keep_last
  add_to_history events event = keep_last history_limit (events ++ event ∷ [])

-- A topic that the picker offers for a recorder.
abbrev pub is_offered : String → String → Bool
is_offered recorder name =
    not (contains name hidden_topics) && not (starts_with name (append recorder "/"))

unfoldable pub available_topics : String → List (String × List String) → List String
unfolding append starts_with
available_topics recorder graph =
    sorted_by str_le (keep (is_offered recorder) (map (λ topic. topic.0) graph))
