-- ===== src/Recorder/Node.antt =====
-- packages/rosbag2_dynamic_recorder/src/dynamic_recorder.cpp: the node's state and what changes it. `Outside`
-- is what the node gets from rclcpp, rosbag2, the file system and its configuration.
pub mod Topics
pub mod Restored
pub mod Replaced
pub mod Distinct
pub mod Reached
use rosbag2_dynamic_recorder.Base.{
  ℕ, String, Bool, true, false, not, ◌&&◌, ◌||◌, Option, none, some, List, [], ◌∷◌, ◌++◌, map, keep,
  is_empty, str_eq, if◌then◌else◌,
}
use rosbag2_dynamic_recorder.Base.Int.{ℤ}
use rosbag2_dynamic_recorder.Base.Seconds.{Seconds}
use rosbag2_dynamic_recorder.Base.Sort.{sorted_by}
use rosbag2_dynamic_recorder.Base.Text.{append}
use rosbag2_dynamic_recorder.Discovery.{str_le, contains}
use rosbag2_dynamic_recorder.Results.Status.{StatusMsg}
use rosbag2_dynamic_recorder.Recorder.Scheduler.{Scheduler, Arrival, take_due, clear}
use rosbag2_dynamic_recorder.Recorder.Losses
use rosbag2_dynamic_recorder.Recorder.Losses.{LossAccounting}
use rosbag2_dynamic_recorder.Recorder.Storage
use rosbag2_dynamic_recorder.Recorder.Storage.{StorageGuard}
use rosbag2_dynamic_recorder.Recorder.Selection.{TopicGraph, Selection, single_type}

-- What a timer of the scheduler does.
pub data Planned : Type 0 where
  planned_resume planned_split : Planned
  planned_record : String → Planned

-- What the node has told the bag: its events, a split that it asked the writer for, a message it wrote. The
-- event of a low disk has the free and the total space, the one of a bag that is too big its size.
pub data Emitted : Type 0 where
  paused_event resumed_event split_asked : String → Emitted
  subscribed_event unsubscribed_event : String → String → Emitted
  low_disk_event : ℕ → ℕ → Emitted
  bag_size_event : ℕ → Emitted
  message : Arrival → Emitted

-- `later` is what the clock shows when the scheduler reads it, after `now` was read for the delay.
pub record Outside : Type 0 where
  pub now : ℤ
  pub later : ℤ
  pub waiting_for_clock : Bool
  pub graph : TopicGraph
  pub node_name : String
  pub search : String → Option (String → Bool)
  pub subscribe : String → String → Option String
  pub can_split : Bool
  pub snapshot_taken : Bool
  pub unused_bag_path : String → Option String
  pub open_error : String → Option String
  pub profiles : List (String × List String)
  pub rest_of_status : StatusMsg Seconds

-- `uri` is where the next bag goes, `bag_uri` where the last one is.
pub record Node : Type 0 where
  pub is_open : Bool
  pub paused : Bool
  pub subscriptions : List String
  pub topics_at_stop : List String
  pub uri : String
  pub bag_uri : String
  pub scheduler : Scheduler Planned
  pub losses : LossAccounting
  pub storage_guard : StorageGuard
  pub stopped_for_low_disk : Bool
  pub stopped_for_max_bag_size : Bool
  pub emitted : List Emitted

abbrev pub emit : Emitted → Node → Node
emit event node = record node { emitted = node.emitted ++ event ∷ [] }

unfoldable pub pause : String → Node → Node
pause reason node =
    if node.paused then node else emit (paused_event reason) (record node { paused = true })

unfoldable pub resume : String → Node → Node
resume reason node =
    if node.paused then emit (resumed_event reason) (record node { paused = false }) else node

unfoldable pub subscribed_topics : Node → List String
subscribed_topics node = sorted_by str_le node.subscriptions

-- `Bag::split`, and whether it could.
unfoldable pub split_bag : Outside → String → Node → Bool × Node
split_bag outside reason node =
    if not node.is_open then (false, node) else (outside.can_split, emit (split_asked reason) node)

pub data SubscribeResult : Type 0 where
  added already_subscribed : SubscribeResult
  failed : String → SubscribeResult

-- `subscribe` of the outside is what the graph, the bag's channels and the middleware come to for a topic
-- that is not subscribed yet: an error text, or none.
unfoldable pub subscribe_topic : Outside → String → String → String → Node → SubscribeResult × Node
subscribe_topic outside topic type reason node =
    if contains topic node.subscriptions
    then (already_subscribed, node)
    else elim (outside.subscribe topic type) [
      | some error ↦ (failed error, node)
      | none ↦ (
        added,
        emit (subscribed_event topic reason)
            (record node { subscriptions = topic ∷ node.subscriptions }),
      )
    ]

pub record BatchResult : Type 0 where
  pub subscribed : List String
  pub unavailable : List String
  pub error : String

abbrev pub no_batch : BatchResult
no_batch = record { subscribed = []; unavailable = []; error = "" }

abbrev pub unresolved : String → String
unfolding append
unresolved topic =
    append "cannot resolve a single type for '"
      (append topic "'; it is not on the graph, or publishes more than one type")

-- The type of an entry: the one that is given, or else the one on the graph.
abbrev pub type_of : Outside → String → String → Option String
unfolding single_type
type_of outside topic type = if str_eq type "" then single_type outside.graph topic else some type

abbrev pub with_result : String → SubscribeResult → BatchResult → BatchResult
with_result topic (failed error) result = record result {
  unavailable = result.unavailable ++ topic ∷ [];
  error = error;
}
with_result topic _ result = record result { subscribed = result.subscribed ++ topic ∷ [] }

-- One round of the loop.
unfoldable pub subscribe_entry :
    Outside → String → String × String → BatchResult × Node → BatchResult × Node
unfolding subscribe_topic append single_type
subscribe_entry outside reason (topic, type) (result, node) = elim (type_of outside topic type) [
  | none ↦ (
    record result { unavailable = result.unavailable ++ topic ∷ []; error = unresolved topic },
    node,
  )
  | some resolved ↦
      let (subscribe_result, node') = subscribe_topic outside topic resolved reason node in
      (with_result topic subscribe_result result, node')
]

unfoldable pub subscribe_loop :
    Outside → String → Selection → BatchResult × Node → BatchResult × Node
unfolding subscribe_entry
subscribe_loop outside reason [] so_far = so_far
subscribe_loop outside reason (entry ∷ selection) so_far =
    subscribe_loop outside reason selection (subscribe_entry outside reason entry so_far)

unfoldable pub subscribe_batch : Outside → Selection → String → Node → BatchResult × Node
unfolding subscribe_loop
subscribe_batch outside selection reason node =
    subscribe_loop outside reason selection (no_batch, node)

unfoldable pub unsubscribe_topic : String → String → Node → Bool × Node
unsubscribe_topic topic reason node =
    if not (contains topic node.subscriptions) then (false, node) else (
      true,
      emit (unsubscribed_event topic reason)
          (record node { subscriptions = keep (λ t. not (str_eq t topic)) node.subscriptions }),
    )

-- Drops the topics of a list, and says which ones were subscribed and which were not.
unfoldable pub unsubscribe_loop :
    String → List String → List String × List String × Node → List String × List String × Node
unfolding unsubscribe_topic
unsubscribe_loop reason [] so_far = so_far
unsubscribe_loop reason (topic ∷ topics) (dropped, absent, node) =
    let (done, node') = unsubscribe_topic topic reason node in
    unsubscribe_loop reason topics (
      if done then dropped ++ topic ∷ [] else dropped,
      if done then absent else absent ++ topic ∷ [],
      node',
    )

unfoldable pub replace_topics :
    Outside → Selection → String → Node → List String × BatchResult × Node
unfolding unsubscribe_loop subscribe_batch subscribed_topics
replace_topics outside desired reason node =
    let unwanted =
      keep (λ t. not (contains t (map (λ entry. entry.0) desired))) (subscribed_topics node) in
    let (dropped, _, dropped_node) = unsubscribe_loop reason unwanted ([], [], node) in
    let (result, node') = subscribe_batch outside desired reason dropped_node in
    (dropped, result, node')

-- What the writer has deferred is not modelled.
unfoldable pub stop : Node → Node
unfolding subscribed_topics clear
stop node = if not node.is_open then node else record node {
  is_open = false;
  topics_at_stop = subscribed_topics node;
  subscriptions = [];
  scheduler = clear node.scheduler;
}

abbrev pub untyped : List String → Selection
untyped topics = map (λ topic. (topic, "")) topics

-- emit_initial_pause_state
abbrev pub emit_initial_pause_state : Node → Node
emit_initial_pause_state node = if node.paused then emit (paused_event "startup") node else node

-- The new bag is open: every figure of the last one is forgotten.
abbrev pub opened_at_path : String → Node → Node
unfolding Losses.reset Storage.reset
opened_at_path path node = record node {
  is_open = true;
  uri = path;
  bag_uri = path;
  losses = Losses.reset node.losses;
  storage_guard = Storage.reset node.storage_guard;
  stopped_for_low_disk = false;
  stopped_for_max_bag_size = false;
  topics_at_stop = [];
}

-- Why no recording was started, or the node that records.
unfoldable pub record_to : Outside → String → Node → String × Node
unfolding subscribe_batch append Losses.reset Storage.reset
record_to outside uri node =
    let requested = if str_eq uri "" then node.uri else uri in
    if node.is_open then ("already recording", node) else elim (outside.unused_bag_path requested) [
      | none ↦ (append "no free bag path near '" (append requested "'"), node)
      | some path ↦ elim (outside.open_error path) [
        | some error ↦ (error, record node { uri = path; losses = Losses.reset node.losses })
        | none ↦ (
          "",
          (subscribe_batch outside (untyped node.topics_at_stop) "service:record"
              (emit_initial_pause_state (opened_at_path path node))).1,
        )
      ]
    ]

-- on_message, after the accounting of its sequence number.
unfoldable pub on_message : Outside → Arrival → Node → Node
unfolding take_due resume split_bag
on_message outside arrival node =
    let (scheduler, due) = take_due arrival node.scheduler in
    let taken = record node { scheduler = scheduler } in
    let resumed = if due.resumes then resume "schedule:resume" taken else taken in
    let divided = if due.splits then (split_bag outside "schedule:split" resumed).1 else resumed in
    if divided.paused || not divided.is_open then divided else emit (message arrival) divided
