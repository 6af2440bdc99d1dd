-- ===== src/Tests/Node.antt =====
-- Runs of the node of packages/rosbag2_dynamic_recorder, and of a client that calls it.
use rosbag2_dynamic_recorder.Base.{
  ◌≡◌, refl, String, Bool, true, false, ◌||◌, Option, none, some, [], ◌∷◌, All, str_eq,
  if◌then◌else◌,
}
use rosbag2_dynamic_recorder.Base.Int.{pos}
use rosbag2_dynamic_recorder.Discovery.{contains}
use rosbag2_dynamic_recorder.Client.Call.{World}
use rosbag2_dynamic_recorder.Client.Run
use rosbag2_dynamic_recorder.Recorder.Scheduler.{new_scheduler}
use rosbag2_dynamic_recorder.Recorder.Losses.{no_losses}
use rosbag2_dynamic_recorder.Recorder.Selection.{Selection, single_type}
use rosbag2_dynamic_recorder.Recorder.Node.{
  Outside, Node, subscribed_topics, subscribe_batch, stop, record_to,
}
use rosbag2_dynamic_recorder.Recorder.Node.Topics.{names, subscribe_batch_lem}
use rosbag2_dynamic_recorder.Recorder.Node.Restored.{can_subscribe, record_to-stop}
use rosbag2_dynamic_recorder.Tests.Responses.{blank_status}

abbrev search : String → Option (String → Bool)
search regex = some (str_eq regex)

-- The middleware refuses one topic.
abbrev subscribe : String → String → Option String
subscribe topic type = if str_eq topic "bad name" then some "not a usable topic name" else none

abbrev unused : String → Option String
unused path = some path

abbrev opens : String → Option String
opens path = none

abbrev pub outside : Outside
outside = record {
  now = pos 1000;
  later = pos 1020;
  waiting_for_clock = false;
  graph = ("/camera", "Image" ∷ []) ∷ ("/scan", "LaserScan" ∷ []) ∷ [];
  node_name = "/recorder";
  search = search;
  subscribe = subscribe;
  can_split = true;
  snapshot_taken = true;
  unused_bag_path = unused;
  open_error = opens;
  profiles = [];
  rest_of_status = blank_status;
}

abbrev pub node : Node
node = record {
  is_open = true;
  paused = false;
  subscriptions = "/scan" ∷ "/camera" ∷ [];
  topics_at_stop = [];
  uri = "bag";
  bag_uri = "bag";
  scheduler = new_scheduler;
  losses = no_losses;
  storage_guard = record { cached_bag_size = 0; cached_at = 0 };
  stopped_for_low_disk = false;
  stopped_for_max_bag_size = false;
  emitted = [];
}

abbrev world : World Node
world = record { name = "/recorder"; clients = []; created = 0; log = []; server = node }

abbrev wanted : Selection
wanted = ("/scan", "") ∷ ("bad name", "Image") ∷ ("/unknown", "") ∷ []

subscribe_batch_lem_example :
    let (result, node') = subscribe_batch outside wanted "test" node in
    ((contains "/scan" result.subscribed || contains "/scan" result.unavailable)
      ≡ contains "/scan" (names outside "test" wanted))
    × (contains "/scan" (subscribed_topics node')
        ≡ (contains "/scan" (subscribed_topics node) || contains "/scan" result.subscribed))
subscribe_batch_lem_example = subscribe_batch_lem outside "test" wanted node "/scan"

batch-unavailable :
    (subscribe_batch outside wanted "test" node).0.unavailable ≡ "bad name" ∷ "/unknown" ∷ []
unfolding subscribe_batch
batch-unavailable = refl

can_subscribe-node : All (λ topic. can_subscribe outside topic ≡ true) node.subscriptions
unfolding single_type
can_subscribe-node = (refl, (refl, tt))

record_to-stop_example :
    let (error, restored) = record_to outside "" (stop node) in
    (error ≡ "")
    × (restored.is_open ≡ true)
    × (restored.paused ≡ node.paused)
    × (contains "/scan" (subscribed_topics restored) ≡ contains "/scan" (subscribed_topics node))
record_to-stop_example = record_to-stop outside node "bag" "/scan" refl can_subscribe-node refl refl
