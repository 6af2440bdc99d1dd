-- ===== src/Tests/Describe.antt =====
-- Runs of describe of packages/dynrec/dynrec/bag.py on a small bag, whose data are the messages
-- themselves.
use rosbag2_dynamic_recorder.Base.{
  ℕ, ◌≡◌, refl, String, true, not, ◌&&◌, some, List, [], ◌∷◌, All, any, str_eq, map,
}
use rosbag2_dynamic_recorder.Base.Sort.{sorted_by}
use rosbag2_dynamic_recorder.Base.Int.{◌+ℤ◌}
use rosbag2_dynamic_recorder.Bag.Windows.{intersect_windows}
use rosbag2_dynamic_recorder.Bag.Live.{live_seconds}
use rosbag2_dynamic_recorder.Bag.Gaps.{gaps_in, unexplained_gaps}
use rosbag2_dynamic_recorder.Bag.Events.{subscribed_windows, pause_windows}
use rosbag2_dynamic_recorder.Results.Words.{action_name}
use rosbag2_dynamic_recorder.Discovery.{contains}
use rosbag2_dynamic_recorder.Results.Events.{EventMsg}
use rosbag2_dynamic_recorder.Bag.Report.{no_messages, no_pause_events, shared_hole, warnings_of}
use rosbag2_dynamic_recorder.Bag.Describe.{
  parser_of, Message, parser_of, basis_of, describe, describe_channel, is_event_topic,
}
use rosbag2_dynamic_recorder.Bag.Describe.Counts.{messages_on, describe_counts}
use rosbag2_dynamic_recorder.Bag.Describe.Channels.{channel_topics, describe_channels}
use rosbag2_dynamic_recorder.Bag.Describe.Span.{IsSpanned, describe_spans}
use rosbag2_dynamic_recorder.Bag.Describe.Active.{within, describe_active}

abbrev read : String → EventMsg → EventMsg
read type_name msg = msg

abbrev change : ℕ → EventMsg
change sec = record {
  stamp = record { sec = sec; nanosec = 0 };
  action = 0;
  reason = "asked";
  node_name = "/r";
  topic_name = "/camera";
  topic_type = "";
  free_space_bytes = 0;
  total_space_bytes = 0;
  bag_size_bytes = 0;
  max_bag_size = 0;
  closed_file = "";
  opened_file = "";
}

abbrev types : List (String × String)
types =
    ("/camera", "sensor_msgs/msg/Image")
    ∷ ("/r/events/subscription_change", "SubscriptionChangeEvent")
    ∷ ("/scan", "sensor_msgs/msg/LaserScan")
    ∷ []

-- Two images between the change at 1 s and the end at 4 s.
abbrev bag : List (Message read)
bag =
    ("/r/events/subscription_change", change 1, 1_000_000_000)
    ∷ ("/camera", change 0, 2_000_000_000)
    ∷ ("/camera", change 0, 3_000_000_000)
    ∷ ("/r/events/subscription_change", change 4, 4_000_000_000)
    ∷ []

describe_nothing : (describe read "empty" types []).warnings ≡ no_messages ∷ []
unfolding describe
describe_nothing = refl

describe_warnings :
    (describe read "bag" types bag).warnings
    ≡ no_pause_events ∷ shared_hole 1_000_000_000 1_000_000_000 ∷ []
unfolding describe sorted_by parser_of describe_channel action_name pause_windows unexplained_gaps
    gaps_in warnings_of intersect_windows live_seconds basis_of subscribed_windows
describe_warnings = refl

describe_topics : channel_topics read (describe read "bag" types bag) ≡ "/camera" ∷ []
unfolding describe sorted_by parser_of describe_channel
describe_topics = refl

describe_recorded :
    map (λ c. c.recorded_seconds) (describe read "bag" types bag).channels ≡ some 3_000_000_000 ∷ []
unfolding describe sorted_by parser_of describe_channel basis_of subscribed_windows action_name
    live_seconds ◌+ℤ◌ pause_windows
describe_recorded = refl

describe_counts_example :
    All (λ c. c.count ≡ messages_on read c.topic bag) (describe read "bag" types bag).channels
describe_counts_example = describe_counts read "bag" types bag

describe_channels_example :
    contains "/scan" (channel_topics read (describe read "bag" types bag))
    ≡ (any (λ m. str_eq "/scan" m.0) bag && not (is_event_topic types "/scan"))
describe_channels_example = describe_channels read "/scan" "bag" types bag

describe_active_example :
    All
      (λ c. within c.active_seconds c.recorded_seconds ≡ true)
      (describe read "bag" types bag).channels
describe_active_example = describe_active read "bag" types bag

describe_spans_example :
    let summary = describe read "bag" types bag in
    All (IsSpanned summary.start summary.end) summary.channels
describe_spans_example = describe_spans read "bag" types bag
