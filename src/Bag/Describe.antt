-- ===== src/Bag/Describe.antt =====
-- describe of packages/dynrec/dynrec/bag.py: the report on a bag. What rosbag2_py reads is given: the
-- topics with their types, and the messages in the order of the bag with their receive stamps.
-- `deserialize` is deserialize_message for a type.
pub mod Counts
pub mod Active
pub mod Channels
pub mod Span
pub mod Recorded
use rosbag2_dynamic_recorder.Base.{
  ℕ, ◌-◌, String, Bool, true, false, not, Option, none, some, List, [], ◌∷◌, ◌++◌, map, min, max,
  keep, is_empty, length, leb, ltb, str_eq, if◌then◌else◌,
}
use rosbag2_dynamic_recorder.Base.Sort.{sorted_by}
use rosbag2_dynamic_recorder.Base.Text.{ends_with}
use rosbag2_dynamic_recorder.Discovery.{str_le}
use rosbag2_dynamic_recorder.Results.Events.{Event, EventMsg, Stream, event_streams}
use rosbag2_dynamic_recorder.Bag.Windows.{Window, intersect_windows}
use rosbag2_dynamic_recorder.Bag.Events.{stamp_le, subscribed_windows, pause_windows}
use rosbag2_dynamic_recorder.Bag.Live.{Rate, live_seconds, rate_over}
use rosbag2_dynamic_recorder.Bag.Gaps.{gaps_in, unexplained_gaps, unexplained_gap_nanoseconds}
use rosbag2_dynamic_recorder.Bag.Report.{ChannelStats, BagSummary, no_messages, warnings_of}

-- The type of a topic, the last one given for it.
abbrev pub get_type : String → List (String × String) → Option String
get_type topic [] = none
get_type topic ((name, type_name) ∷ types) = elim (get_type topic types) [
  | some later ↦ some later
  | none ↦ if str_eq topic name then some type_name else none
]

-- `types.get(topic, '')`
abbrev pub type_or_blank : String → List (String × String) → String
type_or_blank topic types = elim (get_type topic types) [ none ↦ "" | some type_name ↦ type_name ]

-- The last row of EVENT_STREAMS whose suffix the name ends in.
abbrev pub stream_of : String → List Stream → Option (EventMsg → Event)
stream_of name [] = none
stream_of name ((suffix, msg_type, parse) ∷ streams) = elim (stream_of name streams) [
  | some later ↦ some later
  | none ↦ if ends_with name suffix then some parse else none
]

-- `event_parsers.get(topic)`: only a topic of the bag has a parser.
unfoldable pub parser_of : String → List (String × String) → Option (EventMsg → Event)
unfolding ends_with
parser_of topic types = elim (get_type topic types) [
  | none ↦ none
  | some type_name ↦ stream_of topic event_streams
]

abbrev pub is_event_topic : List (String × String) → String → Bool
is_event_topic types topic = elim (parser_of topic types) [ none ↦ false | some parse ↦ true ]

-- A dict from topics to the stamps of their messages.
abbrev pub Stamps : Type 0
Stamps = List (String × List ℕ)

-- `stamps.setdefault(topic, []).append(stamp)`
unfoldable pub add_stamp : String → ℕ → Stamps → Stamps
add_stamp topic stamp [] = (topic, stamp ∷ []) ∷ []
add_stamp topic stamp ((name, values) ∷ stamps) =
    let others = add_stamp topic stamp stamps in
    if str_eq topic name then (name, values ++ stamp ∷ []) ∷ stamps else (name, values) ∷ others

-- `values` of a dict's entry, sorted, is what is kept of it; `populated[topic]`.
abbrev pub stamps_of : String → Stamps → List ℕ
stamps_of topic [] = []
stamps_of topic ((name, values) ∷ stamps) =
    if str_eq topic name then values else stamps_of topic stamps

-- `min(values)` and `max(values)` of a list that is not empty.
abbrev pub minimum : List ℕ → ℕ
minimum [] = 0
minimum (v ∷ []) = v
minimum (v ∷ w ∷ values) = min v (minimum (w ∷ values))

abbrev pub maximum : List ℕ → ℕ
maximum [] = 0
maximum (v ∷ values) = max v (maximum values)

-- `values[0]` and `values[-1]`.
abbrev pub first_of : List ℕ → ℕ
first_of [] = 0
first_of (v ∷ values) = v

abbrev pub last_of : List ℕ → ℕ
last_of [] = 0
last_of (v ∷ []) = v
last_of (v ∷ w ∷ values) = last_of (w ∷ values)

-- `len(values) / duration if duration > 0 else 0.0`
abbrev pub averaged : ℕ → ℕ → Rate
averaged count duration =
    if ltb 0 duration
    then record { messages = count; nanoseconds = duration }
    else record { messages = 0; nanoseconds = 1 }

-- The basis of a channel's figures, the time recorded and the time active.
unfoldable pub basis_of :
    List Event → List Window → ℕ → String → List ℕ → String × Option ℕ × Option ℕ
basis_of events pauses end topic values =
    let windows = subscribed_windows events topic end in
    let span = (first_of values, last_of values) ∷ [] in
    if not (is_empty windows)
    then (
      "events",
      some (live_seconds windows pauses),
      some (live_seconds (intersect_windows windows span) pauses),
    )
    else if ltb 1 (length values)
    then ("span", some (live_seconds span pauses), some (live_seconds span pauses))
    else ("unknown", none, none)

unfoldable pub describe_channel :
    List (String × String) → List Event → List Window → ℕ → ℕ → Stamps → String → ChannelStats
describe_channel types events pauses end duration populated topic =
    let values = sorted_by leb (stamps_of topic populated) in
    let (basis, recorded, active) = basis_of events pauses end topic values in
    record {
      topic = topic;
      message_type = type_or_blank topic types;
      count = length values;
      first = first_of values;
      last = last_of values;
      recorded_seconds = recorded;
      active_seconds = active;
      rate = rate_over (length values) active;
      averaged_rate = averaged (length values) duration;
      basis = basis;
      bag_seconds = duration;
    }

-- The last event of a kind.
abbrev pub last_event : String → List Event → Option Event
last_event kind [] = none
last_event kind (e ∷ events) = elim (last_event kind events) [
  | some later ↦ some later
  | none ↦ if str_eq e.kind kind then some e else none
]

module _ {Data : Type 0} (deserialize : String → Data → EventMsg) where
  -- A message of the bag: its topic, its data and its stamp.
  abbrev pub Message : Type 0
  Message = String × Data × ℕ

  abbrev pub add_event : List (String × String) → String → Data → List Event → List Event
  add_event types topic bytes events = elim (parser_of topic types) [
    | none ↦ events
    | some parse ↦ events ++ parse (deserialize (type_or_blank topic types) bytes) ∷ []
  ]

  -- The loop over the messages.
  unfoldable pub read_all :
      List (String × String) → Stamps × List Event → List Message → Stamps × List Event
  unfolding add_stamp
  read_all types (stamps, events) [] = (stamps, events)
  read_all types (stamps, events) ((topic, bytes, stamp) ∷ messages) =
      read_all types (add_stamp topic stamp stamps, add_event types topic bytes events) messages

  abbrev pub summarise : String → List (String × String) → Stamps → List Event → BagSummary
  summarise uri types populated unsorted =
      let start = minimum (map (λ entry. minimum entry.1) populated) in
      let end = maximum (map (λ entry. maximum entry.1) populated) in
      let events = sorted_by stamp_le unsorted in
      let pauses = pause_windows events (some end) in
      let topics =
        sorted_by str_le
          (keep (λ t. not (is_event_topic types t)) (map (λ entry. entry.0) populated)) in
      let channels =
        map (describe_channel types events pauses end (end - start) populated) topics in
      let unexplained =
        unexplained_gaps
          (map (λ c. gaps_in (stamps_of c.topic populated) unexplained_gap_nanoseconds)
            (keep (λ c. ltb 1 c.count) channels))
          pauses unexplained_gap_nanoseconds in
      record {
        uri = uri;
        start = start;
        end = end;
        channels = channels;
        pause_windows = pauses;
        events = events;
        unexplained_gaps = unexplained;
        low_disk_stop = last_event "low_disk" events;
        bag_size_limit_stop = last_event "bag_size_limit" events;
        warnings =
            warnings_of events start unexplained (last_event "low_disk" events)
              (last_event "bag_size_limit" events);
      }

  abbrev pub empty_summary : String → BagSummary
  empty_summary uri = record {
    uri = uri;
    start = 0;
    end = 0;
    channels = [];
    pause_windows = [];
    events = [];
    unexplained_gaps = [];
    low_disk_stop = none;
    bag_size_limit_stop = none;
    warnings = no_messages ∷ [];
  }

  unfoldable pub describe : String → List (String × String) → List Message → BagSummary
  unfolding read_all
  describe uri types messages =
      let (stamps, events) = read_all types (map (λ t. (t.0, [])) types, []) messages in
      let populated = keep (λ entry. not (is_empty entry.1)) stamps in
      if is_empty populated then empty_summary uri else summarise uri types populated events
