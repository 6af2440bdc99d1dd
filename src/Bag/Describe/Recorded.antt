-- ===== src/Bag/Describe/Recorded.antt =====
-- The recorded time of a channel in the report of packages/dynrec/dynrec/bag.py, against the state that the
-- events of the bag describe.
use rosbag2_dynamic_recorder.Base.{
  ℕ, ◌≡◌, String, true, not, ◌&&◌, ◌||◌, Option, none, some, List, [], ◌∷◌, leb, ltb, str_eq,
  if◌then◌else◌,
}
use rosbag2_dynamic_recorder.Base.Count.{count_below}
use rosbag2_dynamic_recorder.Results.Events.{Event}
use rosbag2_dynamic_recorder.Bag.Events.{subscribed_windows, pause_windows}
use rosbag2_dynamic_recorder.Bag.Events.Cover.{subscribed_at, paused_at}
use rosbag2_dynamic_recorder.Bag.Live.{live_seconds}
use rosbag2_dynamic_recorder.Bag.Report.{ChannelStats}

-- The recorded time by its basis: by events, the nanoseconds before the end of the bag at which the topic
-- is subscribed and the recorder is not paused; by the span, those from the first stamp up to the last at
-- which the recorder is not paused; and else it is not known.
abbrev pub recorded_by : String → List Event → ℕ → String → ℕ → ℕ → Option ℕ
recorded_by basis events end topic first last =
    if str_eq basis "events"
    then some (count_below end (λ t. subscribed_at events topic t && not (paused_at events t)))
    else if str_eq basis "span"
    then some (count_below last (λ t. leb first t && not (paused_at events t)))
    else none

-- Without events a basis needs two messages.
abbrev pub IsRecorded : List Event → ℕ → ChannelStats → Type 0
IsRecorded events end c =
    (c.recorded_seconds ≡ recorded_by c.basis events end c.topic c.first c.last)
    × ((str_eq c.basis "events" || str_eq c.basis (if ltb 1 c.count then "span" else "unknown"))
        ≡ true)

-- The same with the time of a span by its windows.
abbrev recorded_raw : String → List Event → ℕ → String → ℕ → ℕ → Option ℕ
recorded_raw basis events end topic first last =
    if str_eq basis "events"
    then some (live_seconds (subscribed_windows events topic end) (pause_windows events (some end)))
    else if str_eq basis "span"
    then some (live_seconds ((first, last) ∷ []) (pause_windows events (some end)))
    else none

abbrev IsRaw : List Event → ℕ → ChannelStats → Type 0
IsRaw events end c =
    (c.recorded_seconds ≡ recorded_raw c.basis events end c.topic c.first c.last)
    × ((str_eq c.basis "events" || str_eq c.basis (if ltb 1 c.count then "span" else "unknown"))
        ≡ true)
