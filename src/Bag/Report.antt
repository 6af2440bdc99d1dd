-- ===== src/Bag/Report.antt =====
-- ChannelStats, BagSummary and _warnings of packages/dynrec/dynrec/bag.py: what a report says. A
-- warning's text stands as what it is about and the figures it quotes.
use rosbag2_dynamic_recorder.Base.{
  ℕ, ◌-◌, String, Bool, false, not, Option, none, some, List, [], ◌∷◌, ◌++◌, map, any, ltb, str_eq,
  if◌then◌else◌,
}
use rosbag2_dynamic_recorder.Results.Events.{Event}
use rosbag2_dynamic_recorder.Bag.Windows.{Window}
use rosbag2_dynamic_recorder.Bag.Live.{Rate}

pub record ChannelStats : Type 0 where
  pub topic : String
  pub message_type : String
  pub count : ℕ
  pub first : ℕ
  pub last : ℕ
  pub recorded_seconds : Option ℕ
  pub active_seconds : Option ℕ
  pub rate : Option Rate
  pub averaged_rate : Rate
  pub basis : String
  pub bag_seconds : ℕ

-- `sparse`
unfoldable pub is_sparse : ChannelStats → Bool
is_sparse channel = elim channel.recorded_seconds [
  | none ↦ false
  | some recorded ↦ ltb recorded channel.bag_seconds
]

pub data Warning : Type 0 where
  no_messages no_subscription_events no_pause_events : Warning
  shared_hole low_disk bag_size_limit : ℕ → ℕ → Warning

pub record BagSummary : Type 0 where
  pub uri : String
  pub start : ℕ
  pub end : ℕ
  pub channels : List ChannelStats
  pub pause_windows : List Window
  pub events : List Event
  pub unexplained_gaps : List Window
  pub low_disk_stop : Option Event
  pub bag_size_limit_stop : Option Event
  pub warnings : List Warning

unfoldable pub duration : BagSummary → ℕ
duration summary = summary.end - summary.start

abbrev pub has_kind : String → List Event → Bool
has_kind kind events = any (λ event. str_eq event.kind kind) events

-- `if test: warnings.append(warning)`
abbrev pub warn_if : Bool → Warning → List Warning
warn_if test warning = if test then warning ∷ [] else []

abbrev pub warn_stop : Option Event → (Event → Warning) → List Warning
warn_stop none warning = []
warn_stop (some event) warning = warning event ∷ []

unfoldable pub warnings_of :
    List Event → ℕ → List Window → Option Event → Option Event → List Warning
warnings_of events start unexplained low_disk_stop bag_size_limit_stop =
    warn_if (not (has_kind "subscription" events)) no_subscription_events
    ++ warn_if (not (has_kind "pause" events)) no_pause_events
    ++ map (λ gap. shared_hole (gap.1 - gap.0) (gap.0 - start)) unexplained
    ++ warn_stop low_disk_stop (λ e. low_disk e.free_space_bytes e.total_space_bytes)
    ++ warn_stop bag_size_limit_stop (λ e. bag_size_limit e.bag_size_bytes e.max_bag_size)
