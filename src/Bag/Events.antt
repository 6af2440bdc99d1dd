-- ===== src/Bag/Events.antt =====
-- _event_windows, subscribed_windows and pause_windows of packages/dynrec/dynrec/bag.py: the
-- windows that the recorder's own events locate.
pub mod State
pub mod Cover
use rosbag2_dynamic_recorder.Base.{
  ℕ, String, Bool, true, false, ◌&&◌, Option, none, some, List, [], ◌∷◌, ◌++◌, max, leb, str_eq,
  if◌then◌else◌,
}
use rosbag2_dynamic_recorder.Base.Sort.{sorted_by}
use rosbag2_dynamic_recorder.Results.Events.{Event}
use rosbag2_dynamic_recorder.Bag.Windows.{Window, merge_windows}

-- `sorted(events, key=lambda e: e.stamp)`
abbrev pub stamp_le : Event → Event → Bool
stamp_le e f = leb e.stamp f.stamp

module _ (matches : Event → Bool) (opening closing : String) (end : ℕ) where
  -- The variables of the loop: the stamp of the open window, and the closed windows.
  abbrev pub event_step : Option ℕ → List Window → Event → Option ℕ × List Window
  event_step none windows event =
      if str_eq event.action opening then (some event.stamp, windows) else (none, windows)
  event_step (some opened) windows event =
      if str_eq event.action closing
      then (none, windows ++ (opened, event.stamp) ∷ [])
      else (some opened, windows)

  abbrev pub event_round : Option ℕ → List Window → Event → Option ℕ × List Window
  event_round opened windows event =
      if matches event then event_step opened windows event else (opened, windows)

  abbrev pub close_at_end : Option ℕ → List Window → List Window
  close_at_end none windows = windows
  close_at_end (some opened) windows = windows ++ (opened, end) ∷ []

  unfoldable pub event_loop : Option ℕ × List Window → List Event → List Window
  event_loop (opened, windows) [] = close_at_end opened windows
  event_loop (opened, windows) (event ∷ events) =
      event_loop (event_round opened windows event) events

  unfoldable pub event_windows : List Event → List Window
  unfolding event_loop merge_windows
  event_windows events = merge_windows (event_loop (none, []) (sorted_by stamp_le events))

abbrev pub is_subscription_of : String → Event → Bool
is_subscription_of topic e = str_eq e.kind "subscription" && str_eq e.topic topic

unfoldable pub subscribed_windows : List Event → String → ℕ → List Window
unfolding event_windows
subscribed_windows events topic bag_end =
    event_windows (is_subscription_of topic) "subscribed" "unsubscribed" bag_end events

abbrev pub is_pause : Event → Bool
is_pause e = str_eq e.kind "pause"

-- `max((e.stamp for e in events), default=0.0)`
abbrev pub last_stamp : List Event → ℕ
last_stamp [] = 0
last_stamp (e ∷ events) = max e.stamp (last_stamp events)

abbrev pub pause_end : List Event → Option ℕ → ℕ
pause_end events none = last_stamp events
pause_end events (some bag_end) = bag_end

unfoldable pub pause_windows : List Event → Option ℕ → List Window
unfolding event_windows
pause_windows events bag_end =
    event_windows is_pause "paused" "resumed" (pause_end events bag_end) events
