-- ===== src/Tests/Bag.antt =====
-- Runs of packages/dynrec/dynrec/bag.py on small inputs.
use mathlib.Core.Quot.{Quot}
use rosbag2_dynamic_recorder.Base.{
  ℕ, ◌≡◌, ◌≤◌, refl, String, true, ◌&&◌, not, ltb, some, List, [], ◌∷◌, All, arith,
}
use rosbag2_dynamic_recorder.Base.Int.{◌+ℤ◌}
use rosbag2_dynamic_recorder.Base.Sort.{sorted_by}
use rosbag2_dynamic_recorder.Base.Count.{count_below}
use rosbag2_dynamic_recorder.Results.Events.{Event, from_msg, EventMsg}
use rosbag2_dynamic_recorder.Bag.Windows.{
  covers, overlap, Window, merge_windows, intersect_windows, covered,
}
use rosbag2_dynamic_recorder.Bag.Windows.Cover.{covered-merge_windows}
use rosbag2_dynamic_recorder.Bag.Windows.Normal.{TimeSet}
use rosbag2_dynamic_recorder.Bag.Live.{live_seconds, live_seconds-count}
use rosbag2_dynamic_recorder.Bag.Events.{subscribed_windows, pause_windows}
use rosbag2_dynamic_recorder.Bag.Events.Cover.{subscribed_at, covered-subscribed_windows}
use rosbag2_dynamic_recorder.Bag.Gaps.{unexplained_gaps}
use rosbag2_dynamic_recorder.Bag.Gaps.Shared.{all_covered, unexplained_gaps_complete}

abbrev message : EventMsg
message = record {
  stamp = record { sec = 0; nanosec = 0 };
  action = 0;
  reason = "asked";
  node_name = "/recorder";
  topic_name = "/camera";
  topic_type = "";
  free_space_bytes = 0;
  total_space_bytes = 0;
  bag_size_bytes = 0;
  max_bag_size = 0;
  closed_file = "";
  opened_file = "";
}

abbrev event : String → String → ℕ → Event
event kind action stamp = record (from_msg kind action message) { stamp = stamp; topic = "/camera" }

-- Subscribed from 2 to 9 and from 12 on, paused from 4 to 6; the events are not in order.
abbrev recorded : List Event
recorded =
    event "pause" "paused" 4
    ∷ event "subscription" "subscribed" 2
    ∷ event "subscription" "unsubscribed" 9
    ∷ event "pause" "resumed" 6
    ∷ event "subscription" "subscribed" 12
    ∷ []

abbrev windows : List Window
windows = (5, 8) ∷ (1, 3) ∷ (2, 6) ∷ (4, 4) ∷ []

merge_windows-windows : merge_windows windows ≡ (1, 8) ∷ []
unfolding merge_windows sorted_by
merge_windows-windows = refl

subscribed_windows-recorded : subscribed_windows recorded "/camera" 15 ≡ (2, 9) ∷ (12, 15) ∷ []
unfolding subscribed_windows sorted_by
subscribed_windows-recorded = refl

live_seconds-recorded :
    live_seconds (subscribed_windows recorded "/camera" 15) (pause_windows recorded (some 15)) ≡ 8
unfolding live_seconds subscribed_windows pause_windows sorted_by ◌+ℤ◌ overlap
live_seconds-recorded = refl

unexplained_gaps-found :
    unexplained_gaps (((2, 9) ∷ []) ∷ ((1, 3) ∷ (4, 8) ∷ []) ∷ []) [] 3 ≡ (4, 8) ∷ []
unfolding unexplained_gaps intersect_windows sorted_by
unexplained_gaps-found = refl

recorded-ends : All (λ e. e.stamp ≤ 15) recorded
recorded-ends = (ground arith, (ground arith, (ground arith, (ground arith, (ground arith, tt)))))

live_seconds-count_example :
    live_seconds windows ((2, 4) ∷ [])
    ≡ count_below 8 (λ t. covered windows t && not (covered ((2, 4) ∷ []) t))
live_seconds-count_example =
    live_seconds-count 8 windows ((2, 4) ∷ [])
      (ground arith, (ground arith, (ground arith, (ground arith, tt))))

covered-subscribed_windows_example :
    covered (subscribed_windows recorded "/camera" 15) 13
    ≡ (subscribed_at recorded "/camera" 13 && ltb 13 15)
covered-subscribed_windows_example =
    covered-subscribed_windows recorded "/camera" 15 13 recorded-ends

covered-merge_windows_example : covered (merge_windows windows) 7 ≡ covered windows 7
covered-merge_windows_example = covered-merge_windows windows 7

abbrev times : TimeSet
times = Quot.mk windows

abbrev first_gaps : List Window
first_gaps = (2, 9) ∷ []

abbrev other_gaps : List Window
other_gaps = (1, 3) ∷ (4, 8) ∷ []

reported : covered (unexplained_gaps (first_gaps ∷ other_gaps ∷ []) [] 3) 5 ≡ true
unfolding unexplained_gaps intersect_windows sorted_by
reported = refl

-- Both channels have a gap from 4 to 8.
spans : (u : ℕ) → covers (4, 8) u ≡ true → all_covered (first_gaps ∷ other_gaps ∷ []) u ≡ true
spans u h = ground arith

unexplained_gaps_complete_example :
    covered (unexplained_gaps (first_gaps ∷ other_gaps ∷ []) [] 3) 5 ≡ true
unexplained_gaps_complete_example =
    unexplained_gaps_complete first_gaps (other_gaps ∷ []) 3 4 8 5 (ground arith) spans refl
