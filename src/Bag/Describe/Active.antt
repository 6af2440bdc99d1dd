-- ===== src/Bag/Describe/Active.antt =====
-- The time that describe in packages/dynrec/dynrec/bag.py reports a channel active, against the time
-- that it was recorded.
use rosbag2_dynamic_recorder.Base.{
  ℕ, ◌≤◌, ◌≡◌, String, Bool, true, false, not, ◌&&◌, Option, none, some, List, [], ◌∷◌, max, leb,
  keep, map, All, All-imp, is_empty, arith,
}
use rosbag2_dynamic_recorder.Base.Members.{All-map, if_either}
use rosbag2_dynamic_recorder.Base.Count.{count_below_le}
use rosbag2_dynamic_recorder.Results.Events.{Event, EventMsg}
use rosbag2_dynamic_recorder.Bag.Windows.{Window, intersect_windows, covered}
use rosbag2_dynamic_recorder.Bag.Windows.Cover.{covered-intersect_windows}
use rosbag2_dynamic_recorder.Bag.Windows.Normal.{intersect_windows-IsNormal}
use rosbag2_dynamic_recorder.Bag.Events.{subscribed_windows}
use rosbag2_dynamic_recorder.Bag.Live.{
  EndsBy, live_seconds, live_seconds-count, EndsBy-of_covered, covered-EndsBy,
}
use rosbag2_dynamic_recorder.Bag.Report.{BagSummary, ChannelStats}
use rosbag2_dynamic_recorder.Bag.Describe.{
  Stamps, first_of, last_of, basis_of, describe, describe_channel, read_all, Message, summarise,
  empty_summary,
}
use rosbag2_dynamic_recorder.Bag.Describe.Counts.{has_stamps}

last_end : List Window → ℕ
last_end [] = 0
last_end (w ∷ ws) = max w.1 (last_end ws)

last_end-EndsBy : (ws : List Window) → EndsBy (last_end ws) ws
unfolding last_end
last_end-EndsBy [] = tt
last_end-EndsBy (w ∷ ws) = (omega arith, All-imp ws (λ v h. omega (arith, h)) (last_end-EndsBy ws))

-- Windows that are cut are live for no longer.
pub live_seconds-intersect_windows :
    (ws vs pauses : List Window)
    → live_seconds (intersect_windows ws vs) pauses ≤ live_seconds ws pauses
live_seconds-intersect_windows ws vs pauses =
    let n = last_end ws in
    let cut : EndsBy n (intersect_windows ws vs) =
      EndsBy-of_covered n (intersect_windows ws vs) (intersect_windows-IsNormal ws vs) (λ t c.
        covered-EndsBy n ws t (last_end-EndsBy ws)
          (ground (arith, covered-intersect_windows ws vs t))) in
    let less =
      count_below_le n (λ t. covered (intersect_windows ws vs) t && not (covered pauses t))
        (λ t. covered ws t && not (covered pauses t))
        (λ t h. ground (arith, covered-intersect_windows ws vs t)) in
    omega (
      arith,
      less,
      live_seconds-count n (intersect_windows ws vs) pauses cut,
      live_seconds-count n ws pauses (last_end-EndsBy ws),
    )

-- Both times are known and the first is no longer, or neither is known.
abbrev pub within : Option ℕ → Option ℕ → Bool
within none none = true
within (some a) (some b) = leb a b
within _ _ = false

within-basis_of :
    (events : List Event) (pauses : List Window) (end : ℕ) (topic : String) (values : List ℕ)
    → within (basis_of events pauses end topic values).2 (basis_of events pauses end topic values).1
      ≡ true
unfolding basis_of
within-basis_of events pauses end topic values =
    let windows = subscribed_windows events topic end in
    let span : List Window = (first_of values, last_of values) ∷ [] in
    ground (arith, live_seconds-intersect_windows windows span pauses)

module _ {Data : Type 0} (deserialize : String → Data → EventMsg) where
  -- What is so for each channel that is described is so for the channels of the report.
  describe-All :
      (P : ChannelStats → Type 0) (uri : String) (types : List (String × String))
      (messages : List (Message deserialize))
      → ((events : List Event) (pauses : List Window) (end duration : ℕ) (populated : Stamps)
            (t : String)
          → P (describe_channel types events pauses end duration populated t))
      → All P (describe deserialize uri types messages).channels
  unfolding describe
  describe-All P uri types messages h =
      let result = read_all deserialize types (map (λ p. (p.0, [])) types, []) messages in
      let populated = keep has_stamps result.0 in
      if_either (λ (summary : BagSummary). All P summary.channels) (is_empty populated)
        (empty_summary deserialize uri) (summarise deserialize uri types populated result.1) tt
        (All-map P _ (λ t. h _ _ _ _ populated t) _)

  -- No channel of the report is active for longer than it was recorded, and either both times are
  -- known or neither is.
  pub describe_active :
      (uri : String) (types : List (String × String)) (messages : List (Message deserialize))
      → All
          (λ c. within c.active_seconds c.recorded_seconds ≡ true)
          (describe deserialize uri types messages).channels
  unfolding describe_channel
  describe_active uri types messages =
      describe-All (λ c. within c.active_seconds c.recorded_seconds ≡ true) uri types messages
        (λ events pauses end duration populated t. within-basis_of events pauses end t _)
