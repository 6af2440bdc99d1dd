-- ===== src/Bag/Events/Cover.antt =====
-- The windows of packages/dynrec/dynrec/bag.py that events locate, against the state that the same
-- events describe.
use text.Mathlib.TextEquality.{eq_iff}
use rosbag2_dynamic_recorder.Base.{
  ℕ, ◌≤◌, ◌≡◌, refl, sym, subst, ◌∙◌, String, Bool, true, false, ◌&&◌, none, some, List, [], ltb,
  not, str_eq, All, arith,
}
use rosbag2_dynamic_recorder.Base.Sort.{sorted_by, All-sorted_by, sorted_by-IsSorted}
use rosbag2_dynamic_recorder.Results.Events.{Event}
use rosbag2_dynamic_recorder.Bag.Windows.{covered}
use rosbag2_dynamic_recorder.Bag.Windows.Cover.{covered-merge_windows}
use rosbag2_dynamic_recorder.Base.Count.{count_below, count_below-cong_below}
use rosbag2_dynamic_recorder.Bag.Live.{live_seconds, live_seconds-count, EndsBy-of_covered}
use rosbag2_dynamic_recorder.Bag.Events.State.{state_at, covered-event_loop}
use rosbag2_dynamic_recorder.Bag.Windows.Normal.{IsNormal, merge_windows-IsNormal}
use rosbag2_dynamic_recorder.Bag.Events.{
  stamp_le, event_loop, event_windows, is_subscription_of, subscribed_windows, is_pause,
  pause_windows,
}

-- Two different words are never both the action of an event.
distinct_words :
    (x y : String) → str_eq x y ≡ false → (a : String) → str_eq a x ≡ true → str_eq a y ≡ false
distinct_words x y h a e = subst (λ w. str_eq w y ≡ false) (sym ((eq_iff a x).0 e)) h

stamp_le-total : (e f : Event) → stamp_le e f ≡ false → stamp_le f e ≡ true
stamp_le-total e f h = ground arith

stamp_le_trans : (e f g : Event) → stamp_le e f ≡ true → stamp_le f g ≡ true → stamp_le e g ≡ true
stamp_le_trans e f g h k = ground arith

-- The state at a time, by the events sorted on their stamps.
unfoldable pub in_state : (Event → Bool) → String → String → List Event → ℕ → Bool
unfolding state_at
in_state matches opening closing events t =
    state_at matches opening closing t false (sorted_by stamp_le events)

covered-event_windows :
    (matches : Event → Bool) (opening closing : String) (end t : ℕ) (events : List Event)
    → str_eq opening closing ≡ false
    → All (λ e. e.stamp ≤ end) events
    → covered (event_windows matches opening closing end events) t
      ≡ (in_state matches opening closing events t && ltb t end)
unfolding event_windows in_state
covered-event_windows matches opening closing end t events h b =
    covered-merge_windows
      (event_loop matches opening closing end (none, []) (sorted_by stamp_le events)) t
    ∙ covered-event_loop matches opening closing end t (distinct_words opening closing h) none []
        (sorted_by stamp_le events)
        (sorted_by-IsSorted stamp_le stamp_le-total stamp_le_trans events)
        (All-sorted_by stamp_le (λ e. e.stamp ≤ end) events b) tt

-- The subscription events of a topic, in the order of their stamps: the topic is subscribed when the
-- last of them up to the time that says `subscribed` or `unsubscribed` says `subscribed`.
abbrev pub subscribed_at : List Event → String → ℕ → Bool
subscribed_at events topic = in_state (is_subscription_of topic) "subscribed" "unsubscribed" events

-- The same of the pause events, with `paused` and `resumed`.
abbrev pub paused_at : List Event → ℕ → Bool
paused_at = in_state is_pause "paused" "resumed"

-- Where no event is stamped later than the end of the bag, the subscription windows of a topic cover
-- exactly the times before that end at which the topic is subscribed.
pub covered-subscribed_windows :
    (events : List Event) (topic : String) (bag_end t : ℕ)
    → All (λ e. e.stamp ≤ bag_end) events
    → covered (subscribed_windows events topic bag_end) t
      ≡ (subscribed_at events topic t && ltb t bag_end)
unfolding subscribed_windows
covered-subscribed_windows events topic bag_end t b =
    covered-event_windows (is_subscription_of topic) "subscribed" "unsubscribed" bag_end t events
      refl b

-- Where no event is stamped later than the end of the bag, the pause windows cover exactly the times
-- before that end at which the recorder is paused.
pub covered-pause_windows :
    (events : List Event) (bag_end t : ℕ)
    → All (λ e. e.stamp ≤ bag_end) events
    → covered (pause_windows events (some bag_end)) t ≡ (paused_at events t && ltb t bag_end)
unfolding pause_windows
covered-pause_windows events bag_end t b =
    covered-event_windows is_pause "paused" "resumed" bag_end t events refl b

subscribed_windows-IsNormal :
    (events : List Event) (topic : String) (bag_end : ℕ)
    → IsNormal (subscribed_windows events topic bag_end)
unfolding subscribed_windows
subscribed_windows-IsNormal events topic bag_end = merge_windows-IsNormal (
    event_loop (is_subscription_of topic) "subscribed" "unsubscribed" bag_end (none, [])
      (sorted_by stamp_le events))

-- What describe reports as the recorded time of a channel is the number of nanoseconds before the end
-- of the bag at which the topic is subscribed and the recorder is not paused, where no event is stamped
-- later than that end.
pub recorded_time-count :
    (events : List Event) (topic : String) (bag_end : ℕ)
    → All (λ e. e.stamp ≤ bag_end) events
    → live_seconds (subscribed_windows events topic bag_end) (pause_windows events (some bag_end))
      ≡ count_below bag_end (λ t. subscribed_at events topic t && not (paused_at events t))
recorded_time-count events topic bag_end b =
    live_seconds-count bag_end (subscribed_windows events topic bag_end) _ (
      EndsBy-of_covered bag_end _ (subscribed_windows-IsNormal events topic bag_end)
        (λ t c. ground (arith, covered-subscribed_windows events topic bag_end t b)))
    ∙ count_below-cong_below bag_end _ _ (λ t h. ground (
      arith,
      covered-subscribed_windows events topic bag_end t b,
      covered-pause_windows events bag_end t b,
    ))
