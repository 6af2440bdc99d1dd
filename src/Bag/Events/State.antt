-- ===== src/Bag/Events/State.antt =====
-- What the event windows of packages/dynrec/dynrec/bag.py cover: the state that the events describe.
use rosbag2_dynamic_recorder.Base.{
  ℕ, ◌≤◌, ◌<◌, ◌≡◌, refl, ◌∙◌, String, Bool, true, false, ◌&&◌, ◌||◌, Option, none, some, List, [],
  ◌∷◌, leb, ltb, str_eq, All, leb→le, arith, if◌then◌else◌,
}
use rosbag2_dynamic_recorder.Base.Sort.{IsSorted}
use rosbag2_dynamic_recorder.Results.Events.{Event}
use rosbag2_dynamic_recorder.Bag.Windows.{Window, covered}
use rosbag2_dynamic_recorder.Bag.Windows.Cover.{covered-append}
use rosbag2_dynamic_recorder.Bag.Events.{stamp_le, event_round, event_loop}

-- What one event makes of the state.
abbrev turned : String → String → Event → Bool → Bool
turned opening closing e b =
    if str_eq e.action opening then true else if str_eq e.action closing then false else b

module _ (matches : Event → Bool) (opening closing : String) where
  -- The state at a time: that of the last event up to it, among the matching ones in this order.
  unfoldable pub state_at : ℕ → Bool → List Event → Bool
  state_at t b [] = b
  state_at t b (e ∷ events) =
      state_at t (if matches e && leb e.stamp t then turned opening closing e b else b) events

  frozen :
      (m t : ℕ) (b : Bool) (events : List Event)
      → t < m
      → All (λ e. leb m e.stamp ≡ true) events
      → state_at t b events ≡ b
  unfolding state_at
  frozen m t b [] h a = refl
  frozen m t b (e ∷ events) h a = ground (arith, frozen m t b events h a.1)

  -- What a loop that has the stamp of an open window will add to the windows.
  abbrev rest_state : Option ℕ → ℕ → ℕ → List Event → Bool
  rest_state none end t events = state_at t false events && ltb t end
  rest_state (some s) end t events = leb s t && state_at t true events && ltb t end

  abbrev OpenedBefore : Option ℕ → List Event → Type 0
  OpenedBefore none events = Unit
  OpenedBefore (some s) events = All (λ e. leb s e.stamp ≡ true) events

  after : ℕ → Bool → Event → Bool
  after t b e = if matches e && leb e.stamp t then turned opening closing e b else b

  module _ (end t : ℕ)
      (distinct : (a : String) → str_eq a opening ≡ true → str_eq a closing ≡ false) where
    -- One round from no open window, and one from an open window.
    round-Rest_none :
        (windows : List Window) (e : Event) (events : List Event)
        → All (λ f. leb e.stamp f.stamp ≡ true) events
        → let (opened', windows') = event_round matches opening closing end none windows e in
          (covered windows' t || rest_state opened' end t events)
          ≡ (covered windows t || (state_at t (after t false e) events && ltb t end))
    unfolding after
    round-Rest_none windows e events later = ground (arith, frozen e.stamp t false events)

    round-Rest_some :
        (m : ℕ) (windows : List Window) (e : Event) (events : List Event)
        → m ≤ e.stamp
        → e.stamp ≤ end
        → All (λ f. leb e.stamp f.stamp ≡ true) events
        → let (opened', windows') = event_round matches opening closing end (some m) windows e in
          (covered windows' t || rest_state opened' end t events)
          ≡ (covered windows t || (leb m t && state_at t (after t true e) events && ltb t end))
    unfolding after
    round-Rest_some m windows e events h k later = ground (
      arith,
      distinct e.action,
      frozen e.stamp t false events,
      frozen e.stamp t true events,
      covered-append windows ((m, e.stamp) ∷ []) t,
    )

    round-rest_state :
        (opened : Option ℕ) (windows : List Window) (e : Event) (events : List Event)
        → OpenedBefore opened (e ∷ events)
        → e.stamp ≤ end
        → All (λ f. leb e.stamp f.stamp ≡ true) events
        → let (opened', windows') = event_round matches opening closing end opened windows e in
          (covered windows' t || rest_state opened' end t events)
          ≡ (covered windows t || rest_state opened end t (e ∷ events))
    unfolding state_at after
    round-rest_state none windows e events o k later = round-Rest_none windows e events later
    round-rest_state (some m) windows e events o k later =
        round-Rest_some m windows e events (leb→le m e.stamp o.0) k later

    round-OpenedBefore :
        (opened : Option ℕ) (windows : List Window) (e : Event) (events : List Event)
        → OpenedBefore opened (e ∷ events)
        → All (λ f. leb e.stamp f.stamp ≡ true) events
        → OpenedBefore (event_round matches opening closing end opened windows e).0 events
    round-OpenedBefore none windows e events o later = ground arith
    round-OpenedBefore (some m) windows e events o later = ground arith

    pub covered-event_loop :
        (opened : Option ℕ) (windows : List Window) (events : List Event)
        → IsSorted stamp_le events
        → All (λ e. e.stamp ≤ end) events
        → OpenedBefore opened events
        → covered (event_loop matches opening closing end (opened, windows) events) t
          ≡ (covered windows t || rest_state opened end t events)
    unfolding event_loop state_at
    covered-event_loop none windows [] s b o = ground arith
    covered-event_loop (some m) windows [] s b o =
        ground (arith, covered-append windows ((m, end) ∷ []) t)
    covered-event_loop opened windows (e ∷ events) s b o =
        let (opened', windows') = event_round matches opening closing end opened windows e in
        covered-event_loop opened' windows' events s.1 b.1
          (round-OpenedBefore opened windows e events o s.0)
        ∙ round-rest_state opened windows e events o b.0 s.0
