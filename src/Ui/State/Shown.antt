-- ===== src/Ui/State/Shown.antt =====
-- The page's state after what has arrived, in
-- packages/rosbag2_dynamic_recorder_ui/rosbag2_dynamic_recorder_ui/ui_node.py.
use mathlib.Core.List.{Perm}
use rosbag2_dynamic_recorder.Base.{
  ℕ, ◌+◌, ◌*◌, ◌≡◌, refl, ap, subst, ◌∙◌, String, Bool, true, false, Option, none, some, List, [],
  ◌∷◌, ltb, arith,
}
use rosbag2_dynamic_recorder.Base.Int.{sub_ℕ}
use rosbag2_dynamic_recorder.Base.Seconds.{Seconds, is_after}
use rosbag2_dynamic_recorder.Base.Sort.{sorted_by, sorted_by-perm, sorted_by-IsSorted, IsSorted}
use rosbag2_dynamic_recorder.Results.Events.{Event, nanoseconds_per_second}
use rosbag2_dynamic_recorder.Results.Status.{Status}
use rosbag2_dynamic_recorder.Ui.{history_limit, keep_last, add_to_history}
use rosbag2_dynamic_recorder.Ui.History.{receive, receive_last}
use rosbag2_dynamic_recorder.Ui.State.{
  Arrival, status_at, event, Kept, nothing_yet, take_in, Told, event_le, age_of, build_state,
  snapshot_state, is_stale, told_of,
}

-- The arrivals one after the other.
abbrev pub take_all : List Arrival → Kept → Kept
unfolding take_in
take_all [] kept = kept
take_all (arrival ∷ arrivals) kept = take_all arrivals (take_in arrival kept)

abbrev pub events_of : List Arrival → List Event
events_of [] = []
events_of (status_at status now ∷ arrivals) = events_of arrivals
events_of (event e ∷ arrivals) = e ∷ events_of arrivals

-- The last status that arrived, with its reading of the clock, or else the one before.
abbrev pub last_status : Option (Status Seconds × ℕ) → List Arrival → Option (Status Seconds × ℕ)
last_status known [] = known
last_status known (status_at status now ∷ arrivals) = last_status (some (status, now)) arrivals
last_status known (event e ∷ arrivals) = last_status known arrivals

take_all-events :
    (arrivals : List Arrival) (kept : Kept)
    → (take_all arrivals kept).events ≡ receive kept.events (events_of arrivals)
unfolding take_all take_in
take_all-events [] kept = refl
take_all-events (status_at status now ∷ arrivals) kept =
    take_all-events arrivals (record kept { status = some status; status_stamp = now })
take_all-events (event e ∷ arrivals) kept =
    take_all-events arrivals (record kept { events = add_to_history kept.events e })

-- What is kept of the last status.
abbrev status_of : Kept → Option (Status Seconds × ℕ)
status_of kept = elim kept.status [ none ↦ none | some status ↦ some (status, kept.status_stamp) ]

take_all-status :
    (arrivals : List Arrival) (kept : Kept)
    → status_of (take_all arrivals kept) ≡ last_status (status_of kept) arrivals
unfolding take_all take_in
take_all-status [] kept = refl
take_all-status (status_at status now ∷ arrivals) kept =
    take_all-status arrivals (record kept { status = some status; status_stamp = now })
take_all-status (event e ∷ arrivals) kept =
    take_all-status arrivals (record kept { events = add_to_history kept.events e })

event_le_total : (a b : Event) → event_le a b ≡ false → event_le b a ≡ true
event_le_total a b h = ground (arith, h)

event_le_trans : (a b c : Event) → event_le a b ≡ true → event_le b c ≡ true → event_le a c ≡ true
event_le_trans a b c h k = ground (arith, h, k)

-- Whatever has arrived, and in whatever order, the history that the page gets is sorted by the
-- recorder's stamps and consists of the last 400 of the events that have arrived.
pub snapshot_state-history :
    (recorder : String) (arrivals : List Arrival) (now : ℕ) (graph : List (String × List String))
    → let state = snapshot_state now graph (take_all arrivals (nothing_yet recorder)) in
      IsSorted event_le state.history
      × Perm state.history (keep_last history_limit (events_of arrivals))
unfolding snapshot_state build_state
snapshot_state-history recorder arrivals now graph =
    let kept = (take_all arrivals (nothing_yet recorder)).events in
    let same : kept ≡ keep_last history_limit (events_of arrivals) =
      take_all-events arrivals (nothing_yet recorder) ∙ receive_last (events_of arrivals) in
    (
      sorted_by-IsSorted event_le event_le_total event_le_trans kept,
      subst (λ events. Perm (sorted_by event_le kept) events) same (sorted_by-perm event_le kept),
    )

-- What the page is told of a status, by the time since it arrived.
abbrev pub is_old : ℕ → ℕ → Bool
is_old now arrived = ltb (arrived + 5 * nanoseconds_per_second) now

abbrev pub shown : Option Told → Option (Status Seconds × Bool)
shown none = none
shown (some told) = some (told.status, told.stale)

abbrev pub shown_at : ℕ → Option (Status Seconds × ℕ) → Option (Status Seconds × Bool)
shown_at now none = none
shown_at now (some (status, arrived)) = some (status, is_old now arrived)

is_stale-since :
    (now arrived : ℕ)
    → is_stale (some (record { num = sub_ℕ now arrived; den = nanoseconds_per_second }))
      ≡ is_old now arrived
unfolding is_stale is_after
is_stale-since now arrived = ground arith

told_of-shown :
    (kept : Kept) (now : ℕ)
    → shown (told_of kept.status (age_of now kept)) ≡ shown_at now (status_of kept)
unfolding age_of told_of
told_of-shown kept now = go kept.status
  where
    go :
        (status : Option (Status Seconds))
        → shown (
            told_of status (elim status as (λ _. Option Seconds) [
              | none ↦ none
              | some s ↦
                  some (record { num = sub_ℕ now kept.status_stamp; den = nanoseconds_per_second })
            ]))
          ≡ shown_at now (elim status as (λ _. Option (Status Seconds × ℕ)) [
            | none ↦ none
            | some s ↦ some (s, kept.status_stamp)
          ])
    go none = refl
    go (some s) = ap (λ stale. some (s, stale)) (is_stale-since now kept.status_stamp)

-- Whatever has arrived, the page is told of the last status that has, and that it is stale exactly
-- when that was more than five seconds ago; before the first status it is told of none.
pub snapshot_state-shown :
    (recorder : String) (arrivals : List Arrival) (now : ℕ) (graph : List (String × List String))
    → shown (snapshot_state now graph (take_all arrivals (nothing_yet recorder))).told
      ≡ shown_at now (last_status none arrivals)
unfolding snapshot_state build_state
snapshot_state-shown recorder arrivals now graph =
    told_of-shown (take_all arrivals (nothing_yet recorder)) now
    ∙ ap (shown_at now) (take_all-status arrivals (nothing_yet recorder))
