-- ===== src/Client/Watch.antt =====
-- The callbacks of packages/dynrec/dynrec/client.py: on_status, on_event, the handle's cancel, _fan_out
-- and wait_for. A callback is a number, since the program compares callbacks by identity.
pub mod Subscribed
pub mod Cancelled
pub mod Delivered
use rosbag2_dynamic_recorder.Base.{
  ℕ, ◌==◌, String, Bool, true, false, not, ◌&&◌, Option, none, some, List, [], ◌∷◌, ◌++◌, map,
  is_empty, any, if◌then◌else◌,
}
use rosbag2_dynamic_recorder.Base.Text.{append}
use rosbag2_dynamic_recorder.Results.Events.{event_streams}
use rosbag2_dynamic_recorder.Errors.{Result, ok, err, call_timeout}

-- The subscriptions that are held, by their topics, and the callbacks; `created` has the topic of every
-- create_subscription call.
pub record Watching : Type 0 where
  pub name : String
  pub status_sub : List String
  pub status_callbacks : List ℕ
  pub event_subs : List String
  pub event_callbacks : List ℕ
  pub created : List String

-- What `__init__` sets.
abbrev pub watching : String → Watching
watching name = record {
  name = name;
  status_sub = [];
  status_callbacks = [];
  event_subs = [];
  event_callbacks = [];
  created = [];
}

abbrev pub status_topics : String → List String
status_topics name = append name "/status" ∷ []

abbrev pub event_topics : String → List String
event_topics name = map (λ stream. append name stream.0) event_streams

-- `if self._status_sub is None`, `if not self._event_subs`: the topics of the subscriptions to create.
abbrev pub missing : List String → List String → List String
missing topics subs = if is_empty subs then topics else []

unfoldable pub on_status : ℕ → Watching → Watching
on_status callback w =
    let new = missing (status_topics w.name) w.status_sub in
    record w {
      status_callbacks = w.status_callbacks ++ callback ∷ [];
      status_sub = w.status_sub ++ new;
      created = w.created ++ new;
    }

unfoldable pub on_event : ℕ → Watching → Watching
on_event callback w =
    let new = missing (event_topics w.name) w.event_subs in
    record w {
      event_callbacks = w.event_callbacks ++ callback ∷ [];
      event_subs = w.event_subs ++ new;
      created = w.created ++ new;
    }

-- `callbacks.remove(callback)` takes the first one, and `_drop` asks first whether there is one.
unfoldable pub drop_callback : ℕ → List ℕ → List ℕ
drop_callback callback [] = []
drop_callback callback (c ∷ callbacks) =
    let rest = drop_callback callback callbacks in if callback == c then callbacks else c ∷ rest

unfoldable pub cancel_status : ℕ → Watching → Watching
unfolding drop_callback
cancel_status callback w = record w { status_callbacks = drop_callback callback w.status_callbacks }

unfoldable pub cancel_event : ℕ → Watching → Watching
unfolding drop_callback
cancel_event callback w = record w { event_callbacks = drop_callback callback w.event_callbacks }

-- `cancel` of the handle, which has whether it is live and what it undoes.
unfoldable pub cancel : (Watching → Watching) → Bool × Watching → Bool × Watching
cancel unregister (true, w) = (false, unregister w)
cancel unregister (false, w) = (false, w)

module _ {Payload State : Type 0} (react : ℕ → Payload → State → Option String × State) where
  -- `react` is the code of the callbacks: with the name of the exception, if it raises one. The log
  -- gets a line for every exception.
  unfoldable pub fan_out : List ℕ → Payload → State × List String → State × List String
  fan_out [] payload (state, log) = (state, log)
  fan_out (callback ∷ callbacks) payload (state, log) =
      let (raised, next) = react callback payload state in
      fan_out callbacks payload (next, elim raised [ none ↦ log | some error ↦ log ++ error ∷ [] ])

module _ {Status : Type 0} (predicate : Status → Bool) where
  -- `check`: the flag `satisfied` and the list `matched`.
  abbrev pub check : Bool × List Status → Status → Bool × List Status
  check (satisfied, matched) status =
      if not satisfied && predicate status
      then (true, matched ++ status ∷ [])
      else (satisfied, matched)

  abbrev pub check_all : Bool × List Status → List Status → Bool × List Status
  check_all seen [] = seen
  check_all seen (status ∷ statuses) = check_all (check seen status) statuses

  -- `matched[0]`, or the timeout.
  abbrev pub first_match : Bool × List Status → Result Status
  first_match (false, matched) = err (call_timeout "wait_for")
  first_match (true, []) = err (call_timeout "wait_for")
  first_match (true, status ∷ matched) = ok status

  -- `wait_for`, with the statuses that are delivered before the timeout.
  unfoldable pub wait_for : List Status → Result Status
  wait_for statuses = first_match (check_all (false, []) statuses)
