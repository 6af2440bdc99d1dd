-- ===== src/Ui/Actions.antt =====
-- What the page may ask for, in packages/rosbag2_dynamic_recorder_ui/rosbag2_dynamic_recorder_ui/ui_node.py:
-- ACTIONS, resolve_at and `call`. A payload is the object that the page sends, with fields of the types
-- that the methods of Recorder take.
pub mod Resolved
pub mod Sent
pub mod Scheduled
use rosbag2_dynamic_recorder.Base.{
  ℕ, String, Bool, true, false, Option, none, some, List, [], ◌∷◌, str_eq, if◌then◌else◌,
}
use rosbag2_dynamic_recorder.Base.Int.{ℤ, pos, ◌+ℤ◌}
use rosbag2_dynamic_recorder.Base.Seconds.{Seconds, add_seconds, scale}
use rosbag2_dynamic_recorder.Base.Text.{strip_spaces, is_blank}
use rosbag2_dynamic_recorder.Errors.{Error, fault, Result, ok, err, ◌>>=◌}
use rosbag2_dynamic_recorder.Results.Events.{nanoseconds_per_second}
use rosbag2_dynamic_recorder.Results.Status.{Status}
use rosbag2_dynamic_recorder.Schedule.{seconds_of, Mode, word, Stamp}
use rosbag2_dynamic_recorder.Schedule.Time.{
  Platform, TimeArg, instant, number, written, finite, parse_time, at_of,
}
use rosbag2_dynamic_recorder.Topics.{Values, several}
use rosbag2_dynamic_recorder.Client.Call.{Request, Reply, World}
use rosbag2_dynamic_recorder.Client.Run.{Op, Value, changed, scheduled, run}

-- A field that is missing is none; a null `at` is none as well.
pub record Payload : Type 0 where
  pub topics : Option Values
  pub regex : Option String
  pub exclude_regex : Option String
  pub at_time : Option TimeArg
  pub mode : Option Mode
  pub topic : Option String
  pub name : Option String
  pub uri : Option String

-- `payload.get(field, default)`
abbrev pub or_else : {A : Type 0} → A → Option A → A
or_else value none = value
or_else _ (some value) = value

-- `_selection`, for a method that takes it.
abbrev pub selection : (Values → String → String → Op) → Payload → Op
selection method p =
    method (or_else (several []) p.topics) (or_else "" p.regex) (or_else "" p.exclude_regex)

module _ (platform : Platform) (now : Seconds) where
  -- `_when`, for a method that takes it; the method reads `at` by the machine's clock.
  abbrev pub when : (Option (Result Stamp) → Mode → String → Op) → Payload → Op
  when method p =
      method (at_of platform now p.at_time) (or_else (word "node") p.mode) (or_else "" p.topic)

  abbrev pub Action : Type 0
  Action = String × (Payload → Op)

  abbrev pub actions : List Action
  actions =
      ("set_topics", selection Op.set_topics)
      ∷ ("subscribe_topics", selection Op.add)
      ∷ ("unsubscribe_topics", selection Op.remove)
      ∷ ("set_profile", λ p. Op.profile (or_else "" p.name))
      ∷ ("pause", λ p. Op.pause)
      ∷ ("resume", when Op.resume)
      ∷ ("split_bagfile", when Op.split)
      ∷ ("snapshot", λ p. Op.snapshot)
      ∷ ("stop", λ p. Op.stop)
      ∷ ("record", λ p. Op.record_bag (or_else "" p.uri) (at_of platform now p.at_time))
      ∷ []

-- `ACTIONS.get(action)`
abbrev pub get_action : String → List (String × (Payload → Op)) → Option (Payload → Op)
get_action action [] = none
get_action action ((name, method) ∷ actions) =
    if str_eq action name then some method else get_action action actions

-- The stamp of a status is a number of nanoseconds.
unfoldable pub recorder_now : Status Seconds → Seconds → Seconds
unfolding add_seconds
recorder_now status age =
    add_seconds (record { num = pos status.stamp; den = nanoseconds_per_second }) age

-- `at is None or (isinstance(at, str) and not at.strip())`
unfoldable pub is_now : Option TimeArg → Bool
unfolding strip_spaces
is_now none = true
is_now (some (written s)) = is_blank (strip_spaces s)
is_now (some at_time) = false

module _ (platform : Platform) where
  -- `parse_time(at, now=…)`, as the `at` of a payload.
  abbrev pub resolved : Payload → Result Stamp → Result Payload
  resolved payload parsed = parsed >>= λ stamp.
      ok (record payload { at_time = some (number (finite (seconds_of stamp))) })

  abbrev pub resolve_by :
      Payload → Option TimeArg → Option (Status Seconds) → Seconds → Result Payload
  unfolding recorder_now
  resolve_by payload none status age = ok payload
  resolve_by payload (some at_time) none age = ok payload
  resolve_by payload (some at_time) (some status) age =
      resolved payload (parse_time platform (recorder_now status age) at_time)

  unfoldable pub resolve_at : Payload → Option (Status Seconds) → Seconds → Result Payload
  unfolding is_now resolve_by
  resolve_at payload status age =
      if is_now payload.at_time
      then ok (record payload { at_time = none })
      else resolve_by payload payload.at_time status age

-- Why the answer says `ok: false`.
pub data Refusal : Type 0 where
  unknown_action : String → Refusal
  raised : Error → Refusal

-- The answer: `refused` has `ok: false`; `accepted` has the topics of a topic change and the time of a
-- schedule, where the action gives them.
pub data Answer : Type 0 where
  refused : Refusal → Answer
  accepted : Option (List String) → Option Stamp → Answer

abbrev pub answer : Value → Answer
answer (changed change) = accepted (some change.subscribed) none
answer (scheduled at_time) = accepted none at_time
answer _ = accepted none none

-- `except DynrecError`
abbrev pub caught : Error → Result Answer
caught (fault f) = err (fault f)
caught e = ok (refused (raised e))

abbrev pub answered : Result Value → Result Answer
answered (ok value) = ok (answer value)
answered (err e) = caught e

module _ {Server : Type 0} (serve : String → Request → Server → Reply × Server)
    (platform : Platform) (now : Seconds) where
  -- The method, once its payload is resolved.
  abbrev pub run_resolved :
      (Payload → Op) → Result Payload → World Server → Result Answer × World Server
  unfolding run
  run_resolved method (err e) w = (caught e, w)
  run_resolved method (ok payload) w =
      let (result, w') = run serve (method payload) w in (answered result, w')

  abbrev pub run_action :
      String → Option (Payload → Op) → Result Payload → World Server → Result Answer × World Server
  unfolding run_resolved
  run_action action none payload w = (ok (refused (unknown_action action)), w)
  run_action action (some method) payload w = run_resolved method payload w

  -- `call`, with the last status and its age.
  unfoldable pub call_action :
      String
      → Payload
      → Option (Status Seconds)
      → Seconds
      → World Server
      → Result Answer × World Server
  unfolding resolve_at run_action
  call_action action payload status age w =
      run_action action (get_action action (actions platform now))
        (resolve_at platform payload status age) w
