-- ===== src/Client/Run.antt =====
-- The methods of `Recorder` in packages/dynrec/dynrec/client.py that call a service, as one type.
use rosbag2_dynamic_recorder.Base.{ℕ, String, Bool, Option, List, [], ◌∷◌}
use rosbag2_dynamic_recorder.Errors.{Result, ok, err}
use rosbag2_dynamic_recorder.Base.Seconds.{Seconds}
use rosbag2_dynamic_recorder.Results.Status.{Status}
use rosbag2_dynamic_recorder.Results.Profiles.{Profiles}
use rosbag2_dynamic_recorder.Results.Change.{TopicChange}
use rosbag2_dynamic_recorder.Schedule.{Mode, At, Stamp, apply_schedule, set_stamp}
use rosbag2_dynamic_recorder.Topics.{Values, parse_topic_specs}
use rosbag2_dynamic_recorder.Client.Call.{
  Request, get_status, get_profiles, get_subscribed_topics, toggle_paused, subscribe_topics,
  unsubscribe_topics, set_profile, split_bagfile, Reply, M, ◌>>=◌, pure,
}
use rosbag2_dynamic_recorder.Client.Operations.{
  status_op, profiles_op, topics_op, is_paused_op, add_op, remove_op, set_topics_op, profile_op,
  pause_op, resume_op, toggle_op, split_op, snapshot_op, stop_op, record_op,
}

pub data Op : Type 0 where
  status profiles topics is_paused pause toggle snapshot stop : Op
  add remove set_topics : Values → String → String → Op
  profile : String → Op
  resume split : At → Mode → String → Op
  record_bag : String → At → Op

-- What a method returns.
pub data Value : Type 0 where
  told : Status Seconds → Value
  configured : Profiles → Value
  names : List String → Value
  flag : Bool → Value
  changed : TopicChange → Value
  scheduled : Option Stamp → Value
  done : Unit {0} → Value

-- How many services a method calls.
abbrev pub calls_of : Op → ℕ
calls_of toggle = 2
calls_of _ = 1

-- The request that is built from something, if that could be built.
abbrev pub request_from : {A : Type 0} → (A → Request) → Result A → List Request
request_from request (ok a) = request a ∷ []
request_from request (err e) = []

-- The requests that a method stands for, the last one first. A method that cannot build its request
-- stands for none.
unfoldable pub requests_of : Op → List Request
requests_of status = get_status ∷ []
requests_of profiles = get_profiles ∷ []
requests_of topics = get_subscribed_topics ∷ []
requests_of is_paused = Request.is_paused ∷ []
requests_of pause = Request.pause ∷ []
requests_of toggle = Request.is_paused ∷ toggle_paused ∷ []
requests_of snapshot = Request.snapshot ∷ []
requests_of stop = Request.stop ∷ []
requests_of (add ts r e) = request_from (λ p. subscribe_topics p.0 p.1 r e) (parse_topic_specs ts)
requests_of (remove ts r e) = request_from (λ p. unsubscribe_topics p.0 r e) (parse_topic_specs ts)
requests_of (set_topics ts r e) =
    request_from (λ p. Request.set_topics p.0 p.1 r e) (parse_topic_specs ts)
requests_of (profile name) = set_profile name ∷ []
requests_of (resume at_time mode topic) =
    request_from (λ p. Request.resume p.0) (apply_schedule at_time mode topic)
requests_of (split at_time mode topic) =
    request_from (λ p. split_bagfile p.0) (apply_schedule at_time mode topic)
requests_of (record_bag uri at_time) =
    request_from (λ p. Request.record_bag uri p.0) (set_stamp at_time)

module _ {Server : Type 0} (serve : String → Request → Server → Reply × Server) where
  abbrev returning : {A : Type 0} → (A → Value) → M Server A → M Server Value
  returning f m = m >>= λ a. pure (f a)

  unfoldable pub run : Op → M Server Value
  unfolding status_op profiles_op topics_op is_paused_op add_op remove_op set_topics_op profile_op
      pause_op resume_op toggle_op split_op snapshot_op stop_op record_op
  run status = returning told (status_op serve)
  run profiles = returning configured (profiles_op serve)
  run topics = returning names (topics_op serve)
  run is_paused = returning flag (is_paused_op serve)
  run pause = returning done (pause_op serve)
  run toggle = returning flag (toggle_op serve)
  run snapshot = returning done (snapshot_op serve)
  run stop = returning done (stop_op serve)
  run (add ts r e) = returning changed (add_op serve ts r e)
  run (remove ts r e) = returning changed (remove_op serve ts r e)
  run (set_topics ts r e) = returning changed (set_topics_op serve ts r e)
  run (profile name) = returning changed (profile_op serve name)
  run (resume at_time mode topic) = returning scheduled (resume_op serve at_time mode topic)
  run (split at_time mode topic) = returning scheduled (split_op serve at_time mode topic)
  run (record_bag uri at_time) = returning scheduled (record_op serve uri at_time)
