-- ===== src/Client/Refused/Run.antt =====
-- Every method of `Recorder` in packages/dynrec/dynrec/client.py, with a request that cannot be built.
use rosbag2_dynamic_recorder.Base.{String}
use rosbag2_dynamic_recorder.Errors.{Response, Result}
use rosbag2_dynamic_recorder.Client.Call.{
  Request, Reply, World, M, ◌>>=◌, pure, lift, call, is_paused, toggle_paused, snapshot,
  subscribe_topics, unsubscribe_topics, set_topics, split_bagfile,
}
use rosbag2_dynamic_recorder.Results.Change.{change_from_msg}
use rosbag2_dynamic_recorder.Schedule.{apply_schedule, set_stamp}
use rosbag2_dynamic_recorder.Topics.{parse_topic_specs, require_a_selection}
use rosbag2_dynamic_recorder.Client.Operations.{
  status_op, profiles_op, topics_op, is_paused_op, add_op, remove_op, set_topics_op, profile_op,
  pause_op, resume_op, toggle_op, split_op, snapshot_op, stop_op, record_op,
}
use rosbag2_dynamic_recorder.Client.Run.{Op, Value, run}
use rosbag2_dynamic_recorder.Client.Refused.{
  IsSent, IsUntouched, IsUntouched-sent, IsUntouched-lift, IsUntouched-returning, IsSent->>=,
  IsSent-snapshot, IsSent-call, IsSent-call-pure,
}

module _ {Server : Type 0} (serve : String → Request → Server → Reply × Server) where
  -- A method that only calls.
  calls :
      {A B : Type 0} (w : World Server) (m : M Server A) (f : A → B)
      → IsSent (m w)
      → IsUntouched w ((m >>= λ a. pure (f a)) w)
  calls w m f h = IsUntouched-returning w m f (IsUntouched-sent w (m w) h)

  -- A method that parses topics, or a time, and calls.
  call-IsUntouched :
      {B : Type 0} (verb : String) (request : Request) (w : World Server) (f : Response → B)
      → IsUntouched w ((call serve verb request >>= λ r. pure (f r)) w)
  call-IsUntouched verb request w f = IsUntouched-sent w _ (IsSent-call-pure serve verb request w f)

  built :
      {A B : Type 0} (r : Result A) (verb : String) (request : A → Request) (f : A → Response → B)
      (w : World Server)
      → IsUntouched w ((lift r >>= λ a. call serve verb (request a) >>= λ s. pure (f a s)) w)
  built r verb request f w =
      IsUntouched-lift r w (λ a. call serve verb (request a) >>= λ s. pure (f a s))
        (λ a. call-IsUntouched verb (request a) w (f a))

  -- A method that also checks the selection.
  selected :
      {A : Type 0} (r : Result A) (check : A → Result (Unit {0})) (verb : String)
      (request : A → Request) (w : World Server)
      → IsUntouched w (
          (lift r >>= λ a.
          lift (check a) >>= λ _. call serve verb (request a) >>= λ s. pure (change_from_msg s))
            w)
  selected r check verb request w =
      IsUntouched-lift r w
        (λ a. lift (check a) >>= λ _. call serve verb (request a) >>= λ s. pure (change_from_msg s))
        (λ a. built (check a) verb (λ _. request a) (λ _ s. change_from_msg s) w)

  -- A method that fails with InvalidRequest has changed nothing: no client was created and nothing was
  -- sent to the recorder.
  pub IsUntouched-run : (op : Op) (w : World Server) → IsUntouched w (run serve op w)
  unfolding run status_op profiles_op topics_op is_paused_op add_op remove_op set_topics_op
      profile_op pause_op resume_op toggle_op split_op snapshot_op stop_op record_op
  IsUntouched-run Op.status w =
      calls w (status_op serve) Value.told (IsSent-call-pure serve _ _ w _)
  IsUntouched-run Op.profiles w =
      calls w (profiles_op serve) Value.configured (IsSent-call-pure serve _ _ w _)
  IsUntouched-run Op.topics w =
      calls w (topics_op serve) Value.names (IsSent-call-pure serve _ _ w _)
  IsUntouched-run Op.is_paused w =
      calls w (is_paused_op serve) Value.flag (IsSent-call-pure serve _ _ w _)
  IsUntouched-run Op.pause w = calls w (pause_op serve) Value.done (IsSent-call-pure serve _ _ w _)
  IsUntouched-run Op.toggle w = calls w (toggle_op serve) Value.flag (
      IsSent->>= w (call serve "toggle_paused" toggle_paused) (λ _. is_paused_op serve)
        (IsSent-call serve "toggle_paused" toggle_paused w)
        (λ _ w'. IsSent-call-pure serve "is_paused" is_paused w' (λ r. r.paused)))
  IsUntouched-run Op.snapshot w = calls w (snapshot_op serve) Value.done (
      IsSent->>= w (call serve "snapshot" snapshot) _ (IsSent-call serve "snapshot" snapshot w)
        (λ r w'. IsSent-snapshot r w'))
  IsUntouched-run Op.stop w = calls w (stop_op serve) Value.done (IsSent-call-pure serve _ _ w _)
  IsUntouched-run (Op.profile name) w =
      calls w (profile_op serve name) Value.changed (IsSent-call-pure serve _ _ w _)
  IsUntouched-run (Op.add ts r e) w = IsUntouched-returning w (add_op serve ts r e) Value.changed (
      selected (parse_topic_specs ts) (λ p. require_a_selection p.0 r) "subscribe_topics"
        (λ p. subscribe_topics p.0 p.1 r e) w)
  IsUntouched-run (Op.remove ts r e) w =
      IsUntouched-returning w (remove_op serve ts r e) Value.changed (
        selected (parse_topic_specs ts) (λ p. require_a_selection p.0 r) "unsubscribe_topics"
          (λ p. unsubscribe_topics p.0 r e) w)
  IsUntouched-run (Op.set_topics ts r e) w =
      IsUntouched-returning w (set_topics_op serve ts r e) Value.changed (
        built (parse_topic_specs ts) "set_topics" (λ p. set_topics p.0 p.1 r e)
          (λ _ s. change_from_msg s) w)
  IsUntouched-run (Op.resume at_time mode topic) w =
      IsUntouched-returning w (resume_op serve at_time mode topic) Value.scheduled (
        built (apply_schedule at_time mode topic) "resume" (λ p. Request.resume p.0) (λ p _. p.1) w)
  IsUntouched-run (Op.split at_time mode topic) w =
      IsUntouched-returning w (split_op serve at_time mode topic) Value.scheduled (
        built (apply_schedule at_time mode topic) "split_bagfile" (λ p. split_bagfile p.0)
          (λ p _. p.1) w)
  IsUntouched-run (Op.record_bag uri at_time) w =
      IsUntouched-returning w (record_op serve uri at_time) Value.scheduled
        (built (set_stamp at_time) "record" (λ p. Request.record_bag uri p.0) (λ p _. p.1) w)
