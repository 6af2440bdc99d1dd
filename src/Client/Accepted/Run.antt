-- ===== src/Client/Accepted/Run.antt =====
-- Every method of `Recorder` in packages/dynrec/dynrec/client.py, and what it has sent when it ends.
use rosbag2_dynamic_recorder.Base.{String, [], ◌∷◌, if◌then◌else◌}
use rosbag2_dynamic_recorder.Errors.{Response, Result, ok, err, snapshot_failed}
use rosbag2_dynamic_recorder.Client.Call.{
  Request, Reply, World, ◌>>=◌, pure, lift, call, is_paused, toggle_paused, snapshot,
  subscribe_topics, unsubscribe_topics, set_topics, split_bagfile,
}
use rosbag2_dynamic_recorder.Results.Change.{change_from_msg}
use rosbag2_dynamic_recorder.Schedule.{apply_schedule, set_stamp}
use rosbag2_dynamic_recorder.Topics.{parse_topic_specs, require_a_selection}
use rosbag2_dynamic_recorder.Client.Operations.{
  status_op, profiles_op, topics_op, is_paused_op, add_op, remove_op, set_topics_op, profile_op,
  pause_op, resume_op, toggle_op, split_op, snapshot_op, stop_op, record_op,
}
use rosbag2_dynamic_recorder.Client.Run.{Op, Value, run, calls_of, request_from, requests_of}
use rosbag2_dynamic_recorder.Client.Accepted.{
  Accepts, Accepts-lift, Accepts-call->>=, Accepts-call-pure, Accepts-lift->>=, Accepts-returning,
  Accepts-set_stamped, Accepts-selected,
}

module _ {Server : Type 0} (serve : String → Request → Server → Reply × Server) where
  abbrev snapshot_result : Response → Result (Unit {0})
  snapshot_result r = if r.success then ok tt else err snapshot_failed

  -- Parse, call and read the change.
  Accepts-set_topics :
      {A : Type 0} (r : Result A) (request : A → Request) (w : World Server)
      → Accepts 1 (request_from request r) w (
          (lift r >>= λ a. call serve "set_topics" (request a) >>= λ s. pure (change_from_msg s)) w)
  Accepts-set_topics r request w =
      Accepts-lift->>= 1 (request_from request r) r w
        (λ a. call serve "set_topics" (request a) >>= λ s. pure (change_from_msg s))
        (λ a e w'. rw e (Accepts-call-pure serve "set_topics" (request a) w' change_from_msg))

  -- A method that returns has had exactly the requests it stands for answered and accepted, in
  -- addition to what was in the log: two for toggle, one for any other. A method that fails has sent at
  -- most as many, the first ones of them.
  pub Accepts-run :
      (op : Op) (w : World Server) → Accepts (calls_of op) (requests_of op) w (run serve op w)
  unfolding run requests_of status_op profiles_op topics_op is_paused_op add_op remove_op
      set_topics_op profile_op pause_op resume_op toggle_op split_op snapshot_op stop_op record_op
  Accepts-run Op.status w =
      Accepts-returning 1 _ w (status_op serve) Value.told (Accepts-call-pure serve _ _ w _)
  Accepts-run Op.profiles w =
      Accepts-returning 1 _ w (profiles_op serve) Value.configured (Accepts-call-pure serve _ _ w _)
  Accepts-run Op.topics w =
      Accepts-returning 1 _ w (topics_op serve) Value.names (Accepts-call-pure serve _ _ w _)
  Accepts-run Op.is_paused w =
      Accepts-returning 1 _ w (is_paused_op serve) Value.flag (Accepts-call-pure serve _ _ w _)
  Accepts-run Op.pause w =
      Accepts-returning 1 _ w (pause_op serve) Value.done (Accepts-call-pure serve _ _ w _)
  Accepts-run Op.toggle w = Accepts-returning 2 _ w (toggle_op serve) Value.flag (
      Accepts-call->>= serve 1 (is_paused ∷ []) "toggle_paused" toggle_paused w
        (λ _. is_paused_op serve)
        (λ _ w'. Accepts-call-pure serve "is_paused" is_paused w' (λ r. r.paused)))
  Accepts-run Op.snapshot w = Accepts-returning 1 _ w (snapshot_op serve) Value.done (
      Accepts-call->>= serve 0 [] "snapshot" snapshot w _
        (λ r w'. Accepts-lift w' (snapshot_result r)))
  Accepts-run Op.stop w =
      Accepts-returning 1 _ w (stop_op serve) Value.done (Accepts-call-pure serve _ _ w _)
  Accepts-run (Op.add ts r e) w = Accepts-returning 1 _ w (add_op serve ts r e) Value.changed (
      Accepts-selected serve (parse_topic_specs ts) (λ p. require_a_selection p.0 r)
        "subscribe_topics" (λ p. subscribe_topics p.0 p.1 r e) w)
  Accepts-run (Op.remove ts r e) w =
      Accepts-returning 1 _ w (remove_op serve ts r e) Value.changed (
        Accepts-selected serve (parse_topic_specs ts) (λ p. require_a_selection p.0 r)
          "unsubscribe_topics" (λ p. unsubscribe_topics p.0 r e) w)
  Accepts-run (Op.set_topics ts r e) w =
      Accepts-returning 1 _ w (set_topics_op serve ts r e) Value.changed
        (Accepts-set_topics (parse_topic_specs ts) (λ p. set_topics p.0 p.1 r e) w)
  Accepts-run (Op.profile name) w =
      Accepts-returning 1 _ w (profile_op serve name) Value.changed
        (Accepts-call-pure serve _ _ w _)
  Accepts-run (Op.resume at_time mode topic) w =
      Accepts-returning 1 _ w (resume_op serve at_time mode topic) Value.scheduled (
        Accepts-set_stamped serve (apply_schedule at_time mode topic) "resume"
          (λ p. Request.resume p.0) (λ p. p.1) w)
  Accepts-run (Op.split at_time mode topic) w =
      Accepts-returning 1 _ w (split_op serve at_time mode topic) Value.scheduled (
        Accepts-set_stamped serve (apply_schedule at_time mode topic) "split_bagfile"
          (λ p. split_bagfile p.0) (λ p. p.1) w)
  Accepts-run (Op.record_bag uri at_time) w =
      Accepts-returning 1 _ w (record_op serve uri at_time) Value.scheduled (
        Accepts-set_stamped serve (set_stamp at_time) "record" (λ p. Request.record_bag uri p.0)
          (λ p. p.1) w)
