-- ===== src/Ui/Actions/Scheduled.antt =====
-- A schedule from the page of packages/rosbag2_dynamic_recorder_ui, all the way to the recorder.
use rosbag2_dynamic_recorder.Base.{
  ℕ, ◌<◌, ◌≡◌, refl, ap, ◌∙◌, String, false, Option, some, List, ◌∷◌,
}
use rosbag2_dynamic_recorder.Base.Int.{pos}
use rosbag2_dynamic_recorder.Base.Seconds.{Seconds}
use rosbag2_dynamic_recorder.Errors.{Result, ok, err}
use rosbag2_dynamic_recorder.Results.Events.{nanoseconds_per_second}
use rosbag2_dynamic_recorder.Results.Status.{Status}
use rosbag2_dynamic_recorder.Schedule.{
  Mode, word, At, Stamp, Timing, set_stamp, parse_mode, apply_schedule,
}
use rosbag2_dynamic_recorder.Schedule.Time.{Platform, TimeArg, parse_time, at_of}
use rosbag2_dynamic_recorder.Client.Call.{
  Request, Reply, Entry, World, M, ◌>>=◌, pure, lift, call, client_for, service_of,
}
use rosbag2_dynamic_recorder.Client.Accepted.{client_for-log}
use rosbag2_dynamic_recorder.Client.Operations.{resume_op}
use rosbag2_dynamic_recorder.Client.Run.{Op, scheduled, run}
use rosbag2_dynamic_recorder.Ui.Actions.{
  run_action, run_resolved, when, Payload, or_else, is_now, recorder_now, call_action, run_action,
  run_resolved,
}
use rosbag2_dynamic_recorder.Ui.Actions.Resolved.{resolve_at-recorder_clock}

apply_schedule-ok :
    (at_time : At) (mode : Mode) (topic : String) (k : ℕ) (stamp : Stamp)
    → parse_mode mode ≡ ok k
    → set_stamp at_time ≡ ok (stamp, some stamp)
    → apply_schedule at_time mode topic
      ≡ ok (record { tracking_topic_name = topic; mode = k; stamp = stamp }, some stamp)
unfolding apply_schedule
apply_schedule-ok at_time mode topic k stamp m s = rw (m, s) refl

module _ {Server : Type 0} where
  -- To return something else changes nothing in the world.
  returning_world :
      {A B : Type 0} (m : M Server A) (f : A → B) (w : World Server)
      → ((m >>= λ a. pure (f a)) w).1 ≡ (m w).1
  returning_world {A = A} {B = B} m f w = go (m w)
    where
      go :
          (out : Result A × World Server)
          → (elim out.0 as (λ _. Result B × World Server) [
            | ok a ↦ pure (f a) out.1
            | err e ↦ (err e, out.1)
          ]).1
            ≡ out.1
      go (ok a, w') = refl
      go (err e, w') = refl

module _ {Server : Type 0} (serve : String → Request → Server → Reply × Server) where
  call-log :
      (verb : String) (request : Request) (w : World Server)
      → (answer : Reply) × ((call serve verb request w).1.log ≡ (request, answer) ∷ w.log)
  unfolding call
  call-log verb request w =
      let service = service_of serve w verb in
      let answer = (serve service request (client_for service w).server).0 in
      (answer, ap (λ (log : List Entry). (request, answer) ∷ log) (client_for-log service w))

  resume-log :
      (at_time : At) (mode : Mode) (topic : String) (timing : Timing) (stamp : Stamp)
      (w : World Server)
      → apply_schedule at_time mode topic ≡ ok (timing, some stamp)
      → (answer : Reply) × ((run serve (Op.resume at_time mode topic) w).1.log
          ≡ (Request.resume timing, answer) ∷ w.log)
  unfolding run resume_op
  resume-log at_time mode topic timing stamp w e =
      let then : Timing × Option Stamp → M Server (Option Stamp) =
        λ p. call serve "resume" (Request.resume p.0) >>= λ _. pure p.1 in
      let (answer, log) = call-log "resume" (Request.resume timing) w in
      (
        answer,
        ap (λ out. out.log) (returning_world (resume_op serve at_time mode topic) scheduled w)
            ∙ ap (λ r. ((lift r >>= then) w).1.log) e
            ∙ ap (λ out. out.log)
                (returning_world (call serve "resume" (Request.resume timing)) (λ _. some stamp) w)
            ∙ log,
      )

module _ {Server : Type 0} (serve : String → Request → Server → Reply × Server)
    (platform : Platform) (status : Status Seconds) (age now : Seconds) where
  -- When the page asks to resume at a time after a status has arrived, the recorder gets a request to
  -- resume with the stamp that the time stands for by the clock of that status and its age, whatever
  -- this machine's clock shows, if the time is no blank text, the time and the mode can be read, and
  -- the stamp is one that builtin_interfaces/Time can hold.
  pub call_action-resume :
      (payload : Payload) (at_time : TimeArg) (sec nanosec k : ℕ) (w : World Server)
      → is_now (some at_time) ≡ false
      → parse_time platform (recorder_now status age) at_time ≡ ok (pos sec, pos nanosec)
      → sec < 2_147_483_648
      → nanosec < nanoseconds_per_second
      → parse_mode (or_else (word "node") payload.mode) ≡ ok k
      → let asked = record payload { at_time = some at_time } in
        let timing : Timing = record {
          tracking_topic_name = or_else "" payload.topic;
          mode = k;
          stamp = (pos sec, pos nanosec);
        } in
        (answer : Reply) × ((call_action serve platform now "resume" asked
            (some status)
            age
            w).1.log
          ≡ (Request.resume timing, answer) ∷ w.log)
  unfolding call_action run_action run_resolved
  call_action-resume payload at_time sec nanosec k w later parsed high low mode =
      let (sent, e, stamped) =
        resolve_at-recorder_clock platform status age now payload at_time sec nanosec later parsed
          high low in
      let topic = or_else "" payload.topic in
      let timing : Timing = record {
        tracking_topic_name = topic;
        mode = k;
        stamp = (pos sec, pos nanosec);
      } in
      let asked = or_else (word "node") payload.mode in
      let built =
        apply_schedule-ok (at_of platform now (some sent)) asked topic k (pos sec, pos nanosec) mode
          stamped in
      let (answer, log) =
        resume-log serve (at_of platform now (some sent)) asked topic timing (pos sec, pos nanosec)
          w built in
      (
        answer,
        ap (λ r. (run_resolved serve platform now (when platform now Op.resume) r w).1.log) e ∙ log,
      )
