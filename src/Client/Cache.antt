-- ===== src/Client/Cache.antt =====
-- The clients that packages/dynrec/dynrec/client.py creates.
use rosbag2_dynamic_recorder.Base.{
  ℕ, ◌+◌, ◌≡◌, refl, String, Option, none, some, List, [], ◌∷◌, length, arith, if◌then◌else◌,
}
use rosbag2_dynamic_recorder.Errors.{Response, Result, ok, err, snapshot_failed}
use rosbag2_dynamic_recorder.Results.Status.{status_from_msg}
use rosbag2_dynamic_recorder.Results.Profiles.{profiles_from_msg}
use rosbag2_dynamic_recorder.Results.Change.{change_from_msg}
use rosbag2_dynamic_recorder.Schedule.{apply_schedule, set_stamp}
use rosbag2_dynamic_recorder.Topics.{parse_topic_specs, require_a_selection}
use rosbag2_dynamic_recorder.Client.Call.{
  Request, Reply, World, M, ◌>>=◌, pure, lift, call, get_client, client_for, service_of, get_status,
  get_profiles, get_subscribed_topics, set_profile, is_paused, toggle_paused, snapshot,
  subscribe_topics, unsubscribe_topics, set_topics, split_bagfile,
}
use rosbag2_dynamic_recorder.Client.Operations.{
  status_op, profiles_op, topics_op, is_paused_op, add_op, remove_op, set_topics_op, profile_op,
  pause_op, resume_op, toggle_op, split_op, snapshot_op, stop_op, record_op,
}
use rosbag2_dynamic_recorder.Client.Run.{Op, Value, run}

-- Every service stands once in the dict.
abbrev pub IsDistinct : List (String × ℕ) → Type 0
IsDistinct [] = Unit
IsDistinct ((service, client) ∷ clients) = (get_client service clients ≡ none) × IsDistinct clients

module _ {Server : Type 0} where
  -- As many clients have been created as there are services in the dict, and each service is there once.
  abbrev pub IsCached : World Server → Type 0
  IsCached w = (length w.clients ≡ w.created) × IsDistinct w.clients

  client_for-IsCached :
      (service : String) (w : World Server) → IsCached w → IsCached (client_for service w)
  unfolding client_for
  client_for-IsCached service w h = go (get_client service w.clients) refl
    where
      go :
          (found : Option ℕ)
          → get_client service w.clients ≡ found
          → IsCached (elim found as (λ _. World Server) [
            | some client ↦ w
            | none ↦ record w {
              clients = (service, w.created) ∷ w.clients;
              created = w.created + 1;
            }
          ])
      go none new = (omega (arith, h.0), (new, h.1))
      go (some client) known = h

  abbrev Keeps : {A : Type 0} → M Server A → Type 0
  Keeps m = (w : World Server) → IsCached w → IsCached (m w).1

  Keeps->>= :
      {A B : Type 0} (m : M Server A) (f : A → M Server B)
      → Keeps m
      → ((a : A) → Keeps (f a))
      → Keeps (m >>= f)
  Keeps->>= {A = A} {B = B} m f h k w c = go (m w) (h w c)
    where
      go :
          (out : Result A × World Server)
          → IsCached out.1
          → IsCached
              (elim out.0 as (λ _. Result B × World Server) [
                | ok a ↦ f a out.1
                | err e ↦ (err e, out.1)
              ]).1
      go (ok a, w') c = k a w' c
      go (err e, w') c = c

  Keeps-lift :
      {A B : Type 0} (r : Result A) (f : A → M Server B)
      → ((a : A) → Keeps (f a))
      → Keeps (lift r >>= f)
  Keeps-lift r f h = Keeps->>= (lift r) f (λ w c. c) h

  Keeps-returning :
      {A B : Type 0} (m : M Server A) (f : A → B) → Keeps m → Keeps (m >>= λ a. pure (f a))
  Keeps-returning m f h = Keeps->>= m (λ a. pure (f a)) h (λ a w c. c)

module _ {Server : Type 0} (serve : String → Request → Server → Reply × Server) where
  Keeps-call : (verb : String) (request : Request) → Keeps (call serve verb request)
  unfolding call
  Keeps-call verb request w c = client_for-IsCached (service_of serve w verb) w c

  Keeps-call-pure :
      {B : Type 0} (verb : String) (request : Request) (f : Response → B)
      → Keeps (call serve verb request >>= λ r. pure (f r))
  Keeps-call-pure verb request f =
      Keeps-returning (call serve verb request) f (Keeps-call verb request)

  built :
      {A B : Type 0} (r : Result A) (verb : String) (request : A → Request) (f : A → Response → B)
      → Keeps (lift r >>= λ a. call serve verb (request a) >>= λ s. pure (f a s))
  built r verb request f =
      Keeps-lift r (λ a. call serve verb (request a) >>= λ s. pure (f a s))
        (λ a. Keeps-call-pure verb (request a) (f a))

  selected :
      {A : Type 0} (r : Result A) (check : A → Result (Unit {0})) (verb : String)
      (request : A → Request)
      → Keeps (
          lift r >>= λ a.
          lift (check a) >>= λ _. call serve verb (request a) >>= λ s. pure (change_from_msg s))
  selected r check verb request =
      Keeps-lift r
        (λ a. lift (check a) >>= λ _. call serve verb (request a) >>= λ s. pure (change_from_msg s))
        (λ a. built (check a) verb (λ _. request a) (λ _ s. change_from_msg s))

  Keeps-run : (op : Op) → Keeps (run serve op)
  unfolding run status_op profiles_op topics_op is_paused_op add_op remove_op set_topics_op
      profile_op pause_op resume_op toggle_op split_op snapshot_op stop_op record_op
  Keeps-run Op.status =
      Keeps-returning (status_op serve) Value.told
        (λ w. Keeps-call-pure "get_status" get_status (λ r. status_from_msg r.status w.name) w)
  Keeps-run Op.profiles =
      Keeps-returning (profiles_op serve) Value.configured
        (Keeps-call-pure "get_profiles" get_profiles profiles_from_msg)
  Keeps-run Op.topics =
      Keeps-returning (topics_op serve) Value.names
        (Keeps-call-pure "get_subscribed_topics" get_subscribed_topics (λ r. r.topics))
  Keeps-run Op.is_paused =
      Keeps-returning (is_paused_op serve) Value.flag
        (Keeps-call-pure "is_paused" is_paused (λ r. r.paused))
  Keeps-run Op.pause =
      Keeps-returning (pause_op serve) Value.done (Keeps-call-pure "pause" Request.pause (λ _. tt))
  Keeps-run Op.toggle = Keeps-returning (toggle_op serve) Value.flag (
      Keeps->>= (call serve "toggle_paused" toggle_paused) (λ _. is_paused_op serve)
        (Keeps-call "toggle_paused" toggle_paused)
        (λ _. Keeps-call-pure "is_paused" is_paused (λ r. r.paused)))
  Keeps-run Op.snapshot = Keeps-returning (snapshot_op serve) Value.done (
      Keeps->>= (call serve "snapshot" snapshot)
        (λ r. lift (if r.success then ok tt else err snapshot_failed))
        (Keeps-call "snapshot" snapshot) (λ r w c. c))
  Keeps-run Op.stop =
      Keeps-returning (stop_op serve) Value.done (Keeps-call-pure "stop" Request.stop (λ _. tt))
  Keeps-run (Op.profile name) =
      Keeps-returning (profile_op serve name) Value.changed
        (Keeps-call-pure "set_profile" (set_profile name) change_from_msg)
  Keeps-run (Op.add ts r e) = Keeps-returning (add_op serve ts r e) Value.changed (
      selected (parse_topic_specs ts) (λ p. require_a_selection p.0 r) "subscribe_topics"
        (λ p. subscribe_topics p.0 p.1 r e))
  Keeps-run (Op.remove ts r e) = Keeps-returning (remove_op serve ts r e) Value.changed (
      selected (parse_topic_specs ts) (λ p. require_a_selection p.0 r) "unsubscribe_topics"
        (λ p. unsubscribe_topics p.0 r e))
  Keeps-run (Op.set_topics ts r e) = Keeps-returning (set_topics_op serve ts r e) Value.changed (
      built (parse_topic_specs ts) "set_topics" (λ p. set_topics p.0 p.1 r e)
        (λ _ s. change_from_msg s))
  Keeps-run (Op.resume at_time mode topic) =
      Keeps-returning (resume_op serve at_time mode topic) Value.scheduled
        (built (apply_schedule at_time mode topic) "resume" (λ p. Request.resume p.0) (λ p _. p.1))
  Keeps-run (Op.split at_time mode topic) =
      Keeps-returning (split_op serve at_time mode topic) Value.scheduled (
        built (apply_schedule at_time mode topic) "split_bagfile" (λ p. split_bagfile p.0)
          (λ p _. p.1))
  Keeps-run (Op.record_bag uri at_time) =
      Keeps-returning (record_op serve uri at_time) Value.scheduled
        (built (set_stamp at_time) "record" (λ p. Request.record_bag uri p.0) (λ p _. p.1))

  -- Whatever a method does, errors included, it leaves as many clients created as there are services
  -- in the dict and no service twice: a client is created once for each service, never again.
  pub run-IsCached : (op : Op) (w : World Server) → IsCached w → IsCached (run serve op w).1
  run-IsCached op w c = Keeps-run op w c
