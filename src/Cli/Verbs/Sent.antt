-- ===== src/Cli/Verbs/Sent.antt =====
-- What the exit code of a verb says of the recorder, for the verbs of
-- packages/rosbag2_dynamic_recorder_cli/rosbag2_dynamic_recorder_cli/verb.
use rosbag2_dynamic_recorder.Base.{ℕ, ◌≡◌, refl, subst, String, List, [], ◌∷◌, ◌++◌, All}
use rosbag2_dynamic_recorder.Errors.{Result, ok, err}
use rosbag2_dynamic_recorder.Client.Call.{
  Request, get_status, get_profiles, get_subscribed_topics, is_paused, pause, toggle_paused,
  snapshot, stop, subscribe_topics, unsubscribe_topics, set_topics, set_profile, resume,
  split_bagfile, record_bag, Reply, Entry, World,
}
use rosbag2_dynamic_recorder.Base.Seconds.{Seconds}
use rosbag2_dynamic_recorder.Schedule.{word, apply_schedule, set_stamp}
use rosbag2_dynamic_recorder.Topics.{parse_topic_specs}
use rosbag2_dynamic_recorder.Client.Run.{Value, calls_of, run, request_from, requests_of}
use rosbag2_dynamic_recorder.Client.Accepted.{IsAccepted, Accepts, requests_in}
use rosbag2_dynamic_recorder.Client.Accepted.Run.{Accepts-run}
use rosbag2_dynamic_recorder.Cli.Exit.{finish-ok}
use rosbag2_dynamic_recorder.Cli.Verbs.{
  ended, command, Line, add_line, remove_line, set_line, profile_line, pause_line, snapshot_line,
  stop_line, toggle_line, topics_line, profiles_line, status_line, resume_line, split_line,
  record_line, verb_of, add_verb, remove_verb, set_verb, profile_verb, pause_verb, snapshot_verb,
  stop_verb, toggle_verb, topics_verb, profiles_verb, status_verb, resume_verb, split_verb,
  record_verb,
}

-- The requests that a command line stands for, the last one first: the request of each verb's name. A
-- line whose topics or time cannot be read stands for none.
unfoldable pub sends : Line → List Request
sends (add_line ts r e) = request_from (λ p. subscribe_topics p.0 p.1 r e) (parse_topic_specs ts)
sends (remove_line ts r e) = request_from (λ p. unsubscribe_topics p.0 r e) (parse_topic_specs ts)
sends (set_line ts r e) = request_from (λ p. set_topics p.0 p.1 r e) (parse_topic_specs ts)
sends (profile_line name) = set_profile name ∷ []
sends pause_line = pause ∷ []
sends snapshot_line = snapshot ∷ []
sends stop_line = stop ∷ []
sends toggle_line = is_paused ∷ toggle_paused ∷ []
sends topics_line = get_subscribed_topics ∷ []
sends (profiles_line only_names) = get_profiles ∷ []
sends status_line = get_status ∷ []
sends (resume_line at_time mode topic) =
    request_from (λ p. resume p.0) (apply_schedule at_time (word mode) topic)
sends (split_line at_time mode topic) =
    request_from (λ p. split_bagfile p.0) (apply_schedule at_time (word mode) topic)
sends (record_line uri at_time) = request_from (λ p. record_bag uri p.0) (set_stamp at_time)

module _ (general date_text : Seconds → String) (now : Seconds) where
  requests_of-verb_of :
      (line : Line) → requests_of (verb_of general date_text now line).op ≡ sends line
  unfolding requests_of sends verb_of add_verb remove_verb set_verb profile_verb pause_verb
      snapshot_verb stop_verb toggle_verb topics_verb profiles_verb status_verb resume_verb
      split_verb record_verb
  requests_of-verb_of (add_line ts r e) = refl
  requests_of-verb_of (remove_line ts r e) = refl
  requests_of-verb_of (set_line ts r e) = refl
  requests_of-verb_of (profile_line name) = refl
  requests_of-verb_of pause_line = refl
  requests_of-verb_of snapshot_line = refl
  requests_of-verb_of stop_line = refl
  requests_of-verb_of toggle_line = refl
  requests_of-verb_of topics_line = refl
  requests_of-verb_of (profiles_line only_names) = refl
  requests_of-verb_of status_line = refl
  requests_of-verb_of (resume_line at_time mode topic) = refl
  requests_of-verb_of (split_line at_time mode topic) = refl
  requests_of-verb_of (record_line uri at_time) = refl

module _ {Server : Type 0} where
  -- The log got longer by entries of these requests, each of them accepted by the recorder.
  abbrev pub Grew : List Request → World Server → World Server → Type 0
  Grew rs w w' =
      (new : List Entry) × (requests_in new ≡ rs) × (w'.log ≡ new ++ w.log) × All IsAccepted new

  ended-Grew :
      (n : ℕ) (rs : List Request) (w : World Server) (out : Result Value × World Server)
      → Accepts n rs w out
      → ended out.0 ≡ ok tt
      → Grew rs w out.1
  unfolding Accepts
  ended-Grew n rs w (ok value, w') (new, l, asked, e, accepted) h = (new, asked, e, accepted)
  ended-Grew n rs w (err x, w') h e = cc

module _ {Server : Type 0} (serve : String → Request → Server → Reply × Server)
    (general date_text : Seconds → String) (now : Seconds) where
  -- A command line that exits with 0 and writes nothing to stderr has found a recorder, and has had the
  -- requests that its verb stands for, and no others, answered and accepted.
  pub command-ok :
      (connected : Result String) (line : Line) (w : World Server)
      → (command serve connected (verb_of general date_text now line) w).1 ≡ ok (0, [])
      → (name : String) × (connected ≡ ok name)
        × Grew (sends line) w (command serve connected (verb_of general date_text now line) w).2
  unfolding command
  command-ok (err e) line w h = let same : err e ≡ ok tt = (finish-ok (err e)).0 h in cc
  command-ok (ok name) line w h =
      let named = record w { name = name } in
      let op = (verb_of general date_text now line).op in
      (
        name,
        refl,
        subst (λ rs. Grew rs w (run serve op named).1)
            (requests_of-verb_of general date_text now line)
            (ended-Grew (calls_of op) (requests_of op) named (run serve op named)
              (Accepts-run serve op named) ((finish-ok (ended (run serve op named).0)).0 h)),
      )
