-- ===== src/Client/Operations.antt =====
-- The methods of `Recorder` in packages/dynrec/dynrec/client.py.
use rosbag2_dynamic_recorder.Base.{String, Bool, Option, List, if◌then◌else◌}
use rosbag2_dynamic_recorder.Errors.{ok, err, snapshot_failed}
use rosbag2_dynamic_recorder.Base.Seconds.{Seconds}
use rosbag2_dynamic_recorder.Results.Status.{Status, status_from_msg}
use rosbag2_dynamic_recorder.Results.Profiles.{Profiles, profiles_from_msg}
use rosbag2_dynamic_recorder.Results.Change.{TopicChange, change_from_msg}
use rosbag2_dynamic_recorder.Schedule.{Mode, At, Stamp, apply_schedule, set_stamp}
use rosbag2_dynamic_recorder.Topics.{Values, parse_topic_specs, require_a_selection}
use rosbag2_dynamic_recorder.Client.Call.{
  Request, get_status, get_profiles, get_subscribed_topics, is_paused, pause, toggle_paused,
  snapshot, stop, subscribe_topics, unsubscribe_topics, set_topics, set_profile, resume,
  split_bagfile, record_bag, Reply, M, ◌>>=◌, ◌>>◌, pure, lift, call,
}

module _ {Server : Type 0} (serve : String → Request → Server → Reply × Server) where
  unfoldable pub status_op : M Server (Status Seconds)
  status_op w =
      (call serve "get_status" get_status >>= λ r. pure (status_from_msg r.status w.name)) w

  unfoldable pub profiles_op : M Server Profiles
  profiles_op = do
    response ← call serve "get_profiles" get_profiles
    pure (profiles_from_msg response)

  unfoldable pub topics_op : M Server (List String)
  topics_op = do
    response ← call serve "get_subscribed_topics" get_subscribed_topics
    pure response.topics

  unfoldable pub is_paused_op : M Server Bool
  is_paused_op = do response ← call serve "is_paused" is_paused; pure response.paused

  unfoldable pub add_op : Values → String → String → M Server TopicChange
  add_op topics regex exclude_regex = do
    (names, types) ← lift (parse_topic_specs topics)
    lift (require_a_selection names regex)
    response ← call serve "subscribe_topics" (subscribe_topics names types regex exclude_regex)
    pure (change_from_msg response)

  unfoldable pub remove_op : Values → String → String → M Server TopicChange
  remove_op topics regex exclude_regex = do
    (names, _) ← lift (parse_topic_specs topics)
    lift (require_a_selection names regex)
    response ← call serve "unsubscribe_topics" (unsubscribe_topics names regex exclude_regex)
    pure (change_from_msg response)

  unfoldable pub set_topics_op : Values → String → String → M Server TopicChange
  set_topics_op topics regex exclude_regex = do
    (names, types) ← lift (parse_topic_specs topics)
    response ← call serve "set_topics" (set_topics names types regex exclude_regex)
    pure (change_from_msg response)

  unfoldable pub profile_op : String → M Server TopicChange
  profile_op name = do
    response ← call serve "set_profile" (set_profile name)
    pure (change_from_msg response)

  unfoldable pub pause_op : M Server (Unit {0})
  pause_op = do call serve "pause" pause; pure tt

  unfoldable pub resume_op : At → Mode → String → M Server (Option Stamp)
  resume_op at_time mode topic = do
    (timing, scheduled) ← lift (apply_schedule at_time mode topic)
    call serve "resume" (resume timing)
    pure scheduled

  unfoldable pub toggle_op : M Server Bool
  unfolding is_paused_op
  toggle_op = do call serve "toggle_paused" toggle_paused; is_paused_op

  unfoldable pub split_op : At → Mode → String → M Server (Option Stamp)
  split_op at_time mode topic = do
    (timing, scheduled) ← lift (apply_schedule at_time mode topic)
    call serve "split_bagfile" (split_bagfile timing)
    pure scheduled

  unfoldable pub snapshot_op : M Server (Unit {0})
  snapshot_op = do
    response ← call serve "snapshot" snapshot
    lift (if response.success then ok tt else err snapshot_failed)

  unfoldable pub stop_op : M Server (Unit {0})
  stop_op = do call serve "stop" stop; pure tt

  unfoldable pub record_op : String → At → M Server (Option Stamp)
  record_op uri at_time = do
    (stamp, scheduled) ← lift (set_stamp at_time)
    call serve "record" (record_bag uri stamp)
    pure scheduled
