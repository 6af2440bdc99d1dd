-- ===== src/Recorder/Service.antt =====
-- The node of packages/rosbag2_dynamic_recorder as the recorder that a client calls: create_services of
-- src/recorder_services.cpp names the handler of each service.
pub mod Called
pub mod Scheduled
use rosbag2_dynamic_recorder.Base.{
  ℕ, String, Bool, true, false, Option, none, some, List, [], ◌∷◌, map, if◌then◌else◌,
}
use rosbag2_dynamic_recorder.Errors.{Response}
use rosbag2_dynamic_recorder.Results.ProfileMsg.{ProfileMsg}
use rosbag2_dynamic_recorder.Client.Call.{
  Request, get_status, get_profiles, get_subscribed_topics, is_paused, pause, toggle_paused,
  snapshot, stop, subscribe_topics, unsubscribe_topics, set_topics, set_profile, resume,
  split_bagfile, record_bag, Reply, reply,
}
use rosbag2_dynamic_recorder.Recorder.Node
use rosbag2_dynamic_recorder.Recorder.Node.{Outside, Node, subscribed_topics}
use rosbag2_dynamic_recorder.Recorder.Requests.{
  Outcome, handle_resume, handle_split_bagfile, handle_toggle_paused, handle_stop, handle_record,
  build_status, active_profile_for,
}
use rosbag2_dynamic_recorder.Recorder.TopicRequests.{
  TopicAnswer, handle_subscribe_topics, handle_unsubscribe_topics, handle_set_topics,
  handle_set_profile,
}

module _ (outside : Outside) where
  -- A response with nothing in it, of a service that has no return code.
  abbrev pub blank : Response
  blank = record {
    return_code = none;
    error_string = none;
    subscribed_topics = none;
    unsubscribed_topics = none;
    unavailable_topics = none;
    not_subscribed_topics = none;
    success = false;
    paused = false;
    topics = [];
    status = outside.rest_of_status;
    profiles = [];
    active_profile = "";
  }

  abbrev pub coded : Outcome → Reply × Node
  coded (code, error, node) =
      (reply (record blank { return_code = some code; error_string = some error }), node)

  -- A list that the response of a service does not have is empty here; the client reads both alike.
  abbrev pub listed : TopicAnswer × Node → Reply × Node
  listed (answer, node) = (
    reply (record blank {
      return_code = some answer.return_code;
      error_string = some answer.error_string;
      subscribed_topics = some answer.subscribed;
      unsubscribed_topics = some answer.unsubscribed;
      unavailable_topics = some answer.unavailable;
      not_subscribed_topics = some answer.not_subscribed;
    }),
    node,
  )

  abbrev pub profile_messages : List (String × List String) → List ProfileMsg
  profile_messages profiles = map (λ p. record { name = p.0; topics = p.1 }) profiles

  -- `Bag::take_snapshot` of a bag that is open.
  abbrev pub snapshot_reply : Node → Reply
  snapshot_reply node =
      reply (record blank { success = if node.is_open then outside.snapshot_taken else false })

  unfoldable pub serve : String → Request → Node → Reply × Node
  unfolding handle_resume handle_split_bagfile handle_toggle_paused handle_stop handle_record
      build_status subscribed_topics handle_subscribe_topics handle_unsubscribe_topics
      handle_set_topics handle_set_profile active_profile_for Node.pause
  serve service get_status node =
      (reply (record blank { status = build_status outside node }), node)
  serve service get_profiles node = (
    reply (record blank {
      profiles = profile_messages outside.profiles;
      active_profile = active_profile_for (subscribed_topics node) outside.profiles;
    }),
    node,
  )
  serve service get_subscribed_topics node =
      (reply (record blank { topics = subscribed_topics node }), node)
  serve service is_paused node = (reply (record blank { paused = node.paused }), node)
  serve service pause node = (reply blank, Node.pause "service:pause" node)
  serve service toggle_paused node = (reply blank, handle_toggle_paused node)
  serve service snapshot node = (snapshot_reply node, node)
  serve service stop node = coded (handle_stop node)
  serve service (subscribe_topics topics types regex exclude_regex) node =
      listed (handle_subscribe_topics outside topics types regex exclude_regex node)
  serve service (unsubscribe_topics topics regex exclude_regex) node =
      listed (handle_unsubscribe_topics outside topics regex exclude_regex node)
  serve service (set_topics topics types regex exclude_regex) node =
      listed (handle_set_topics outside topics types regex exclude_regex node)
  serve service (set_profile name) node = listed (handle_set_profile outside name node)
  serve service (resume timing) node = coded (handle_resume outside timing node)
  serve service (split_bagfile timing) node = coded (handle_split_bagfile outside timing node)
  serve service (record_bag uri stamp) node = coded (handle_record outside uri stamp node)
