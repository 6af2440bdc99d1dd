-- ===== src/Tests/Profiles.antt =====
-- Runs of the profiles of packages/rosbag2_dynamic_recorder.
use rosbag2_dynamic_recorder.Base.{
  ◌≡◌, refl, String, Bool, true, false, not, ◌&&◌, ◌||◌, Option, some, List, [], ◌∷◌, All, str_eq,
  if◌then◌else◌,
}
use rosbag2_dynamic_recorder.Base.Sort.{sorted_by}
use rosbag2_dynamic_recorder.Base.Text.{append}
use rosbag2_dynamic_recorder.Discovery.{contains}
use rosbag2_dynamic_recorder.Recorder.Selection.{single_type}
use rosbag2_dynamic_recorder.Recorder.Node.{
  Outside, Node, untyped, subscribe_batch, subscribed_topics, replace_topics,
}
use rosbag2_dynamic_recorder.Recorder.Node.Topics.{names}
use rosbag2_dynamic_recorder.Recorder.Node.Reached.{Reached, first_step, subscribe_step}
use rosbag2_dynamic_recorder.Recorder.Node.Replaced.{replace_topics_lem}
use rosbag2_dynamic_recorder.Recorder.Node.Restored.{can_subscribe}
use rosbag2_dynamic_recorder.Recorder.Requests.{build_status}
use rosbag2_dynamic_recorder.Recorder.TopicRequests.{find_profile, handle_set_profile}
use rosbag2_dynamic_recorder.Recorder.Profiles.{unique, declare_profiles}
use rosbag2_dynamic_recorder.Recorder.Profiles.Active.{is_profile, handle_set_profile-active}
use rosbag2_dynamic_recorder.Tests.Node.{outside, node}

-- Two profiles are configured, one with a duplicate and out of order. The parameters count the calls.
abbrev declare : String → Bool → Option (List String × Bool)
declare name asked =
    if str_eq name "profile_names"
    then some ("" ∷ "driving" ∷ "idle" ∷ [], true)
    else if str_eq name "profiles.driving"
    then some ("/scan" ∷ "/camera" ∷ "/scan" ∷ [], asked)
    else some ("/scan" ∷ [], asked)

abbrev configured : Outside
configured = record outside {
  profiles = ("driving", "/camera" ∷ "/scan" ∷ []) ∷ ("idle", "/scan" ∷ []) ∷ [];
}

declare_profiles-configured : declare_profiles declare false ≡ some (configured.profiles, true)
unfolding declare_profiles unique append sorted_by
declare_profiles-configured = refl

abbrev fresh : Node
fresh = record node { subscriptions = [] }

-- A node that has subscribed to both topics at its start.
abbrev recording : Node
recording = (subscribe_batch configured (untyped ("/scan" ∷ "/camera" ∷ [])) "startup" fresh).1

recording-is_open : recording.is_open ≡ true
unfolding subscribe_batch single_type
recording-is_open = refl

recording-Reached : Reached recording
recording-Reached =
    subscribe_step configured (untyped ("/scan" ∷ "/camera" ∷ [])) "startup" (first_step fresh refl)

find_profile-idle : find_profile "idle" configured.profiles ≡ some ("/scan" ∷ [])
unfolding find_profile
find_profile-idle = refl

can_subscribe-idle : All (λ topic. can_subscribe configured topic ≡ true) ("/scan" ∷ [])
unfolding single_type
can_subscribe-idle = (refl, tt)

handle_set_profile-active_example :
    let (answer, node') = handle_set_profile configured "idle" recording in
    (answer.return_code ≡ 0)
    × (answer.unavailable ≡ [])
    × (answer.subscribed ≡ "/scan" ∷ [])
    × (subscribed_topics node' ≡ "/scan" ∷ [])
    × (is_profile (build_status configured node').active_profile ("/scan" ∷ []) configured.profiles
        ≡ true)
handle_set_profile-active_example =
    handle_set_profile-active declare false true configured recording "idle" ("/scan" ∷ [])
      declare_profiles-configured recording-is_open recording-Reached find_profile-idle
      can_subscribe-idle

replace_topics_lem_example :
    let (dropped, result, node') =
      replace_topics outside (("/scan", "") ∷ ("/unknown", "") ∷ []) "test" node in
    let recorded = contains "/camera" (subscribed_topics node) in
    let selected =
      contains "/camera" (names outside "test" (("/scan", "") ∷ ("/unknown", "") ∷ [])) in
    (contains "/camera" dropped ≡ (recorded && not selected))
    × (contains "/camera" (subscribed_topics node')
        ≡ ((recorded && selected) || contains "/camera" result.subscribed))
    × ((contains "/camera" result.subscribed || contains "/camera" result.unavailable) ≡ selected)
replace_topics_lem_example =
    replace_topics_lem "test" "/camera" outside (("/scan", "") ∷ ("/unknown", "") ∷ []) node
