-- ===== src/Recorder/Profiles/Active.antt =====
-- The request of packages/rosbag2_dynamic_recorder/src/recorder_services.cpp that sets a profile.
use text.Mathlib.TextEquality.{eq_iff}
use rosbag2_dynamic_recorder.Base.{
  ◌≡◌, refl, ap, subst, String, Bool, true, false, ◌&&◌, ◌||◌, Option, some, List, [], ◌∷◌, All,
  any, arith, str_eq, inl, inr, Bool-cases,
}
use rosbag2_dynamic_recorder.Base.Text.{append}
use rosbag2_dynamic_recorder.Base.Sort.{sorted_by, sorted_by-IsSorted}
use rosbag2_dynamic_recorder.Discovery.{str_le, contains}
use rosbag2_dynamic_recorder.Discovery.Order.{str_le-total, str_le_trans}
use rosbag2_dynamic_recorder.Discovery.Distinct.{IsDistinct, sorted_by-IsDistinct, sorted_names}
use rosbag2_dynamic_recorder.Recorder.Node.{
  Outside, Node, BatchResult, untyped, replace_topics, subscribed_topics, subscribe_batch,
}
use rosbag2_dynamic_recorder.Recorder.Node.Distinct.{replace_topics-IsDistinct}
use rosbag2_dynamic_recorder.Recorder.Node.Reached.{Reached, Reached-IsDistinct}
use rosbag2_dynamic_recorder.Recorder.Node.Replaced.{replace_topics_lem}
use rosbag2_dynamic_recorder.Recorder.Node.Restored.{
  can_subscribe, names-untyped, subscribe_loop-IsKept,
}
use rosbag2_dynamic_recorder.Recorder.Profiles.{declare_profiles}
use rosbag2_dynamic_recorder.Recorder.Profiles.Declared.{
  IsSelection, IsProfile, AllDeclared, declare_profiles-IsProfile,
}
use rosbag2_dynamic_recorder.Recorder.Requests.{same_list, active_profile_for, build_status}
use rosbag2_dynamic_recorder.Recorder.TopicRequests.{
  find_profile, replaced, subscribe_answer, handle_set_profile,
}

module _ (outside : Outside) (reason : String) (topics : List String) (node : Node) where
  replace_topics-available :
      All (λ topic. can_subscribe outside topic ≡ true) topics
      → (replace_topics outside (untyped topics) reason node).1.unavailable ≡ []
  unfolding replace_topics subscribe_batch
  replace_topics-available can = (subscribe_loop-IsKept outside reason topics _ can).0

  all_selected :
      (now kept new missing selected listed : Bool)
      → now ≡ ((kept && selected) || new)
      → (new || missing) ≡ selected
      → missing ≡ false
      → selected ≡ listed
      → now ≡ listed
  all_selected now kept new missing selected listed a b c d = ground arith

  -- Topics that can be subscribed to are what is recorded afterwards.
  replace_topics-exact :
      IsSelection topics
      → IsDistinct node.subscriptions
      → All (λ topic. can_subscribe outside topic ≡ true) topics
      → subscribed_topics (replace_topics outside (untyped topics) reason node).2 ≡ topics
  unfolding subscribed_topics
  replace_topics-exact selection distinct can =
      let node' = (replace_topics outside (untyped topics) reason node).2 in
      sorted_names (sorted_by str_le node'.subscriptions) topics
        (sorted_by-IsSorted str_le str_le-total str_le_trans node'.subscriptions)
        (sorted_by-IsDistinct node'.subscriptions
          (replace_topics-IsDistinct reason outside (untyped topics) node distinct))
        selection.0 selection.1
        (λ t.
          let r = replace_topics_lem reason t outside (untyped topics) node in
          all_selected _ _ _ _ _ _ r.1 r.2 (ap (contains t) (replace_topics-available can))
            (ap (contains t) (names-untyped outside reason topics)))

found_profile :
    (name : String) (topics : List String) (profiles : List (String × List String))
    → All IsProfile profiles
    → find_profile name profiles ≡ some topics
    → IsSelection topics
unfolding find_profile
found_profile name topics [] h k = ground arith
found_profile name topics ((known, found) ∷ profiles) h k = elim (Bool-cases (str_eq known name)) [
  | inl at_head ↦ let same : found ≡ topics = ground arith in subst IsSelection same h.0.1
  | inr further ↦ found_profile name topics profiles h.1 (ground arith)
]

-- Whether a name is that of a profile with these topics.
abbrev pub is_profile : String → List String → List (String × List String) → Bool
is_profile name topics profiles =
    any (λ profile. str_eq profile.0 name && same_list profile.1 topics) profiles

same_list_refl : (xs : List String) → same_list xs xs ≡ true
same_list_refl [] = refl
same_list_refl (x ∷ xs) = ground (arith, (eq_iff x x).1 refl, same_list_refl xs)

is_profile-first :
    (topics : List String) (profiles : List (String × List String))
    → any (λ profile. same_list profile.1 topics) profiles ≡ true
    → is_profile (active_profile_for topics profiles) topics profiles ≡ true
unfolding active_profile_for
is_profile-first topics [] h = h
is_profile-first topics ((known, found) ∷ profiles) h =
    ground (arith, (eq_iff known known).1 refl, is_profile-first topics profiles)

find_profile-same_list :
    (name : String) (topics : List String) (profiles : List (String × List String))
    → find_profile name profiles ≡ some topics
    → any (λ profile. same_list profile.1 topics) profiles ≡ true
unfolding find_profile
find_profile-same_list name topics [] h = ground arith
find_profile-same_list name topics ((known, found) ∷ profiles) h =
    elim (Bool-cases (str_eq known name)) [
      | inl at_head ↦
          let same : found ≡ topics = ground arith in
          rw same (ground (arith, same_list_refl topics))
      | inr further ↦ ground (arith, find_profile-same_list name topics profiles (ground arith))
    ]

subscribe_answer-available :
    (result : BatchResult) (dropped listed : List String)
    → result.unavailable ≡ []
    → (subscribe_answer result dropped listed).return_code ≡ 0
unfolding subscribe_answer
subscribe_answer-available result dropped listed h = ground arith

-- A profile of the parameters, of topics that can be subscribed to, that is set while the node records:
-- the answer is a success that leaves no topic out, what is recorded afterwards is the profile's topics
-- and no others, as the answer says, and the next status names a profile with exactly these topics.
pub handle_set_profile-active :
    {Params : Type 0} (declare : String → Params → Option (List String × Params))
    (params params' : Params) (outside : Outside) (node : Node) (name : String)
    (topics : List String)
    → declare_profiles declare params ≡ some (outside.profiles, params')
    → node.is_open ≡ true
    → Reached node
    → find_profile name outside.profiles ≡ some topics
    → All (λ topic. can_subscribe outside topic ≡ true) topics
    → let (answer, node') = handle_set_profile outside name node in
      (answer.return_code ≡ 0)
      × (answer.unavailable ≡ [])
      × (answer.subscribed ≡ topics)
      × (subscribed_topics node' ≡ topics)
      × (is_profile (build_status outside node').active_profile topics outside.profiles ≡ true)
unfolding handle_set_profile replaced subscribe_answer build_status
handle_set_profile-active declare params params' outside node name topics declared opened reached
      named can =
    let reason = append "service:set_profile:" name in
    let profiles : All IsProfile outside.profiles =
      subst AllDeclared declared (declare_profiles-IsProfile declare params) in
    let selection = found_profile name topics outside.profiles profiles named in
    let (dropped, result, node') = replace_topics outside (untyped topics) reason node in
    let exact =
      replace_topics-exact outside reason topics node selection (Reached-IsDistinct reached) can in
    let available = replace_topics-available outside reason topics node can in
    let success = subscribe_answer-available result dropped (subscribed_topics node') available in
    let active =
      is_profile-first topics outside.profiles
        (find_profile-same_list name topics outside.profiles named) in
    rw opened (rw named (success, available, exact, exact, rw exact active))
