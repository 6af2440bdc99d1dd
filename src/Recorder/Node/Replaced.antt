-- ===== src/Recorder/Node/Replaced.antt =====
-- A selection that packages/rosbag2_dynamic_recorder/src/dynamic_recorder.cpp puts in place of another.
use text.Mathlib.TextEquality.{eq_iff}
use rosbag2_dynamic_recorder.Base.{
  ◌≡◌, refl, if◌then◌else◌, String, true, not, ◌&&◌, ◌||◌, List, [], ◌∷◌, ◌++◌, keep, arith, str_eq,
}
use rosbag2_dynamic_recorder.Base.Members.{any-append, contains-keep}
use rosbag2_dynamic_recorder.Base.Sort.{any-sorted_by}
use rosbag2_dynamic_recorder.Discovery.{str_le, contains}
use rosbag2_dynamic_recorder.Recorder.Selection.{Selection}
use rosbag2_dynamic_recorder.Recorder.Node.{
  Outside, Node, unsubscribe_topic, unsubscribe_loop, subscribed_topics, replace_topics,
}
use rosbag2_dynamic_recorder.Recorder.Node.Topics.{names, subscribe_batch_lem}

contains-same :
    (t topic : String) (topics : List String)
    → str_eq t topic ≡ true
    → contains t topics ≡ contains topic topics
contains-same t topic topics e = rw ((eq_iff t topic).0 e) refl

module _ (reason t : String) where
  -- What one round drops is subscribed no more, and the rest stays.
  unsubscribe_topic_lem :
      (topic : String) (node : Node)
      → let (done, node') = unsubscribe_topic topic reason node in
        (done ≡ contains topic node.subscriptions)
        × (contains t node'.subscriptions ≡ (contains t node.subscriptions && not (str_eq t topic)))
  unfolding unsubscribe_topic
  unsubscribe_topic_lem topic node = ground (
    arith,
    contains-same t topic node.subscriptions,
    contains-keep t (λ u. not (str_eq u topic)) node.subscriptions,
  )

  unsubscribe_loop_lem :
      (topics dropped absent : List String) (node : Node)
      → let (dropped', absent', node') = unsubscribe_loop reason topics (dropped, absent, node) in
        (contains t node'.subscriptions
          ≡ (contains t node.subscriptions && not (contains t topics)))
        × (contains t dropped'
            ≡ (contains t dropped || (contains t node.subscriptions && contains t topics)))
  unfolding unsubscribe_loop
  unsubscribe_loop_lem [] dropped absent node = ground arith
  unsubscribe_loop_lem (topic ∷ topics) dropped absent node =
      let (done, node') = unsubscribe_topic topic reason node in
      let dropped_now = if done then dropped ++ topic ∷ [] else dropped in
      let absent_now = if done then absent else absent ++ topic ∷ [] in
      ground (
        arith,
        unsubscribe_topic_lem topic node,
        unsubscribe_loop_lem topics dropped_now absent_now node',
        any-append (str_eq t) dropped (topic ∷ []),
        contains-same t topic node.subscriptions,
      )

  -- A selection in place of another: what was recorded and is not selected is dropped, and nothing else;
  -- afterwards the node records what it kept and what the batch reports as subscribed; and the batch
  -- answers for every selected topic. So a topic of both selections is never unsubscribed.
  pub replace_topics_lem :
      (outside : Outside) (desired : Selection) (node : Node)
      → let (dropped, result, node') = replace_topics outside desired reason node in
        let recorded = contains t (subscribed_topics node) in
        let selected = contains t (names outside reason desired) in
        (contains t dropped ≡ (recorded && not selected))
        × (contains t (subscribed_topics node')
            ≡ ((recorded && selected) || contains t result.subscribed))
        × ((contains t result.subscribed || contains t result.unavailable) ≡ selected)
  unfolding replace_topics subscribed_topics
  replace_topics_lem outside desired node =
      let selected = names outside reason desired in
      let unwanted = keep (λ u. not (contains u selected)) (subscribed_topics node) in
      let (dropped, _, dropped_node) = unsubscribe_loop reason unwanted ([], [], node) in
      ground (
        arith,
        any-sorted_by str_le (str_eq t) node.subscriptions,
        any-sorted_by str_le (str_eq t) dropped_node.subscriptions,
        contains-keep t (λ u. not (contains u selected)) (subscribed_topics node),
        unsubscribe_loop_lem unwanted [] [] node,
        subscribe_batch_lem outside reason desired dropped_node t,
      )
