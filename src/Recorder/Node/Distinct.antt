-- ===== src/Recorder/Node/Distinct.antt =====
-- No topic is subscribed to twice by the node of packages/rosbag2_dynamic_recorder/src/dynamic_recorder.cpp.
use rosbag2_dynamic_recorder.Base.{String, Bool, not, List, [], ◌∷◌, keep, arith, str_eq, map}
use rosbag2_dynamic_recorder.Base.Members.{contains-keep, if_either}
use rosbag2_dynamic_recorder.Discovery.{contains}
use rosbag2_dynamic_recorder.Discovery.Distinct.{IsDistinct}
use rosbag2_dynamic_recorder.Recorder.Selection.{Selection}
use rosbag2_dynamic_recorder.Recorder.Node.{
  Outside, Node, BatchResult, subscribe_topic, subscribe_entry, subscribe_loop, subscribe_batch,
  unsubscribe_topic, unsubscribe_loop, replace_topics, subscribed_topics,
}

keep-IsDistinct :
    (test : String → Bool) (xs : List String) → IsDistinct xs → IsDistinct (keep test xs)
keep-IsDistinct test [] h = tt
keep-IsDistinct test (x ∷ xs) h =
    if_either IsDistinct (test x) (x ∷ keep test xs) (keep test xs)
      (ground (arith, contains-keep x test xs, h.0), keep-IsDistinct test xs h.1)
      (keep-IsDistinct test xs h.1)

module _ (reason : String) where
  unsubscribe_topic-IsDistinct :
      (topic : String) (node : Node)
      → IsDistinct node.subscriptions
      → IsDistinct (unsubscribe_topic topic reason node).1.subscriptions
  unfolding unsubscribe_topic
  unsubscribe_topic-IsDistinct topic node h =
      ground (arith, keep-IsDistinct (λ t. not (str_eq t topic)) node.subscriptions h)

  pub unsubscribe_loop-IsDistinct :
      (topics dropped absent : List String) (node : Node)
      → IsDistinct node.subscriptions
      → IsDistinct (unsubscribe_loop reason topics (dropped, absent, node)).2.subscriptions
  unfolding unsubscribe_loop
  unsubscribe_loop-IsDistinct [] dropped absent node h = h
  unsubscribe_loop-IsDistinct (topic ∷ topics) dropped absent node h =
      unsubscribe_loop-IsDistinct topics _ _ _ (unsubscribe_topic-IsDistinct topic node h)

  module _ (outside : Outside) where
    subscribe_entry-IsDistinct :
        (entry : String × String) (so_far : BatchResult × Node)
        → IsDistinct so_far.1.subscriptions
        → IsDistinct (subscribe_entry outside reason entry so_far).1.subscriptions
    unfolding subscribe_entry subscribe_topic
    subscribe_entry-IsDistinct (topic, type) (result, node) h = ground arith

    pub subscribe_loop-IsDistinct :
        (selection : Selection) (so_far : BatchResult × Node)
        → IsDistinct so_far.1.subscriptions
        → IsDistinct (subscribe_loop outside reason selection so_far).1.subscriptions
    unfolding subscribe_loop
    subscribe_loop-IsDistinct [] so_far h = h
    subscribe_loop-IsDistinct (entry ∷ selection) so_far h =
        subscribe_loop-IsDistinct selection (subscribe_entry outside reason entry so_far)
          (subscribe_entry-IsDistinct entry so_far h)

    pub replace_topics-IsDistinct :
        (desired : Selection) (node : Node)
        → IsDistinct node.subscriptions
        → IsDistinct (replace_topics outside desired reason node).2.subscriptions
    unfolding replace_topics subscribe_batch
    replace_topics-IsDistinct desired node h = subscribe_loop-IsDistinct desired _ (
        unsubscribe_loop-IsDistinct
          (keep (λ t. not (contains t (map (λ entry. entry.0) desired))) (subscribed_topics node))
          [] [] node h)
