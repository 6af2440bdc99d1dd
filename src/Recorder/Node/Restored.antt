-- ===== src/Recorder/Node/Restored.antt =====
-- A recording that is stopped and started again by packages/rosbag2_dynamic_recorder/src/dynamic_recorder.cpp.
use rosbag2_dynamic_recorder.Base.{
  ◌≡◌, refl, sym, ap, subst, ◌∙◌, String, Bool, true, false, ◌||◌, none, some, List, [], ◌∷◌, All,
  arith,
}
use rosbag2_dynamic_recorder.Base.Sort.{sorted_by, All-sorted_by}
use rosbag2_dynamic_recorder.Discovery.{str_le, contains}
use rosbag2_dynamic_recorder.Recorder.Selection.{single_type}
use rosbag2_dynamic_recorder.Recorder.Node.{
  Outside, Node, BatchResult, no_batch, untyped, subscribe_topic, subscribe_entry, subscribe_loop,
  subscribe_batch, subscribed_topics, emit_initial_pause_state, opened_at_path, stop, record_to,
}
use rosbag2_dynamic_recorder.Recorder.Node.Topics.{names, subscribe_batch_lem}

-- The graph has one type for the topic, and the middleware accepts the subscription.
abbrev pub can_subscribe : Outside → String → Bool
unfolding single_type
can_subscribe outside topic = elim (single_type outside.graph topic) [
  | none ↦ false
  | some type ↦ elim (outside.subscribe topic type) [ none ↦ true | some error ↦ false ]
]

module _ (outside : Outside) (reason : String) where
  -- What a batch leaves as it is.
  abbrev pub IsKept : BatchResult × Node → BatchResult × Node → Type 0
  IsKept (result, node) (result', node') =
      (result'.unavailable ≡ result.unavailable)
      × (node'.is_open ≡ node.is_open)
      × (node'.paused ≡ node.paused)

  subscribe_entry-IsKept :
      (topic : String) (so_far : BatchResult × Node)
      → can_subscribe outside topic ≡ true
      → IsKept so_far (subscribe_entry outside reason (topic, "") so_far)
  unfolding subscribe_entry subscribe_topic
  subscribe_entry-IsKept topic (result, node) h = ground arith

  pub subscribe_loop-IsKept :
      (topics : List String) (so_far : BatchResult × Node)
      → All (λ topic. can_subscribe outside topic ≡ true) topics
      → IsKept so_far (subscribe_loop outside reason (untyped topics) so_far)
  unfolding subscribe_loop
  subscribe_loop-IsKept [] so_far h = (refl, refl, refl)
  subscribe_loop-IsKept (topic ∷ topics) so_far h =
      let first = subscribe_entry-IsKept topic so_far h.0 in
      let rest =
        subscribe_loop-IsKept topics (subscribe_entry outside reason (topic, "") so_far) h.1 in
      (rest.0 ∙ first.0, rest.1 ∙ first.1, rest.2 ∙ first.2)

pub names-untyped :
    (outside : Outside) (reason : String) (topics : List String)
    → names outside reason (untyped topics) ≡ topics
names-untyped outside reason [] = refl
names-untyped outside reason (topic ∷ topics) = ap (◌∷◌ topic) (names-untyped outside reason topics)

all_subscribed :
    (now before new missing asked listed : Bool)
    → now ≡ (before || new)
    → before ≡ false
    → (new || missing) ≡ asked
    → missing ≡ false
    → asked ≡ listed
    → now ≡ listed
all_subscribed now before new missing asked listed a b c d e = ground arith

-- A batch that can be subscribed to, for a node that records nothing.
restore :
    (outside : Outside) (reason : String) (topics : List String) (node : Node) (t : String)
    → node.subscriptions ≡ []
    → All (λ topic. can_subscribe outside topic ≡ true) topics
    → let node' = (subscribe_batch outside (untyped topics) reason node).1 in
      (node'.is_open ≡ node.is_open)
      × (node'.paused ≡ node.paused)
      × (contains t (subscribed_topics node') ≡ contains t topics)
unfolding subscribe_batch subscribed_topics sorted_by
restore outside reason topics node t none_yet can =
    let kept = subscribe_loop-IsKept outside reason topics (no_batch, node) can in
    let (answered, counted) = subscribe_batch_lem outside reason (untyped topics) node t in
    (
      kept.1,
      kept.2,
      all_subscribed _ _ _ _ _ _ counted (ap (λ ts. contains t (sorted_by str_le ts)) none_yet)
          answered (ap (contains t) kept.0) (ap (contains t) (names-untyped outside reason topics)),
    )

initial_kept :
    (node : Node)
    → ((emit_initial_pause_state node).is_open ≡ node.is_open)
      × ((emit_initial_pause_state node).paused ≡ node.paused)
      × ((emit_initial_pause_state node).subscriptions ≡ node.subscriptions)
initial_kept node = ground arith

stop-open :
    (node : Node)
    → node.is_open ≡ true
    → ((stop node).topics_at_stop ≡ subscribed_topics node)
      × ((stop node).subscriptions ≡ [])
      × ((stop node).paused ≡ node.paused)
unfolding stop
stop-open node opened = rw opened (refl, refl, refl)

-- A recording that is stopped and started again records the topics that it recorded before, and is
-- paused exactly if it was, where each of them can be subscribed to, and a bag can be opened.
pub record_to-stop :
    (outside : Outside) (node : Node) (path t : String)
    → node.is_open ≡ true
    → All (λ topic. can_subscribe outside topic ≡ true) node.subscriptions
    → outside.unused_bag_path node.uri ≡ some path
    → outside.open_error path ≡ none
    → let (error, restored) = record_to outside "" (stop node) in
      (error ≡ "")
      × (restored.is_open ≡ true)
      × (restored.paused ≡ node.paused)
      × (contains t (subscribed_topics restored) ≡ contains t (subscribed_topics node))
unfolding record_to stop
record_to-stop outside node path t opened can free opens =
    let stopped = stop-open node opened in
    let reopened : Node = opened_at_path path (stop node) in
    let kept = initial_kept reopened in
    let can' =
      subst (All (λ topic. can_subscribe outside topic ≡ true)) (sym stopped.0) (
        All-sorted_by str_le (λ topic. can_subscribe outside topic ≡ true) node.subscriptions
          can) in
    let restored =
      restore outside "service:record" (stop node).topics_at_stop
        (emit_initial_pause_state reopened) t (kept.2 ∙ stopped.1) can' in
    rw opened (
      rw free (
        rw opens (
          refl,
          restored.0 ∙ kept.0,
          restored.1 ∙ kept.1 ∙ stopped.2,
          restored.2 ∙ ap (contains t) stopped.0,
        )))
