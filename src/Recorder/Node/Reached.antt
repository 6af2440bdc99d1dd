-- ===== src/Recorder/Node/Reached.antt =====
-- The nodes that the operations of packages/rosbag2_dynamic_recorder/src/dynamic_recorder.cpp reach.
use rosbag2_dynamic_recorder.Base.{
  ◌≡◌, sym, subst, String, List, [], arith, Bool-cases, inl, inr, Option-cases, str_eq,
  if◌then◌else◌,
}
use rosbag2_dynamic_recorder.Discovery.Distinct.{IsDistinct}
use rosbag2_dynamic_recorder.Recorder.Scheduler.{Arrival}
use rosbag2_dynamic_recorder.Recorder.Selection.{Selection}
use rosbag2_dynamic_recorder.Recorder.Node.{
  Outside, Node, no_batch, pause, resume, split_bag, subscribe_batch, unsubscribe_loop,
  replace_topics, stop, record_to, on_message, untyped, emit_initial_pause_state, opened_at_path,
}
use rosbag2_dynamic_recorder.Recorder.Node.Distinct.{
  subscribe_loop-IsDistinct, unsubscribe_loop-IsDistinct, replace_topics-IsDistinct,
}

-- A node that has no subscription yet, and what the operations make of a node.
pub data Reached : Node → Type 0 where
  first_step : (node : Node) → node.subscriptions ≡ [] → Reached node
  pause_step : {node : Node} (reason : String) → Reached node → Reached (pause reason node)
  resume_step : {node : Node} (reason : String) → Reached node → Reached (resume reason node)
  split_step :
      {node : Node} (outside : Outside) (reason : String)
      → Reached node
      → Reached (split_bag outside reason node).1
  subscribe_step :
      {node : Node} (outside : Outside) (selection : Selection) (reason : String)
      → Reached node
      → Reached (subscribe_batch outside selection reason node).1
  unsubscribe_step :
      {node : Node} (reason : String) (topics : List String)
      → Reached node
      → Reached (unsubscribe_loop reason topics ([], [], node)).2
  replace_step :
      {node : Node} (outside : Outside) (desired : Selection) (reason : String)
      → Reached node
      → Reached (replace_topics outside desired reason node).2
  stop_step : {node : Node} → Reached node → Reached (stop node)
  record_step :
      {node : Node} (outside : Outside) (uri : String)
      → Reached node
      → Reached (record_to outside uri node).1
  message_step :
      {node : Node} (outside : Outside) (arrival : Arrival)
      → Reached node
      → Reached (on_message outside arrival node)

pause-kept :
    (reason : String) (node : Node)
    → IsDistinct node.subscriptions
    → IsDistinct (pause reason node).subscriptions
unfolding pause
pause-kept reason node h = ground arith

resume-kept :
    (reason : String) (node : Node)
    → IsDistinct node.subscriptions
    → IsDistinct (resume reason node).subscriptions
unfolding resume
resume-kept reason node h = ground arith

split_bag-kept :
    (outside : Outside) (reason : String) (node : Node)
    → IsDistinct node.subscriptions
    → IsDistinct (split_bag outside reason node).1.subscriptions
unfolding split_bag
split_bag-kept outside reason node h = ground arith

stop-kept : (node : Node) → IsDistinct node.subscriptions → IsDistinct (stop node).subscriptions
unfolding stop
stop-kept node h = elim (Bool-cases node.is_open) [
  | inl opened ↦ rw opened tt
  | inr closed ↦ rw closed h
]

initial-kept :
    (node : Node)
    → IsDistinct node.subscriptions
    → IsDistinct (emit_initial_pause_state node).subscriptions
initial-kept node h = ground arith

record_to-kept :
    (outside : Outside) (uri : String) (node : Node)
    → IsDistinct node.subscriptions
    → IsDistinct (record_to outside uri node).1.subscriptions
unfolding record_to subscribe_batch
record_to-kept outside uri node h =
    let requested = if str_eq uri "" then node.uri else uri in
    elim (Bool-cases node.is_open) [
      | inl opened ↦ rw opened h
      | inr closed ↦ elim (Option-cases (outside.unused_bag_path requested)) [
        | inl full ↦ rw closed (rw full h)
        | inr (path, free) ↦ elim (Option-cases (outside.open_error path)) [
          | inr (error, fails) ↦ rw closed (rw free (rw fails h))
          | inl opens ↦ rw closed (
              rw free (
                rw opens (
                  subscribe_loop-IsDistinct "service:record" outside (untyped node.topics_at_stop)
                    (no_batch, emit_initial_pause_state (opened_at_path path node))
                    (initial-kept (opened_at_path path node) h))))
        ]
      ]
    ]

on_message-kept :
    (outside : Outside) (arrival : Arrival) (node : Node)
    → IsDistinct node.subscriptions
    → IsDistinct (on_message outside arrival node).subscriptions
unfolding on_message resume split_bag
on_message-kept outside arrival node h = ground arith

-- No topic is subscribed to twice.
pub Reached-IsDistinct : {node : Node} → Reached node → IsDistinct node.subscriptions
unfolding subscribe_batch
Reached-IsDistinct (first_step node h) = subst IsDistinct (sym h) tt
Reached-IsDistinct (pause_step reason r) = pause-kept reason _ (Reached-IsDistinct r)
Reached-IsDistinct (resume_step reason r) = resume-kept reason _ (Reached-IsDistinct r)
Reached-IsDistinct (split_step outside reason r) =
    split_bag-kept outside reason _ (Reached-IsDistinct r)
Reached-IsDistinct (subscribe_step {node} outside selection reason r) =
    subscribe_loop-IsDistinct reason outside selection (no_batch, node) (Reached-IsDistinct r)
Reached-IsDistinct (unsubscribe_step {node} reason topics r) =
    unsubscribe_loop-IsDistinct reason topics [] [] node (Reached-IsDistinct r)
Reached-IsDistinct (replace_step {node} outside desired reason r) =
    replace_topics-IsDistinct reason outside desired node (Reached-IsDistinct r)
Reached-IsDistinct (stop_step {node} r) = stop-kept node (Reached-IsDistinct r)
Reached-IsDistinct (record_step {node} outside uri r) =
    record_to-kept outside uri node (Reached-IsDistinct r)
Reached-IsDistinct (message_step {node} outside arrival r) =
    on_message-kept outside arrival node (Reached-IsDistinct r)
