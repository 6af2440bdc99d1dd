-- ===== src/Recorder/Requests.antt =====
-- packages/rosbag2_dynamic_recorder/src/recorder_services.cpp: what the node does for a request, and what it
-- answers. The status is published for others to read and is left out.
pub mod Recorded
use rosbag2_dynamic_recorder.Base.{
  ℕ, ◌+◌, ◌*◌, ◌/◌, ◌%◌, ◌==◌, ◌-◌, String, Bool, true, false, not, ◌&&◌, ◌||◌, Option, none, some,
  List, [], ◌∷◌, ◌++◌, map, is_empty, leb, str_eq, if◌then◌else◌,
}
use rosbag2_dynamic_recorder.Base.Int.{ℤ, pos, negsuc, pos_part, neg_part, sub_ℕ, ◌+ℤ◌}
use rosbag2_dynamic_recorder.Base.Seconds.{Seconds, scale}
use rosbag2_dynamic_recorder.Base.Text.{append}
use rosbag2_dynamic_recorder.Discovery.{contains}
use rosbag2_dynamic_recorder.Errors.{Response}
use rosbag2_dynamic_recorder.Results.Status.{StatusMsg, ScheduledMsg, TopicLossMsg}
use rosbag2_dynamic_recorder.Results.Events.{Time}
use rosbag2_dynamic_recorder.Schedule.{Stamp, Timing}
use rosbag2_dynamic_recorder.Client.Call.{
  Request, get_status, get_profiles, get_subscribed_topics, is_paused, pause, toggle_paused,
  snapshot, stop, subscribe_topics, unsubscribe_topics, set_topics, set_profile, resume,
  split_bagfile, record_bag, Reply, reply,
}
use rosbag2_dynamic_recorder.Recorder.Scheduler
use rosbag2_dynamic_recorder.Recorder.Scheduler.{
  Kind, recording, Mode, node_time, publish_time, receive_time, Scheduled, is_node_time, mode_from,
  is_zero, timer_callback, schedule_at_node_time, schedule_at_message_time, pending,
}
use rosbag2_dynamic_recorder.Recorder.Losses.{TopicLoss, topic_totals, add64}
use rosbag2_dynamic_recorder.Recorder.Node
use rosbag2_dynamic_recorder.Recorder.Node.{
  Outside, Node, Planned, planned_resume, planned_split, planned_record, subscribed_topics,
  split_bag, record_to,
}

abbrev pub nanoseconds_per_second : ℕ
nanoseconds_per_second = 1_000_000_000

unfoldable pub to_nanoseconds : Stamp → ℤ
unfolding ◌+ℤ◌
to_nanoseconds (sec, nanosec) = scale nanoseconds_per_second sec +ℤ nanosec

-- Of a time that is not negative. The cast to int32 keeps 32 bits, which stand here as a natural number:
-- they are `sec` as long as it is below 2 ^ 31.
unfoldable pub to_time_msg : ℤ → Time
to_time_msg nanoseconds = record {
  sec = pos_part nanoseconds / nanoseconds_per_second % 4_294_967_296;
  nanosec = pos_part nanoseconds % nanoseconds_per_second;
}

-- The codes of a response.
pub record ScheduleCodes : Type 0 where
  pub success : ℕ
  pub invalid_mode : ℕ
  pub invalid_topic : ℕ
  pub failed : ℕ

abbrev pub resume_codes : ScheduleCodes
resume_codes = record { success = 0; invalid_mode = 1; invalid_topic = 2; failed = 0 }

abbrev pub split_codes : ScheduleCodes
split_codes = record { success = 0; invalid_mode = 2; invalid_topic = 3; failed = 4 }

-- A code, an error text and the node.
abbrev pub Outcome : Type 0
Outcome = ℕ × String × Node

abbrev pub verb_of : Kind → String
verb_of Scheduler.resume = "resume"
verb_of _ = "split"

abbrev pub service_name : Kind → String
service_name Scheduler.resume = "resume"
service_name _ = "split_bagfile"

abbrev pub planned : Kind → Planned
planned Scheduler.resume = planned_resume
planned _ = planned_split

-- The action of a kind, and whether it could be done.
abbrev pub act : Outside → Kind → String → Node → Bool × Node
unfolding Node.resume split_bag
act outside Scheduler.resume reason node = (true, Node.resume reason node)
act outside _ reason node = split_bag outside reason node

unfoldable pub run_now : Outside → Kind → ScheduleCodes → Node → Outcome
unfolding append
run_now outside kind codes node =
    let (done, node') = act outside kind (append "service:" (service_name kind)) node in
    if done
    then (codes.success, "", node')
    else (codes.failed, append "the writer could not " (append (verb_of kind) " the bag"), node')

-- `at_ns - now`, where it is above 0.
abbrev pub delay_until : ℤ → ℤ → ℕ
delay_until at_ns now =
    pos_part (sub_ℕ (pos_part at_ns + neg_part now) (neg_part at_ns + pos_part now))

abbrev pub with_scheduler :
    (Scheduler.Scheduler Planned → Scheduler.Scheduler Planned) → Node → Node
with_scheduler f node = record node { scheduler = f node.scheduler }

-- A mode that is known and a topic that is recorded.
unfoldable pub schedule : Outside → Kind → ℤ → Mode → String → ScheduleCodes → Node → Outcome
unfolding schedule_at_message_time schedule_at_node_time run_now
schedule outside kind at_ns mode tracking_topic codes node =
    if not (is_node_time mode)
    then (
      codes.success,
      "",
      with_scheduler (schedule_at_message_time kind at_ns mode tracking_topic) node,
    )
    else if delay_until at_ns outside.now == 0
    then run_now outside kind codes node
    else (
      codes.success,
      "",
      with_scheduler
          (schedule_at_node_time kind outside.later (delay_until at_ns outside.now) (planned kind))
          node,
    )

unfoldable pub schedule_or_run :
    Outside → Kind → Stamp → ℕ → String → ScheduleCodes → Node → Outcome
unfolding run_now schedule to_nanoseconds mode_from append subscribed_topics
schedule_or_run outside kind at_time mode tracking_topic codes node =
    let at_ns = to_nanoseconds at_time in
    if is_zero at_ns then run_now outside kind codes node else elim (mode_from (pos mode)) [
      | none ↦ (
        codes.invalid_mode,
        append (verb_of kind) "_mode must be 0 (node time), 1 (publish time) or 2 (receive time)",
        node,
      )
      | some parsed ↦
          if not (str_eq tracking_topic "")
            && not (contains tracking_topic (subscribed_topics node))
          then (
            codes.invalid_topic,
            append "tracking_topic_name '" (append tracking_topic "' is not being recorded"),
            node,
          )
          else schedule outside kind at_ns parsed tracking_topic codes node
    ]

abbrev pub not_recording_reason : Outside → String
not_recording_reason outside =
    if outside.waiting_for_clock
    then "waiting for /clock: use_sim_time is set and nothing has been published on it yet"
    else "recorder is stopped; call ~/record to open a new bag first"

unfoldable pub handle_resume : Outside → Timing → Node → Outcome
unfolding schedule_or_run
handle_resume outside timing node =
    if not node.is_open
    then (3, not_recording_reason outside, node)
    else schedule_or_run outside Scheduler.resume timing.stamp timing.mode
        timing.tracking_topic_name resume_codes node

unfoldable pub handle_split_bagfile : Outside → Timing → Node → Outcome
unfolding schedule_or_run
handle_split_bagfile outside timing node =
    if not node.is_open
    then (1, "not recording", node)
    else schedule_or_run outside Scheduler.split timing.stamp timing.mode timing.tracking_topic_name
        split_codes node

unfoldable pub handle_toggle_paused : Node → Node
unfolding Node.resume Node.pause
handle_toggle_paused node =
    if node.paused
    then Node.resume "service:toggle_paused" node
    else Node.pause "service:toggle_paused" node

unfoldable pub handle_stop : Node → Outcome
unfolding Node.stop
handle_stop node =
    if not node.is_open then (1, "recording is already stopped", node) else (0, "", Node.stop node)

-- An error text and the node that goes with it.
abbrev pub answered : String × Node → Outcome
answered (error, node) = if str_eq error "" then (0, "", node) else (1, error, node)

unfoldable pub handle_record : Outside → String → Stamp → Node → Outcome
unfolding to_nanoseconds schedule_at_node_time record_to
handle_record outside uri start_time node =
    let at_ns = to_nanoseconds start_time in
    if node.is_open
    then (1, "already recording", node)
    else if outside.waiting_for_clock
    then (1, not_recording_reason outside, node)
    else if is_zero at_ns || delay_until at_ns outside.now == 0
    then answered (record_to outside uri node)
    else (
      0,
      "",
      with_scheduler
          (schedule_at_node_time recording outside.later (delay_until at_ns outside.now)
            (planned_record uri))
          node,
    )

abbrev pub mode_number : Mode → ℕ
mode_number node_time = 0
mode_number publish_time = 1
mode_number receive_time = 2

abbrev pub action_number : Kind → ℕ
action_number Scheduler.resume = 0
action_number Scheduler.split = 1
action_number recording = 2

-- An entry of the status's schedules.
unfoldable pub schedule_message : Scheduled → ScheduledMsg
unfolding to_time_msg
schedule_message scheduled = record {
  action = action_number scheduled.kind;
  time = to_time_msg scheduled.at_ns;
  mode = mode_number scheduled.mode;
  tracking_topic = scheduled.tracking_topic;
}

abbrev pub loss_message : TopicLoss → TopicLossMsg
loss_message loss = record {
  topic_name = loss.topic;
  messages_missed = loss.missed;
  messages_lost_in_transport = loss.in_transport;
  messages_lost_in_recorder = loss.in_recorder;
}

abbrev pub same_list : List String → List String → Bool
same_list [] [] = true
same_list (a ∷ as') (b ∷ bs) = str_eq a b && same_list as' bs
same_list _ _ = false

-- The first profile whose topics are these, and "" for none.
unfoldable pub active_profile_for : List String → List (String × List String) → String
active_profile_for topics [] = ""
active_profile_for topics ((name, profile_topics) ∷ profiles) =
    if same_list profile_topics topics then name else active_profile_for topics profiles

-- build_status, where the figures of the bag, the disk and the configuration are given.
unfoldable pub build_status : Outside → Node → StatusMsg Seconds
unfolding schedule_message subscribed_topics pending topic_totals active_profile_for add64
build_status outside node = record outside.rest_of_status {
  recording = node.is_open;
  paused = node.paused;
  uri = node.bag_uri;
  subscribed_topics = subscribed_topics node;
  active_profile = active_profile_for (subscribed_topics node) outside.profiles;
  messages_missed = node.losses.totals.missed;
  sequence_numbers_available = node.losses.totals.sequence_numbers_available;
  messages_lost_in_transport = node.losses.totals.lost_in_transport;
  messages_lost_in_recorder = node.losses.totals.lost_in_recorder;
  messages_lost = add64 node.losses.totals.lost_in_transport node.losses.totals.lost_in_recorder;
  topic_losses = map loss_message (topic_totals node.losses);
  stopped_for_low_disk = node.stopped_for_low_disk;
  stopped_for_max_bag_size = node.stopped_for_max_bag_size;
  waiting_for_clock = outside.waiting_for_clock;
  schedules = map schedule_message (pending node.scheduler);
}

-- The timer of a kind goes off, by what it was made for: the schedule leaves its slot, and the action runs.
unfoldable pub timer_fired : Outside → Kind → Planned → Node → Node
unfolding timer_callback record_to append
timer_fired outside kind action node =
    let taken = with_scheduler (timer_callback kind) node in
    elim action [
      | planned_resume ↦ (act outside Scheduler.resume "schedule:resume" taken).1
      | planned_split ↦ (act outside Scheduler.split "schedule:split" taken).1
      | planned_record uri ↦ (record_to outside uri taken).1
    ]
