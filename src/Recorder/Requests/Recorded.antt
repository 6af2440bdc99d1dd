-- ===== src/Recorder/Requests/Recorded.antt =====
-- What a request for a future time leaves in the scheduler, and how the status tells of it, between
-- packages/rosbag2_dynamic_recorder/src/recorder_services.cpp and packages/dynrec/dynrec.
use text.Mathlib.TextEquality.{eq_iff}
use rosbag2_dynamic_recorder.Base.{
  ℕ, ◌+◌, ◌*◌, ◌<◌, ◌≡◌, sym, subst, String, true, false, not, ◌&&◌, ◌||◌, some, ltb, arith, inl,
  inr, Bool-cases, str_eq, if◌then◌else◌,
}
use rosbag2_dynamic_recorder.Base.Int.{ℤ, pos, negsuc, ◌+ℤ◌}
use rosbag2_dynamic_recorder.Discovery.{contains}
use rosbag2_dynamic_recorder.Errors.{ok}
use rosbag2_dynamic_recorder.Results.Words.{action_name, get_word, schedule_modes}
use rosbag2_dynamic_recorder.Results.Events.{stamp_seconds}
use rosbag2_dynamic_recorder.Schedule.{word, parse_mode}
use rosbag2_dynamic_recorder.Recorder.Node.{Outside, Node, subscribed_topics}
use rosbag2_dynamic_recorder.Recorder.Scheduler.{
  Kind, split, Scheduled, schedule_at_node_time, schedule_at_message_time, Mode, is_node_time,
  mode_from, is_zero, node_time, publish_time, receive_time,
}
use rosbag2_dynamic_recorder.Recorder.Requests.{
  mode_number, to_nanoseconds, to_time_msg, delay_until, Outcome, schedule, schedule_or_run,
  handle_split_bagfile, split_codes,
}

-- What the client's word for a mode is to the recorder, and back.
abbrev pub IsModeOf : String → Mode → ℕ → Type 0
IsModeOf name mode k =
    (mode_from (pos k) ≡ some mode) × (action_name schedule_modes (mode_number mode) ≡ name)

unknown :
    (name : String) {k : ℕ}
    → parse_mode (word name) ≡ ok k
    → str_eq name "node" ≡ false
    → str_eq name "publish" ≡ false
    → str_eq name "receive" ≡ false
    → ⊥
unfolding parse_mode
unknown name h a b c = ground arith

-- The client and the recorder number the modes alike: each word that the client takes for a mode is a
-- mode of the recorder, and the client has the same word for what the status then says.
pub parse_mode-IsModeOf :
    (name : String) {k : ℕ} → parse_mode (word name) ≡ ok k → (mode : Mode) × IsModeOf name mode k
unfolding parse_mode mode_from action_name get_word
parse_mode-IsModeOf name {k} h = elim (Bool-cases (str_eq name "node")) [
  | inl node ↦ (node_time, (ground arith, sym ((eq_iff name "node").0 node)))
  | inr other ↦ elim (Bool-cases (str_eq name "publish")) [
    | inl publish ↦ (publish_time, (ground arith, sym ((eq_iff name "publish").0 publish)))
    | inr neither ↦ elim (Bool-cases (str_eq name "receive")) [
      | inl receive ↦ (receive_time, (ground arith, sym ((eq_iff name "receive").0 receive)))
      | inr none_of ↦ absurd (unknown name h other neither none_of)
    ]
  ]
]

to_nanoseconds-pos :
    (sec nanosec : ℕ) → to_nanoseconds (pos sec, pos nanosec) ≡ pos (1_000_000_000 * sec + nanosec)
unfolding to_nanoseconds ◌+ℤ◌
to_nanoseconds-pos sec nanosec = ground arith

pub stamp_seconds-to_time_msg :
    (nanoseconds : ℕ)
    → nanoseconds < 2_147_483_648 * 1_000_000_000
    → stamp_seconds (to_time_msg (pos nanoseconds)) ≡ nanoseconds
unfolding to_time_msg
stamp_seconds-to_time_msg nanoseconds h = omega (arith, h)

delay_until-lem :
    (at_ns : ℕ) (now : ℤ) (elapsed : ℕ)
    → 0 < delay_until (pos at_ns) now
    → (now +ℤ pos elapsed) +ℤ pos (delay_until (pos at_ns) now) ≡ pos (at_ns + elapsed)
unfolding ◌+ℤ◌
delay_until-lem at_ns (pos n) elapsed h = ground arith
delay_until-lem at_ns (negsuc n) elapsed h = ground arith

-- When a schedule is due: by the node's clock as much later as the clock went on between its two
-- readings.
abbrev pub due_at : ℕ → Mode → ℕ → ℕ
due_at elapsed mode at_ns = if is_node_time mode then at_ns + elapsed else at_ns

-- A request at a time that is not 0, in a mode that the recorder has, for a topic that is recorded or for
-- any, and by the clock of the node only for a time to come.
abbrev pub IsPlannable : Outside → Node → ℕ → Mode → String → Type 0
IsPlannable outside node at_ns mode topic =
    (0 < at_ns)
    × ((str_eq topic "" || contains topic (subscribed_topics node)) ≡ true)
    × ((not (is_node_time mode) || ltb 0 (delay_until (pos at_ns) outside.now)) ≡ true)

-- What the slot of the kind holds then. The node's clock tracks no topic.
abbrev pub planned_schedule : Kind → ℕ → Mode → String → Scheduled
planned_schedule kind at_ns mode topic = record {
  kind = kind;
  at_ns = pos at_ns;
  mode = mode;
  tracking_topic = if is_node_time mode then "" else topic;
}

-- The node where the split is scheduled, and nothing else is changed.
abbrev pub HoldsSplit : ℕ → Mode → String → Node → Outcome → Type 0
HoldsSplit at_ns mode topic node (code, error, node') =
    (code ≡ 0)
    × (node'.scheduler.split_slot.scheduled ≡ some (planned_schedule split at_ns mode topic))
    × (node'.scheduler.resume_slot ≡ node.scheduler.resume_slot)
    × (node'.scheduler.record_slot ≡ node.scheduler.record_slot)

schedule-HoldsSplit :
    (outside : Outside) (node : Node) (elapsed at_ns : ℕ) (mode : Mode) (topic : String)
    → outside.later ≡ outside.now +ℤ pos elapsed
    → IsPlannable outside node at_ns mode topic
    → HoldsSplit
        (due_at elapsed mode at_ns)
        mode
        topic
        node
        (schedule outside split (pos at_ns) mode topic split_codes node)
unfolding schedule schedule_at_message_time schedule_at_node_time
schedule-HoldsSplit outside node elapsed at_ns node_time topic e h =
    let later : 0 < delay_until (pos at_ns) outside.now = ground arith in
    ground (arith, e, delay_until-lem at_ns outside.now elapsed later)
schedule-HoldsSplit outside node elapsed at_ns publish_time topic e h = ground arith
schedule-HoldsSplit outside node elapsed at_ns receive_time topic e h = ground arith

pub handle_split_bagfile-HoldsSplit :
    (outside : Outside) (node : Node) (elapsed sec nanosec k : ℕ) (mode : Mode) (topic : String)
    → outside.later ≡ outside.now +ℤ pos elapsed
    → node.is_open ≡ true
    → mode_from (pos k) ≡ some mode
    → IsPlannable outside node (1_000_000_000 * sec + nanosec) mode topic
    → HoldsSplit (due_at elapsed mode (1_000_000_000 * sec + nanosec)) mode topic node (
        handle_split_bagfile outside
          (record { tracking_topic_name = topic; mode = k; stamp = (pos sec, pos nanosec) })
          node)
unfolding handle_split_bagfile schedule_or_run
handle_split_bagfile-HoldsSplit outside node elapsed sec nanosec k mode topic e opened known h =
    let at_ns = 1_000_000_000 * sec + nanosec in
    let later : is_zero (pos at_ns) ≡ false = ground arith in
    let tracked : (not (str_eq topic "") && not (contains topic (subscribed_topics node))) ≡ false =
      ground arith in
    rw opened (
      rw (to_nanoseconds-pos sec nanosec) (
        rw known (
          rw later (
            rw tracked (
              subst
                (λ time.
                  HoldsSplit (due_at elapsed mode at_ns) mode topic node
                    (schedule outside split time mode topic split_codes node))
                (sym (to_nanoseconds-pos sec nanosec))
                (schedule-HoldsSplit outside node elapsed at_ns mode topic e h))))))
