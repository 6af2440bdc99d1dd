-- ===== src/Recorder/Scheduler.antt =====
-- packages/rosbag2_dynamic_recorder/src/scheduler.cpp: requests for a future time. The node's clock and
-- the timers of rclcpp are outside: the time is given, and a timer is its action with whether it was
-- cancelled.
pub mod Consistent
pub mod Messages
use rosbag2_dynamic_recorder.Base.{
  ℕ, ◌+◌, ◌==◌, String, Bool, true, false, not, ◌&&◌, ◌||◌, Option, none, some, List, [], ◌∷◌, ◌++◌,
  leb, is_empty, str_eq, if◌then◌else◌,
}
use rosbag2_dynamic_recorder.Base.Int.{ℤ, pos, negsuc, pos_part, neg_part, ◌+ℤ◌}

-- `Record` is `recording` here.
pub data Kind : Type 0 where
  resume split recording : Kind

pub data Mode : Type 0 where
  node_time publish_time receive_time : Mode

pub record Scheduled : Type 0 where
  pub kind : Kind
  pub at_ns : ℤ
  pub mode : Mode
  pub tracking_topic : String

pub record Due : Type 0 where
  pub resumes : Bool
  pub splits : Bool

unfoldable pub mode_from : ℤ → Option Mode
mode_from (pos k) =
    if k == 0
    then some node_time
    else if k == 1
    then some publish_time
    else if k == 2
    then some receive_time
    else none
mode_from (negsuc k) = none

-- `a <= b` of integers.
abbrev pub leb_ℤ : ℤ → ℤ → Bool
leb_ℤ a b = leb (pos_part a + neg_part b) (pos_part b + neg_part a)

abbrev pub is_zero : ℤ → Bool
is_zero (pos n) = n == 0
is_zero (negsuc n) = false

abbrev pub is_node_time : Mode → Bool
is_node_time node_time = true
is_node_time _ = false

abbrev pub fires_on_messages : Option Scheduled → Bool
fires_on_messages none = false
fires_on_messages (some scheduled) = not (is_node_time scheduled.mode)

-- The stamp that the schedule's clock gives a message.
abbrev pub stamp_by : Mode → ℤ → ℤ → ℤ
stamp_by publish_time send_ns recv_ns = send_ns
stamp_by _ send_ns recv_ns = recv_ns

abbrev pub is_tracked : String → String → Bool
is_tracked tracking_topic topic = str_eq tracking_topic "" || str_eq tracking_topic topic

unfoldable pub is_due : Option Scheduled → String → ℤ → ℤ → Bool
is_due none topic send_ns recv_ns = false
is_due (some scheduled) topic send_ns recv_ns =
    let stamp = stamp_by scheduled.mode send_ns recv_ns in
    if is_node_time scheduled.mode
    then false
    else if not (is_tracked scheduled.tracking_topic topic)
    then false
    else not (is_zero stamp) && leb_ℤ scheduled.at_ns stamp

pub record Timer (Action : Type 0) : Type 0 where
  pub cancelled : Bool
  pub action : Action

pub record Slot (Action : Type 0) : Type 0 where
  pub timer : Option (Timer Action)
  pub scheduled : Option Scheduled

-- `slots_` by their kinds, and `message_time_pending_`.
pub record Scheduler (Action : Type 0) : Type 0 where
  pub resume_slot : Slot Action
  pub split_slot : Slot Action
  pub record_slot : Slot Action
  pub message_time_pending : Bool

-- A message as take_due gets it: its topic and the stamps.
abbrev pub Arrival : Type 0
Arrival = String × ℤ × ℤ

module _ {Action : Type 0} where
  abbrev pub empty_slot : Slot Action
  empty_slot = record { timer = none; scheduled = none }

  abbrev pub new_scheduler : Scheduler Action
  new_scheduler = record {
    resume_slot = empty_slot;
    split_slot = empty_slot;
    record_slot = empty_slot;
    message_time_pending = false;
  }

  abbrev pub slot : Kind → Scheduler Action → Slot Action
  slot resume s = s.resume_slot
  slot split s = s.split_slot
  slot recording s = s.record_slot

  abbrev pub set_slot : Kind → Slot Action → Scheduler Action → Scheduler Action
  set_slot resume changed s = record s { resume_slot = changed }
  set_slot split changed s = record s { split_slot = changed }
  set_slot recording changed s = record s { record_slot = changed }

  unfoldable pub update_message_time_pending : Scheduler Action → Scheduler Action
  update_message_time_pending s = record s {
    message_time_pending =
        fires_on_messages s.resume_slot.scheduled || fires_on_messages s.split_slot.scheduled;
  }

  -- `timer->cancel()` where there is a timer.
  abbrev pub cancelled_timer : Option (Timer Action) → Option (Timer Action)
  cancelled_timer none = none
  cancelled_timer (some timer) = some (record { cancelled = true; action = timer.action })

  abbrev pub holding : Slot Action → Option Scheduled → Slot Action
  holding changed scheduled = record {
    timer = cancelled_timer changed.timer;
    scheduled = scheduled;
  }

  unfoldable pub replace : Kind → Scheduled → Scheduler Action → Scheduler Action
  unfolding update_message_time_pending
  replace kind scheduled s =
      update_message_time_pending (set_slot kind (holding (slot kind s) (some scheduled)) s)

  abbrev pub with_timer : Action → Slot Action → Slot Action
  with_timer action changed = record {
    timer = some (record { cancelled = false; action = action });
    scheduled = changed.scheduled;
  }

  -- `now` is what the node's clock shows.
  unfoldable pub schedule_at_node_time : Kind → ℤ → ℕ → Action → Scheduler Action → Scheduler Action
  unfolding replace ◌+ℤ◌
  schedule_at_node_time kind now delay action s =
      let replaced =
        replace kind
          (record { kind = kind; at_ns = now +ℤ pos delay; mode = node_time; tracking_topic = "" })
          s in
      set_slot kind (with_timer action (slot kind replaced)) replaced

  -- What the timer of a slot calls: the schedule is gone before the action runs.
  unfoldable pub timer_callback : Kind → Scheduler Action → Scheduler Action
  timer_callback kind s = set_slot kind (holding (slot kind s) none) s

  -- A message-time schedule leaves a timer that is cancelled.
  unfoldable pub schedule_at_message_time :
      Kind → ℤ → Mode → String → Scheduler Action → Scheduler Action
  unfolding replace
  schedule_at_message_time kind at_ns mode tracking_topic s =
      replace kind
        (record { kind = kind; at_ns = at_ns; mode = mode; tracking_topic = tracking_topic }) s

  abbrev pub scheduled_in : Slot Action → List Scheduled
  scheduled_in filled = elim filled.scheduled [ none ↦ [] | some scheduled ↦ scheduled ∷ [] ]

  unfoldable pub pending : Scheduler Action → List Scheduled
  pending s = scheduled_in s.resume_slot ++ scheduled_in s.split_slot ++ scheduled_in s.record_slot

  abbrev pub take : Arrival → Slot Action → Slot Action
  take (topic, send_ns, recv_ns) filled =
      if is_due filled.scheduled topic send_ns recv_ns
      then record { timer = filled.timer; scheduled = none }
      else filled

  -- take_due under the lock.
  unfoldable pub take_locked : Arrival → Scheduler Action → Scheduler Action × Due
  unfolding update_message_time_pending is_due
  take_locked (topic, send_ns, recv_ns) s = (
    update_message_time_pending (record s {
      resume_slot = take (topic, send_ns, recv_ns) s.resume_slot;
      split_slot = take (topic, send_ns, recv_ns) s.split_slot;
    }),
    record {
      resumes = is_due s.resume_slot.scheduled topic send_ns recv_ns;
      splits = is_due s.split_slot.scheduled topic send_ns recv_ns;
    },
  )

  unfoldable pub take_due : Arrival → Scheduler Action → Scheduler Action × Due
  unfolding take_locked
  take_due arrival s =
      if not s.message_time_pending
      then (s, record { resumes = false; splits = false })
      else take_locked arrival s

  unfoldable pub clear : Scheduler Action → Scheduler Action
  unfolding update_message_time_pending
  clear s = update_message_time_pending (record s {
    resume_slot = holding s.resume_slot none;
    split_slot = holding s.split_slot none;
  })
