-- ===== src/Recorder/Scheduler/Consistent.antt =====
-- What holds of the scheduler of packages/rosbag2_dynamic_recorder/src/scheduler.cpp after any calls. Each
-- step is a call, or a timer that goes off; rclcpp calls no timer that is cancelled.
use rosbag2_dynamic_recorder.Base.{
  ℕ, ◌≡◌, refl, String, Bool, true, false, not, ◌||◌, Option, none, some, arith,
}
use rosbag2_dynamic_recorder.Base.Int.{ℤ}
use rosbag2_dynamic_recorder.Recorder.Scheduler.{
  Kind, resume, split, recording, Mode, Scheduled, Timer, Slot, Scheduler, Arrival, is_node_time,
  fires_on_messages, is_due, cancelled_timer, take, new_scheduler, slot, replace,
  schedule_at_node_time, timer_callback, schedule_at_message_time, take_locked, take_due, clear,
}

-- A schedule that a timer has to bring about.
abbrev pub is_awaited : Option Scheduled → Bool
is_awaited none = false
is_awaited (some scheduled) = is_node_time scheduled.mode

abbrev pub IsOf : Kind → Option Scheduled → Type 0
IsOf kind none = Unit
IsOf kind (some scheduled) = scheduled.kind ≡ kind

module _ {Action : Type 0} where
  -- A timer that will go off.
  abbrev pub is_live : Option (Timer Action) → Bool
  is_live none = false
  is_live (some timer) = not timer.cancelled

  -- A timer will go off exactly for a schedule on the node's clock, and the schedule is of the slot's kind.
  abbrev pub IsKept : Kind → Slot Action → Type 0
  IsKept kind filled =
      (is_live filled.timer ≡ is_awaited filled.scheduled) × IsOf kind filled.scheduled

  -- Each slot is kept, and the flag says exactly whether a message can fire a schedule.
  pub record IsConsistent (s : Scheduler Action) : Type 0 where
    pub resume_kept : IsKept resume s.resume_slot
    pub split_kept : IsKept split s.split_slot
    pub record_kept : IsKept recording s.record_slot
    pub flag_exact :
        s.message_time_pending
        ≡ (fires_on_messages s.resume_slot.scheduled || fires_on_messages s.split_slot.scheduled)

  pub data Step : Scheduler Action → Scheduler Action → Type 0 where
    node_time_step :
        (s : Scheduler Action) (kind : Kind) (now : ℤ) (delay : ℕ) (action : Action)
        → Step s (schedule_at_node_time kind now delay action s)
    message_time_step :
        (s : Scheduler Action) (kind : Kind) (at_ns : ℤ) (mode : Mode) (topic : String)
        → is_node_time mode ≡ false
        → Step s (schedule_at_message_time kind at_ns mode topic s)
    timer_step :
        (s : Scheduler Action) (kind : Kind)
        → is_live (slot kind s).timer ≡ true
        → Step s (timer_callback kind s)
    message_step : (s : Scheduler Action) (arrival : Arrival) → Step s (take_due arrival s).0
    clear_step : (s : Scheduler Action) → Step s (clear s)

  pub data Reached : Scheduler Action → Type 0 where
    at_first : Reached new_scheduler
    after : {s t : Scheduler Action} → Reached s → Step s t → Reached t

  not-is_live-cancelled_timer :
      (timer : Option (Timer Action)) → is_live (cancelled_timer timer) ≡ false
  not-is_live-cancelled_timer none = refl
  not-is_live-cancelled_timer (some timer) = refl

  take-IsKept :
      (kind : Kind) (arrival : Arrival) (filled : Slot Action)
      → IsKept kind filled
      → IsKept kind (take arrival filled)
  unfolding is_due
  take-IsKept kind (topic, send_ns, recv_ns) filled h = go filled.timer filled.scheduled h
    where
      go :
          (timer : Option (Timer Action)) (scheduled : Option Scheduled)
          → IsKept kind (record { timer = timer; scheduled = scheduled })
          → IsKept kind
              (take (topic, send_ns, recv_ns) (record { timer = timer; scheduled = scheduled }))
      go timer none h = h
      go timer (some scheduled) h = ground arith

  pub take_locked-IsConsistent :
      (arrival : Arrival) (s : Scheduler Action)
      → IsConsistent s
      → IsConsistent (take_locked arrival s).0
  unfolding take_locked
  take_locked-IsConsistent (topic, send_ns, recv_ns) s h = record {
    resume_kept = take-IsKept resume (topic, send_ns, recv_ns) s.resume_slot h.resume_kept;
    split_kept = take-IsKept split (topic, send_ns, recv_ns) s.split_slot h.split_kept;
    record_kept = h.record_kept;
    flag_exact = refl;
  }

  pub Step-IsConsistent : {s t : Scheduler Action} → Step s t → IsConsistent s → IsConsistent t
  unfolding schedule_at_node_time schedule_at_message_time timer_callback take_due clear replace
  Step-IsConsistent (node_time_step s resume now delay action) h = ground arith
  Step-IsConsistent (node_time_step s split now delay action) h = ground arith
  Step-IsConsistent (node_time_step s recording now delay action) h = ground arith
  Step-IsConsistent (message_time_step s resume at_ns mode topic e) h = ground arith
  Step-IsConsistent (message_time_step s split at_ns mode topic e) h = ground arith
  Step-IsConsistent (message_time_step s recording at_ns mode topic e) h = ground arith
  Step-IsConsistent (timer_step s resume e) h = ground arith
  Step-IsConsistent (timer_step s split e) h = ground arith
  Step-IsConsistent (timer_step s recording e) h = ground arith
  Step-IsConsistent (message_step s arrival) h =
      ground (arith, take_locked-IsConsistent arrival s h)
  Step-IsConsistent (clear_step s) h = ground arith

  -- After any calls and timers, a timer will go off exactly for the schedules on the node's clock, each
  -- schedule stands in the slot of its kind, and the flag by which take_due returns without the lock
  -- says exactly whether a message can fire a resume or a split.
  pub Reached-IsConsistent : {s : Scheduler Action} → Reached s → IsConsistent s
  Reached-IsConsistent at_first = record {
    resume_kept = (refl, tt);
    split_kept = (refl, tt);
    record_kept = (refl, tt);
    flag_exact = refl;
  }
  Reached-IsConsistent (after r step) = Step-IsConsistent step (Reached-IsConsistent r)
