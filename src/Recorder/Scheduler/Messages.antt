-- ===== src/Recorder/Scheduler/Messages.antt =====
-- The messages that fire a schedule of packages/rosbag2_dynamic_recorder/src/scheduler.cpp: take_due is
-- called for each recorded message.
use mathlib.Core.Path.{fun_ext}
use rosbag2_dynamic_recorder.Base.{
  ◌≡◌, refl, sym, ap, ap₂, ◌∙◌, String, Bool, true, false, not, ◌&&◌, Option, none, some, List, [],
  ◌∷◌, map, if◌then◌else◌, arith, inl, inr, Bool-cases,
}
use rosbag2_dynamic_recorder.Base.Int.{ℤ}
use rosbag2_dynamic_recorder.Recorder.Scheduler.{
  Kind, resume, split, Mode, Scheduled, Due, Scheduler, Arrival, is_node_time, fires_on_messages,
  is_due, is_tracked, is_zero, leb_ℤ, stamp_by, take_locked, take_due, schedule_at_message_time,
}
use rosbag2_dynamic_recorder.Recorder.Scheduler.Consistent.{
  message_time_step, Reached, after, message_step, Reached-IsConsistent,
}

-- A message on a tracked topic whose stamp on the schedule's clock was supplied and is not before the
-- scheduled time.
abbrev pub reaches : ℤ → Mode → String → Arrival → Bool
reaches at_ns mode tracking_topic (topic, send_ns, recv_ns) =
    is_tracked tracking_topic topic
    && (not (is_zero (stamp_by mode send_ns recv_ns))
        && leb_ℤ at_ns (stamp_by mode send_ns recv_ns))

-- Only the first `true` of a list.
abbrev pub first_only : List Bool → List Bool
first_only [] = []
first_only (true ∷ bs) = true ∷ map (λ b. false) bs
first_only (false ∷ bs) = false ∷ first_only bs

-- Where no message fires a schedule, the flag is the only difference.
not_due :
    (scheduled : Option Scheduled) (topic : String) (send_ns recv_ns : ℤ)
    → fires_on_messages scheduled ≡ false
    → is_due scheduled topic send_ns recv_ns ≡ false
unfolding is_due
not_due none topic send_ns recv_ns h = refl
not_due (some scheduled) topic send_ns recv_ns h = ground arith

falses :
    {A : Type 0} (f : A → Bool) (xs : List A) → map (λ x. false) xs ≡ map (λ b. false) (map f xs)
falses f [] = refl
falses f (x ∷ xs) = ap (◌∷◌ false) (falses f xs)

-- What a slot's schedule makes of a message, and what is left of it.
due_to : Option Scheduled → Arrival → Bool
unfolding is_due
due_to scheduled (topic, send_ns, recv_ns) = is_due scheduled topic send_ns recv_ns

left_by : Option Scheduled → Arrival → Option Scheduled
unfolding due_to
left_by scheduled arrival = if due_to scheduled arrival then none else scheduled

expected : Option Scheduled → List Arrival → List Bool
unfolding due_to
expected none arrivals = map (λ arrival. false) arrivals
expected (some scheduled) arrivals = first_only (map (due_to (some scheduled)) arrivals)

expected-◌∷◌ :
    (scheduled : Option Scheduled) (arrival : Arrival) (arrivals : List Arrival)
    → due_to scheduled arrival ∷ expected (left_by scheduled arrival) arrivals
      ≡ expected scheduled (arrival ∷ arrivals)
unfolding expected left_by
expected-◌∷◌ none arrival arrivals = refl
expected-◌∷◌ (some scheduled) arrival arrivals =
    elim (Bool-cases (due_to (some scheduled) arrival)) [
      | inl due ↦ rw due (ap (◌∷◌ true) (falses (due_to (some scheduled)) arrivals))
      | inr early ↦ rw early refl
    ]

nothing_expected : (scheduled : Option Scheduled) → expected scheduled [] ≡ []
unfolding expected
nothing_expected none = refl
nothing_expected (some scheduled) = refl

due_to-reaches :
    (kind : Kind) (at_ns : ℤ) (mode : Mode) (tracking_topic : String)
    → is_node_time mode ≡ false
    → (arrival : Arrival)
    → due_to
        (some (record { kind = kind; at_ns = at_ns; mode = mode; tracking_topic = tracking_topic }))
        arrival
      ≡ reaches at_ns mode tracking_topic arrival
unfolding due_to
due_to-reaches kind at_ns mode tracking_topic h (topic, send_ns, recv_ns) = rw h (ground arith)

expected-reaches :
    (kind : Kind) (at_ns : ℤ) (mode : Mode) (tracking_topic : String)
    → is_node_time mode ≡ false
    → (arrivals : List Arrival)
    → expected
        (some (record { kind = kind; at_ns = at_ns; mode = mode; tracking_topic = tracking_topic }))
        arrivals
      ≡ first_only (map (reaches at_ns mode tracking_topic) arrivals)
unfolding expected
expected-reaches kind at_ns mode tracking_topic h arrivals =
    ap (λ f. first_only (map f arrivals))
      (fun_ext (due_to-reaches kind at_ns mode tracking_topic h))

module _ {Action : Type 0} where
  -- What take_due answers for messages, one after the other.
  unfoldable pub dues : List Arrival → Scheduler Action → List Due
  unfolding take_due
  dues [] s = []
  dues (arrival ∷ arrivals) s = (take_due arrival s).1 ∷ dues arrivals (take_due arrival s).0

  -- In any state that calls and timers lead to, take_due does under its shortcut what it does under the
  -- lock.
  pub take_due-take_locked :
      (arrival : Arrival) {s : Scheduler Action}
      → Reached s
      → take_due arrival s ≡ take_locked arrival s
  unfolding take_due take_locked
  take_due-take_locked (topic, send_ns, recv_ns) {s} r =
      let h = Reached-IsConsistent r in
      ground (
        arith,
        h.flag_exact,
        not_due s.resume_slot.scheduled topic send_ns recv_ns,
        not_due s.split_slot.scheduled topic send_ns recv_ns,
      )

  -- What a message does to the schedules of a resume and of a split.
  taken_resume :
      (arrival : Arrival) {s : Scheduler Action}
      → Reached s
      → ((take_due arrival s).1.resumes ≡ due_to s.resume_slot.scheduled arrival)
        × ((take_due arrival s).0.resume_slot.scheduled ≡ left_by s.resume_slot.scheduled arrival)
  unfolding take_locked left_by
  taken_resume arrival {s} r = rw (take_due-take_locked arrival r) (refl, ground arith)

  taken_split :
      (arrival : Arrival) {s : Scheduler Action}
      → Reached s
      → ((take_due arrival s).1.splits ≡ due_to s.split_slot.scheduled arrival)
        × ((take_due arrival s).0.split_slot.scheduled ≡ left_by s.split_slot.scheduled arrival)
  unfolding take_locked left_by
  taken_split arrival {s} r = rw (take_due-take_locked arrival r) (refl, ground arith)

  resumes-dues :
      (arrivals : List Arrival) {s : Scheduler Action}
      → Reached s
      → map (λ d. d.resumes) (dues arrivals s) ≡ expected s.resume_slot.scheduled arrivals
  unfolding dues
  resumes-dues [] {s} r = sym (nothing_expected s.resume_slot.scheduled)
  resumes-dues (arrival ∷ arrivals) {s} r =
      let (due, rest) = taken_resume arrival r in
      ap₂ (λ b bs. b ∷ bs) due
        (resumes-dues arrivals (after r (message_step s arrival))
          ∙ ap (λ m. expected m arrivals) rest)
      ∙ expected-◌∷◌ s.resume_slot.scheduled arrival arrivals

  splits-dues :
      (arrivals : List Arrival) {s : Scheduler Action}
      → Reached s
      → map (λ d. d.splits) (dues arrivals s) ≡ expected s.split_slot.scheduled arrivals
  unfolding dues
  splits-dues [] {s} r = sym (nothing_expected s.split_slot.scheduled)
  splits-dues (arrival ∷ arrivals) {s} r =
      let (due, rest) = taken_split arrival r in
      ap₂ (λ b bs. b ∷ bs) due
        (splits-dues arrivals (after r (message_step s arrival))
          ∙ ap (λ m. expected m arrivals) rest)
      ∙ expected-◌∷◌ s.split_slot.scheduled arrival arrivals

  -- A resume that is scheduled by the stamps of messages is fired by the first message that reaches it,
  -- and by no other; so is a split. This holds whatever else is scheduled or was before.
  pub dues-schedule_at_message_time :
      (at_ns : ℤ) (mode : Mode) (tracking_topic : String) (arrivals : List Arrival)
      {s : Scheduler Action}
      → Reached s
      → is_node_time mode ≡ false
      → (map
            (λ d. d.resumes)
            (dues arrivals (schedule_at_message_time resume at_ns mode tracking_topic s))
          ≡ first_only (map (reaches at_ns mode tracking_topic) arrivals))
        × (map
              (λ d. d.splits)
              (dues arrivals (schedule_at_message_time split at_ns mode tracking_topic s))
            ≡ first_only (map (reaches at_ns mode tracking_topic) arrivals))
  unfolding schedule_at_message_time
  dues-schedule_at_message_time at_ns mode tracking_topic arrivals {s} r h = (
    resumes-dues arrivals (after r (message_time_step s resume at_ns mode tracking_topic h))
        ∙ expected-reaches resume at_ns mode tracking_topic h arrivals,
    splits-dues arrivals (after r (message_time_step s split at_ns mode tracking_topic h))
        ∙ expected-reaches split at_ns mode tracking_topic h arrivals,
  )
