-- ===== src/Tests/Recorder.antt =====
-- Runs of packages/rosbag2_dynamic_recorder/src.
use rosbag2_dynamic_recorder.Base.{
  ℕ, ◌+◌, ◌%◌, ◌-◌, ◌≤◌, ◌≡◌, refl, String, Bool, true, false, not, ◌&&◌, ◌||◌, Option, none, some,
  List, [], ◌∷◌, map, arith, length, str_eq, if◌then◌else◌,
}
use rosbag2_dynamic_recorder.Base.Int.{pos}
use rosbag2_dynamic_recorder.Discovery.{contains}
use rosbag2_dynamic_recorder.Recorder.Scheduler.{
  recording, resume, split, publish_time, Scheduler, Arrival, new_scheduler, schedule_at_node_time,
  schedule_at_message_time, take_due, take_locked,
}
use rosbag2_dynamic_recorder.Recorder.Scheduler.Consistent.{
  IsConsistent, Reached-IsConsistent, node_time_step, message_time_step,
}
use rosbag2_dynamic_recorder.Recorder.Scheduler.Consistent
use rosbag2_dynamic_recorder.Recorder.Scheduler.Messages.{
  dues, first_only, reaches, take_due-take_locked, dues-schedule_at_message_time,
}
use rosbag2_dynamic_recorder.Recorder.Losses
use rosbag2_dynamic_recorder.Recorder.Losses.{
  word, LossAccounting, no_losses, note_transport_loss, loss_of, drain, assign, SequenceMap,
}
use rosbag2_dynamic_recorder.Recorder.Losses.Sums
use rosbag2_dynamic_recorder.Recorder.Losses.Sums.{IsBalanced, Reached-IsBalanced}
use rosbag2_dynamic_recorder.Recorder.Losses.Sequence.{note_all, last_after, missed-note_all}
use rosbag2_dynamic_recorder.Recorder.Selection.{select_topics, selected, Selection}
use rosbag2_dynamic_recorder.Recorder.Selection.Selected.{topics_of, finds, contains-select_topics}
use rosbag2_dynamic_recorder.Recorder.Storage.{Limits, Entry, other, file, bag_size, reset}
use rosbag2_dynamic_recorder.Recorder.Storage.Guarded
use rosbag2_dynamic_recorder.Recorder.Storage.Guarded.{size_at, bag_size-fresh}
use rosbag2_dynamic_recorder.Recorder.Writer.{
  Bag, closed_bag, open_bag, begin_close, finish, stage, write,
}
use rosbag2_dynamic_recorder.Recorder.Writer.Steps
use rosbag2_dynamic_recorder.Recorder.Writer.Steps.{Progress, nothing_yet}
use rosbag2_dynamic_recorder.Recorder.Writer.Kept.{IsOrdered, Reached-IsOrdered}

-- A start of a recording is due in 5 ns; then a resume is to follow the stamps of messages.
abbrev idle : Scheduler ℕ
unfolding schedule_at_node_time
idle = schedule_at_node_time recording (pos 10) 5 7 new_scheduler

idle-Reached : Consistent.Reached idle
unfolding idle schedule_at_node_time
idle-Reached =
    Consistent.after Consistent.at_first (node_time_step new_scheduler recording (pos 10) 5 7)

Reached-IsConsistent_example : IsConsistent idle
Reached-IsConsistent_example = Reached-IsConsistent idle-Reached

take_due-take_locked_example :
    take_due ("/camera", pos 3, pos 4) idle ≡ take_locked ("/camera", pos 3, pos 4) idle
take_due-take_locked_example = take_due-take_locked ("/camera", pos 3, pos 4) idle-Reached

-- Too early, on another topic, without a stamp, and twice in time.
abbrev arrivals : List Arrival
arrivals =
    ("/camera", pos 90, pos 95)
    ∷ ("/scan", pos 200, pos 201)
    ∷ ("/camera", pos 0, pos 300)
    ∷ ("/camera", pos 100, pos 301)
    ∷ ("/camera", pos 110, pos 302)
    ∷ []

dues-camera :
    map
      (λ d. d.resumes)
      (dues arrivals (schedule_at_message_time resume (pos 100) publish_time "/camera" idle))
    ≡ false ∷ false ∷ false ∷ true ∷ false ∷ []
unfolding dues schedule_at_message_time take_due idle schedule_at_node_time
dues-camera = refl

dues-schedule_at_message_time_example :
    (map
        (λ d. d.resumes)
        (dues arrivals (schedule_at_message_time resume (pos 100) publish_time "/camera" idle))
      ≡ first_only (map (reaches (pos 100) publish_time "/camera") arrivals))
    × (map
          (λ d. d.splits)
          (dues arrivals (schedule_at_message_time split (pos 100) publish_time "/camera" idle))
        ≡ first_only (map (reaches (pos 100) publish_time "/camera") arrivals))
dues-schedule_at_message_time_example =
    dues-schedule_at_message_time (pos 100) publish_time "/camera" arrivals idle-Reached refl

-- Three messages are lost on the way and reported, then two more.
abbrev lost : LossAccounting
unfolding note_transport_loss drain
lost = note_transport_loss "/scan" 2 (drain (note_transport_loss "/camera" 3 no_losses)).1

lost-Reached :
    Sums.Reached lost
      (loss_of "/scan" 2 0 0 ∷ loss_of "/camera" 3 0 0 ∷ [])
      (drain (note_transport_loss "/camera" 3 no_losses)).0
unfolding lost note_transport_loss drain
lost-Reached =
    Sums.transport_step "/scan" 2 (Sums.drain_step (Sums.transport_step "/camera" 3 Sums.at_first))

Reached-IsBalanced_example :
    IsBalanced lost
      (loss_of "/scan" 2 0 0 ∷ loss_of "/camera" 3 0 0 ∷ [])
      (drain (note_transport_loss "/camera" 3 no_losses)).0
Reached-IsBalanced_example = Reached-IsBalanced lost-Reached

abbrev seen : SequenceMap
seen = ("talker", 7) ∷ []

find-talker : Losses.find "talker" seen ≡ some 7
unfolding Losses.find
find-talker = refl

missed-note_all_example :
    (note_all seen "talker" (8 ∷ 12 ∷ []) "/camera" no_losses).1.totals.missed % word
    ≡ (0 + (last_after 7 (8 ∷ 12 ∷ []) - 7 - length {A = ℕ} (8 ∷ 12 ∷ []))) % word
missed-note_all_example =
    missed-note_all seen "talker" 7 (8 ∷ 12 ∷ []) "/camera" no_losses find-talker (omega arith)

-- An expression finds the topic that it is.
abbrev search : String → Option (String → Bool)
search regex = if str_eq regex "(" then none else some (str_eq regex)

abbrev chosen : Selection
chosen = ("/camera", "Image") ∷ ("/scan", "") ∷ []

chosen-selected :
    select_topics search
      ("/camera" ∷ "/tf" ∷ [])
      ("Image" ∷ "" ∷ [])
      "/scan"
      "/tf"
      ("/camera" ∷ "/scan" ∷ "/odom" ∷ [])
    ≡ selected chosen
unfolding select_topics
chosen-selected = refl

contains-select_topics_example : contains "/scan" (topics_of chosen) ≡ (
    (contains "/scan" ("/camera" ∷ "/tf" ∷ [])
      || finds search "/scan" "/scan" && contains "/scan" ("/camera" ∷ "/scan" ∷ "/odom" ∷ []))
    && not (finds search "/tf" "/scan"))
contains-select_topics_example =
    contains-select_topics search ("/camera" ∷ "/tf" ∷ []) ("Image" ∷ "" ∷ []) "/scan" "/tf"
      ("/camera" ∷ "/scan" ∷ "/odom" ∷ []) "/scan" chosen-selected

-- A bag that grows by a file of 100 bytes at each time.
abbrev percent : ℕ → ℕ → ℕ
percent bytes p = 0

abbrev limits : Limits ℕ
limits = record { min_free_space = 0; min_free_space_percent = 0; max_bag_size = 1000 }

abbrev dir : ℕ → Option (List Entry)
dir time = some (file (some (time + 100)) ∷ other ∷ [])

bag_size-fresh_example :
    (time : ℕ) × (5 ≤ time)
    × (time ≤ 7)
    × (6 ≤ time + 3)
    × ((bag_size 3 6 7 (dir 7) (reset (record { cached_bag_size = 9; cached_at = 2 }))).0
        ≡ size_at percent limits 3 dir time)
bag_size-fresh_example =
    bag_size-fresh percent limits 3 dir 6 7
      (Guarded.reset_step (record { cached_bag_size = 9; cached_at = 2 }) 5 (omega arith))
      (omega arith) (omega arith)

-- A message that saw the writer busy while the bag was closed is staged when the bag is closed, and goes
-- into the next one.
abbrev size : ℕ → ℕ
size message = 1

abbrev first_bag : Bag ℕ
first_bag = open_bag size 64 (closed_bag size 64)

abbrev next_bag : Bag ℕ
next_bag = write size 2 (open_bag size 64 (stage size 1 (finish size (begin_close size first_bag))))

next_bag-handed : next_bag.handed ≡ 1 ∷ 2 ∷ []
unfolding write open_bag stage finish begin_close
next_bag-handed = refl

next_progress : Progress size 64
next_progress = record { in_flight = none; stale = 1 ∷ []; kept = 2 ∷ [] }

next_bag-Reached : Steps.Reached size 64 next_bag next_progress
unfolding next_progress write open_bag stage finish begin_close
next_bag-Reached =
    Steps.write_step 2
      (Steps.open_step
        (Steps.stage_step 1
          (Steps.finish_step
            (Steps.wait_step 1
              (Steps.close_step (Steps.open_step Steps.at_first refl refl) refl refl) refl refl)
            refl)
          refl)
        refl refl)
      refl refl

Reached-IsOrdered_example : IsOrdered size 64 next_bag next_progress
Reached-IsOrdered_example = Reached-IsOrdered size 64 next_bag-Reached
