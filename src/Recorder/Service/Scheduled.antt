-- ===== src/Recorder/Service/Scheduled.antt =====
-- A split that a client of packages/dynrec/dynrec asks for at a future time, from the call through the node of
-- packages/rosbag2_dynamic_recorder to the status that a client reads.
use rosbag2_dynamic_recorder.Base.{String, Option, none, some, List, [], ◌∷◌, keep, str_eq}
use rosbag2_dynamic_recorder.Results.Status
use rosbag2_dynamic_recorder.Results.Status.{ScheduledMsg, scheduled_from_msg, status_from_msg}
use rosbag2_dynamic_recorder.Client.Run
use rosbag2_dynamic_recorder.Recorder.Scheduler
use rosbag2_dynamic_recorder.Recorder.Scheduler.{Kind, Scheduled}
use rosbag2_dynamic_recorder.Recorder.Node.{Outside, Node}
use rosbag2_dynamic_recorder.Recorder.Requests.{schedule_message, build_status}

-- What a client reads of the schedules of a node's status.
abbrev pub read_schedules : Outside → String → Node → List Status.Scheduled
unfolding build_status status_from_msg
read_schedules outside name node = (status_from_msg (build_status outside node) name).schedules

abbrev pub of_action : String → List Status.Scheduled → List Status.Scheduled
of_action action schedules = keep (λ s. str_eq s.action action) schedules

-- One schedule, as it is read.
abbrev read_one : Scheduled → Status.Scheduled
unfolding scheduled_from_msg schedule_message
read_one entry = scheduled_from_msg (schedule_message entry)

-- What is scheduled, as a list.
abbrev listed : Option Scheduled → List Scheduled
listed none = []
listed (some entry) = entry ∷ []
