-- ===== src/Cli.antt =====
-- packages/rosbag2_dynamic_recorder_cli/rosbag2_dynamic_recorder_cli: the command line. This file has
-- report_change, _print_change and with_recorder of api.py, groups, losses and the state of format.py, and
-- the exit code of verb/info.py. What is printed is the list of its lines.
pub mod Exit
pub mod Format
pub mod Listing
pub mod Verbs
use rosbag2_dynamic_recorder.Base.{
  ℕ, String, Bool, true, false, not, Option, none, some, List, [], ◌∷◌, ◌++◌, map, length, is_empty,
  if◌then◌else◌,
}
use rosbag2_dynamic_recorder.Base.Text.{append, is_blank, str}
use rosbag2_dynamic_recorder.Errors.{
  Error, ambiguous_recorder, call_failed, snapshot_failed, fault, Result, ok, err, ◌>>=◌,
}
use rosbag2_dynamic_recorder.Results.Change.{TopicChange, change_from_msg}
use rosbag2_dynamic_recorder.Results.Status.{Status, TopicLoss}
use rosbag2_dynamic_recorder.Client.Connect.{join}
use rosbag2_dynamic_recorder.Bag.Report.{BagSummary}

abbrev pub exit_ok : ℕ
exit_ok = 0

abbrev pub exit_error : ℕ
exit_error = 1

abbrev pub exit_unexplained_gaps : ℕ
exit_unexplained_gaps = 2

unfoldable pub format_topic_group : String → List String → List String
format_topic_group label topics =
    if is_empty topics
    then []
    else append label (append " (" (append (str (length topics)) "):"))
      ∷ map (λ topic. append "  " topic) topics

-- A label and the field of the change that it names.
abbrev pub Group : Type 0
Group = String × (TopicChange → List String)

abbrev pub group_lines : TopicChange → List Group → List String
group_lines change [] = []
group_lines change ((label, field) ∷ groups) =
    format_topic_group label (field change) ++ group_lines change groups

-- `'\n'.join(lines) or empty`, printed unless both are empty.
abbrev pub lines_or : List String → Option String → List String
lines_or [] none = []
lines_or [] (some text) = if is_blank text then [] else text ∷ []
lines_or (line ∷ lines) empty = line ∷ lines

unfoldable pub print_change : TopicChange → List Group → Option String → List String
unfolding format_topic_group
print_change change groups empty = lines_or (group_lines change groups) empty

abbrev pub no_change : TopicChange
no_change = record { subscribed = []; unsubscribed = []; unavailable = []; not_subscribed = [] }

-- What is printed, and the exception that is passed on.
unfoldable pub report_change :
    Result TopicChange → List Group → Option String → List String × Result (Unit {0})
unfolding print_change
report_change (ok change) groups empty = (print_change change groups empty, ok tt)
report_change (err (call_failed code detail response)) groups empty =
    (print_change (change_from_msg response) groups empty, err (call_failed code detail response))
report_change (err snapshot_failed) groups empty =
    (print_change no_change groups empty, err snapshot_failed)
report_change (err e) groups empty = ([], err e)

-- What goes to stderr: the question which recorder is meant, or the text of the exception.
pub data Complaint : Type 0 where
  pick_one : String → Complaint
  text_of : Error → Complaint

unfoldable pub ambiguous_message : List String → String
unfolding append
ambiguous_message recorders =
    append "several recorders are running; pick one with --node:\n  " (join "\n  " recorders)

abbrev pub complaint : Error → Complaint
unfolding ambiguous_message
complaint (ambiguous_recorder recorders) = pick_one (ambiguous_message recorders)
complaint e = text_of e

-- The `try` catches what is a DynrecError.
unfoldable pub finish : Result (Unit {0}) → Result (ℕ × List Complaint)
unfolding complaint
finish (ok done) = ok (exit_ok, [])
finish (err (fault f)) = err (fault f)
finish (err e) = ok (exit_error, complaint e ∷ [])

-- The exit code, and stderr. Connecting can fail as well as the body, and both stand in one `try`.
unfoldable pub with_recorder :
    {Recorder : Type 0}
    → Result Recorder
    → (Recorder → Result (Unit {0}))
    → Result (ℕ × List Complaint)
unfolding finish
with_recorder connected body = finish (connected >>= body)

-- The exit code of `info`: whether dynrec can be imported, whether the path is a directory, and what
-- describe returns, none for an exception.
unfoldable pub info_main : Bool → Bool → Option BagSummary → ℕ
info_main false is_dir summary = exit_error
info_main true false summary = exit_error
info_main true true none = exit_error
info_main true true (some summary) =
    if not (is_empty summary.unexplained_gaps) then exit_unexplained_gaps else exit_ok

-- `format_topic_loss`
unfoldable pub format_topic_loss : TopicLoss → String
unfolding append
format_topic_loss loss = append loss.topic (
    append ": missed " (
      append (elim loss.missed [ none ↦ "unknown" | some missed ↦ str missed ])
        (append ", lost " (
          append (str loss.lost_in_transport)
            (append " in transport, " (append (str loss.lost_in_recorder) " in recorder"))))))

module _ {Float : Type 0} where
  unfoldable pub state_word : Status Float → String
  unfolding append
  state_word status =
      if not status.recording
      then if status.waiting_for_clock
        then "waiting for /clock (use_sim_time is set; no bag is open until it arrives)"
        else if status.stopped_for_low_disk
        then "stopped (free space on the bag filesystem fell below the minimum)"
        else if status.stopped_for_max_bag_size
        then "stopped (the bag reached max_bag_size)"
        else "stopped"
      else append (if status.paused then "paused" else "recording") (
          if status.snapshot_mode
          then " (snapshot mode: nothing is written until ~/snapshot)"
          else "")
