-- ===== src/Cli/Verbs.antt =====
-- The verbs of packages/rosbag2_dynamic_recorder_cli/rosbag2_dynamic_recorder_cli/verb that talk to a
-- recorder: what `run` calls and prints. `--json` is Python's json, so status has the text block only. A
-- `print` of a text with line breaks is a line for each of its lines.
pub mod Sent
use rosbag2_dynamic_recorder.Base.{
  ℕ, String, Bool, true, false, Option, none, some, List, [], ◌∷◌, ◌++◌, map, is_empty, str_eq,
  if◌then◌else◌,
}
use rosbag2_dynamic_recorder.Base.Int.{ℤ, pos, ◌+ℤ◌, pos_part, neg_part, sub_ℕ}
use rosbag2_dynamic_recorder.Base.Seconds.{Seconds, add_seconds, scale}
use rosbag2_dynamic_recorder.Base.Text.{append, is_blank}
use rosbag2_dynamic_recorder.Errors.{Error, Result, ok, err}
use rosbag2_dynamic_recorder.Results.Change.{TopicChange}
use rosbag2_dynamic_recorder.Results.Profiles.{Profiles, Profiled, profile_names}
use rosbag2_dynamic_recorder.Results.Status.{Status}
use rosbag2_dynamic_recorder.Schedule.{seconds_of, Mode, word, Stamp, At}
use rosbag2_dynamic_recorder.Topics.{Values}
use rosbag2_dynamic_recorder.Client.Call.{Request, Reply, World}
use rosbag2_dynamic_recorder.Client.Run.{
  Op, Value, told, configured, names, flag, changed, scheduled, done, run,
}
use rosbag2_dynamic_recorder.Cli.{no_change, Group, report_change, print_change, Complaint, finish}
use rosbag2_dynamic_recorder.Cli.Format.{format_scheduled}
use rosbag2_dynamic_recorder.Cli.Listing.{format_status}

-- A verb with its arguments: the method that its `run` calls, and what it prints when the method has
-- returned or raised.
pub record Verb : Type 0 where
  pub op : Op
  pub says : Result Value → List String

abbrev pub as_change : Result Value → Result TopicChange
as_change (ok (changed change)) = ok change
as_change (ok _) = ok no_change
as_change (err e) = err e

-- A `run` that is a call of report_change, and one that prints what a value gives.
abbrev pub reporting : Op → List Group → Option String → Verb
unfolding report_change
reporting op groups empty = record {
  op = op;
  says = λ result. (report_change (as_change result) groups empty).0;
}

abbrev pub lines_of : (Value → List String) → Result Value → List String
lines_of lines (ok value) = lines value
lines_of lines (err e) = []

abbrev pub printing : Op → (Value → List String) → Verb
printing op lines = record { op = op; says = lines_of lines }

unfoldable pub add_verb : Values → String → String → Verb
unfolding reporting
add_verb ts regex exclude_regex =
    reporting (Op.add ts regex exclude_regex)
      (("now recording", λ change. change.subscribed)
        ∷ ("unavailable", λ change. change.unavailable)
        ∷ [])
      none

unfoldable pub remove_verb : Values → String → String → Verb
unfolding reporting
remove_verb ts regex exclude_regex =
    reporting (Op.remove ts regex exclude_regex)
      (("no longer recording", λ change. change.unsubscribed)
        ∷ ("was not being recorded", λ change. change.not_subscribed)
        ∷ [])
      none

unfoldable pub set_verb : Values → String → String → Verb
unfolding reporting
set_verb ts regex exclude_regex =
    reporting (Op.set_topics ts regex exclude_regex)
      (("now recording", λ change. change.subscribed)
        ∷ ("no longer recording", λ change. change.unsubscribed)
        ∷ ("unavailable", λ change. change.unavailable)
        ∷ [])
      (some "recording nothing")

unfoldable pub profile_verb : String → Verb
unfolding reporting
profile_verb name =
    reporting (Op.profile name)
      (("now recording", λ change. change.subscribed)
        ∷ ("no longer recording", λ change. change.unsubscribed)
        ∷ ("unavailable", λ change. change.unavailable)
        ∷ [])
      none

unfoldable pub pause_verb : Verb
pause_verb =
    printing Op.pause
      (λ value. "paused; subscriptions stay up, arriving messages are discarded" ∷ [])

unfoldable pub snapshot_verb : Verb
snapshot_verb = printing Op.snapshot (λ value. "snapshot written" ∷ [])

unfoldable pub stop_verb : Verb
stop_verb = printing Op.stop (λ value. "stopped; the bag is closed" ∷ [])

abbrev pub toggle_lines : Value → List String
toggle_lines (flag paused) = (if paused then "paused" else "recording") ∷ []
toggle_lines _ = []

unfoldable pub toggle_verb : Verb
toggle_verb = printing Op.toggle toggle_lines

abbrev pub topic_lines : Value → List String
topic_lines (names ts) = ts
topic_lines _ = []

unfoldable pub topics_verb : Verb
topics_verb = printing Op.topics topic_lines

abbrev pub profile_lines : String → Profiled → List String
unfolding append
profile_lines active [] = []
profile_lines active ((name, ts) ∷ ps) =
    append (if str_eq name active then "* " else "  ") name ∷ map (append "    ") ts
    ++ profile_lines active ps

unfoldable pub print_profiles : Bool → Profiles → List String
unfolding profile_lines
print_profiles true ps = profile_names ps
print_profiles false ps =
    if is_empty ps.profiles
    then "no profiles configured (declare them with the profile_names parameter)" ∷ []
    else profile_lines ps.active ps.profiles
      ++ (if is_blank ps.active
          then "" ∷ "No profile matches what is being recorded right now." ∷ []
          else [])

abbrev pub profiles_lines : Bool → Value → List String
unfolding print_profiles
profiles_lines only_names (configured ps) = print_profiles only_names ps
profiles_lines only_names _ = []

unfoldable pub profiles_verb : Bool → Verb
unfolding profiles_lines
profiles_verb only_names = printing Op.profiles (profiles_lines only_names)

module _ (general date_text : Seconds → String) where
  abbrev pub status_lines : Value → List String
  unfolding format_status
  status_lines (told status) = format_status general date_text status
  status_lines _ = []

  unfoldable pub status_verb : Verb
  unfolding status_lines
  status_verb = printing Op.status status_lines

-- `at - time.time()`, of the time that was returned.
unfoldable pub time_left : Seconds → Option Stamp → Option Seconds
unfolding add_seconds seconds_of
time_left now none = none
time_left now (some stamp) = some (
    add_seconds (seconds_of stamp)
      (record { num = sub_ℕ (neg_part now.num) (pos_part now.num); den = now.den }))

-- What is printed of a schedule; `now` is the machine's clock when the method has returned.
abbrev pub scheduled_lines : Seconds → String → String → String → Value → List String
unfolding format_scheduled time_left
scheduled_lines now text noun mode (scheduled stamp) =
    format_scheduled text noun (time_left now stamp) mode ∷ []
scheduled_lines now text noun mode _ = []

unfoldable pub resume_verb : Seconds → At → String → String → Verb
unfolding scheduled_lines
resume_verb now at_time mode topic =
    printing (Op.resume at_time (word mode) topic) (scheduled_lines now "recording" "resume" mode)

unfoldable pub split_verb : Seconds → At → String → String → Verb
unfolding scheduled_lines
split_verb now at_time mode topic =
    printing (Op.split at_time (word mode) topic) (scheduled_lines now "split" "split" mode)

unfoldable pub record_verb : Seconds → String → At → Verb
unfolding scheduled_lines
record_verb now uri at_time =
    printing (Op.record_bag uri at_time) (scheduled_lines now "recording" "recording" "")

-- A command line: the name of a verb, and its arguments as they have been read.
pub data Line : Type 0 where
  add_line remove_line set_line : Values → String → String → Line
  profile_line : String → Line
  pause_line snapshot_line stop_line toggle_line topics_line status_line : Line
  profiles_line : Bool → Line
  resume_line split_line : At → String → String → Line
  record_line : String → At → Line

-- The verb of each name. `now` is the machine's clock when the method has returned.
unfoldable pub verb_of : (general date_text : Seconds → String) → Seconds → Line → Verb
unfolding add_verb remove_verb set_verb profile_verb pause_verb snapshot_verb stop_verb toggle_verb
    topics_verb profiles_verb status_verb resume_verb split_verb record_verb
verb_of general date_text now (add_line ts r e) = add_verb ts r e
verb_of general date_text now (remove_line ts r e) = remove_verb ts r e
verb_of general date_text now (set_line ts r e) = set_verb ts r e
verb_of general date_text now (profile_line name) = profile_verb name
verb_of general date_text now pause_line = pause_verb
verb_of general date_text now snapshot_line = snapshot_verb
verb_of general date_text now stop_line = stop_verb
verb_of general date_text now toggle_line = toggle_verb
verb_of general date_text now topics_line = topics_verb
verb_of general date_text now status_line = status_verb general date_text
verb_of general date_text now (profiles_line only_names) = profiles_verb only_names
verb_of general date_text now (resume_line at_time mode topic) = resume_verb now at_time mode topic
verb_of general date_text now (split_line at_time mode topic) = split_verb now at_time mode topic
verb_of general date_text now (record_line uri at_time) = record_verb now uri at_time

abbrev pub ended : Result Value → Result (Unit {0})
ended (ok value) = ok tt
ended (err e) = err e

module _ {Server : Type 0} (serve : String → Request → Server → Reply × Server) where
  -- The `main` of a verb: what it prints, its exit code and complaints, and the world afterwards, given
  -- how the connecting ended.
  unfoldable pub command :
      Result String → Verb → World Server → List String × Result (ℕ × List Complaint) × World Server
  unfolding run finish
  command (err e) verb w = ([], finish (err e), w)
  command (ok name) verb w =
      let (result, w') = run serve verb.op (record w { name = name }) in
      (verb.says result, finish (ended result), w')
