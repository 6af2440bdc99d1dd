-- ===== src/Tests/Page.antt =====
-- Runs of packages/rosbag2_dynamic_recorder_ui/rosbag2_dynamic_recorder_ui/ui_node.py.
use mathlib.Core.List.{Perm}
use rosbag2_dynamic_recorder.Base.{
  ℕ, zero, suc, ◌≤◌, ◌≡◌, refl, String, Bool, false, not, none, some, List, [], ◌∷◌, str_eq, arith,
}
use rosbag2_dynamic_recorder.Base.Int.{pos}
use rosbag2_dynamic_recorder.Base.Seconds.{Seconds, round}
use rosbag2_dynamic_recorder.Base.Sort.{IsSorted}
use rosbag2_dynamic_recorder.Base.Text.{append}
use rosbag2_dynamic_recorder.Errors.{ok}
use rosbag2_dynamic_recorder.Results.Events.{from_pause_msg}
use rosbag2_dynamic_recorder.Results.Profiles.{Profiled, profiles_from_msg}
use rosbag2_dynamic_recorder.Results.Status.{Status, status_from_msg}
use rosbag2_dynamic_recorder.Schedule.{Timing, parse_mode, word}
use rosbag2_dynamic_recorder.Schedule.Time.{TimeArg, written, parse_time}
use rosbag2_dynamic_recorder.Client.Call.{Request, Reply, reply, no_reply, World, call}
use rosbag2_dynamic_recorder.Client.Operations.{profiles_op}
use rosbag2_dynamic_recorder.Ui.{keep_last, history_limit}
use rosbag2_dynamic_recorder.Ui.Actions.{
  Payload, accepted, is_now, recorder_now, call_action, or_else,
}
use rosbag2_dynamic_recorder.Ui.Actions.Sent.{IsAnswered, call_action-IsAnswered}
use rosbag2_dynamic_recorder.Ui.Actions.Scheduled.{call_action-resume}
use rosbag2_dynamic_recorder.Ui.State.{
  Arrival, status_at, event, nothing_yet, snapshot_state, event_le, PageState,
}
use rosbag2_dynamic_recorder.Ui.State.Shown.{take_all, events_of, snapshot_state-history}
use rosbag2_dynamic_recorder.Ui.Profiles.{
  fetch_profiles, after_attempts, waits, fetch_profiles-answered,
}
use rosbag2_dynamic_recorder.Tests.Responses.{blank, blank_status}
use rosbag2_dynamic_recorder.Tests.Times.{utc, one_fifteen}

-- A recorder that accepts everything from its third request on.
abbrev serve_third : String → Request → ℕ → Reply × ℕ
serve_third service request zero = (no_reply, 1)
serve_third service request (suc zero) = (no_reply, 2)
serve_third service request (suc (suc n)) = (reply blank, suc (suc (suc n)))

abbrev start : World ℕ
start = record { name = "/r"; clients = []; created = 0; log = []; server = 0 }

abbrev ready : World ℕ
ready = record { name = "/r"; clients = []; created = 0; log = []; server = 2 }

-- The recorder's clock is at the thousandth second, half a second ago.
abbrev status : Status Seconds
status = status_from_msg (record blank_status { stamp = record { sec = 1000; nanosec = 0 } }) "/r"

abbrev half : Seconds
half = record { num = pos 1; den = 2 }

abbrev payload : Payload
payload = record {
  topics = none;
  regex = none;
  exclude_regex = none;
  at_time = none;
  mode = none;
  topic = none;
  name = none;
  uri = none;
}

abbrev soon : TimeArg
soon = written "+30s"

soon-later : is_now (some soon) ≡ false
unfolding is_now
soon-later = refl

soon-parsed : parse_time utc (recorder_now status half) soon ≡ ok (pos 1030, pos 500000000)
unfolding parse_time recorder_now status_from_msg round
soon-parsed = refl

node-parsed : parse_mode (or_else (word "node") payload.mode) ≡ ok 0
unfolding parse_mode
node-parsed = refl

call_action-resume_example :
    let asked = record payload { at_time = some soon } in
    let timing : Timing = record {
      tracking_topic_name = or_else "" payload.topic;
      mode = 0;
      stamp = (pos 1030, pos 500000000);
    } in
    (answer : Reply) × ((call_action serve_third utc one_fifteen "resume" asked
        (some status)
        half
        ready).1.log
      ≡ (Request.resume timing, answer) ∷ ready.log)
call_action-resume_example =
    call_action-resume serve_third utc status half one_fifteen payload soon 1030 500000000 0 ready
      soon-later soon-parsed (omega arith) (omega arith) node-parsed

call_action-IsAnswered_example :
    IsAnswered ready (call_action serve_third utc one_fifteen "pause" payload none half ready)
call_action-IsAnswered_example =
    call_action-IsAnswered serve_third utc one_fifteen "pause" payload none half ready

call_action-pause :
    (call_action serve_third utc one_fifteen "pause" payload none half ready).0
    ≡ ok (accepted none none)
unfolding call_action call
call_action-pause = refl

abbrev paused_at : ℕ → Arrival
paused_at sec = event (
    from_pause_msg (record {
      stamp = record { sec = sec; nanosec = 0 };
      action = 0;
      reason = "";
      node_name = "/r";
      topic_name = "";
      topic_type = "";
      free_space_bytes = 0;
      total_space_bytes = 0;
      bag_size_bytes = 0;
      max_bag_size = 0;
      closed_file = "";
      opened_file = "";
    }))

abbrev arrivals : List Arrival
arrivals = paused_at 9 ∷ status_at status 4000000000 ∷ paused_at 3 ∷ []

snapshot_state-history_example :
    let state = snapshot_state 9000000001 [] (take_all arrivals (nothing_yet "/r")) in
    IsSorted event_le state.history
    × Perm state.history (keep_last history_limit (events_of arrivals))
snapshot_state-history_example = snapshot_state-history "/r" arrivals 9000000001 []

third-answered :
    (profiles_op serve_third (after_attempts serve_third 2 start)).0 ≡ ok (profiles_from_msg blank)
unfolding profiles_op call append
third-answered = refl

fetch_profiles-answered_example :
    ((profiles : Profiled) × ((fetch_profiles serve_third 3 false start).0 ≡ some profiles))
    × (waits serve_third (fetch_profiles serve_third 3 false start).1 ≤ 1)
fetch_profiles-answered_example =
    fetch_profiles-answered serve_third 2 start (profiles_from_msg blank) third-answered

abbrev state : PageState
state = snapshot_state 0 [] (nothing_yet "/r")

abbrev readable : String → Bool
readable name = not (str_eq name "app.js")
