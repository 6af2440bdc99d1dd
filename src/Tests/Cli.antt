-- ===== src/Tests/Cli.antt =====
-- Runs of the command line and of the page server.
use rosbag2_dynamic_recorder.Base.{ℕ, ◌≡◌, refl, String, true, none, some, List, [], ◌∷◌}
use rosbag2_dynamic_recorder.Base.Text.{append, str}
use rosbag2_dynamic_recorder.Base.Sort.{sorted_by}
use rosbag2_dynamic_recorder.Errors.{Response, recorder_not_found, Result, ok, err}
use rosbag2_dynamic_recorder.Tests.Responses.{blank}
use rosbag2_dynamic_recorder.Results.Change.{change_from_msg}
use rosbag2_dynamic_recorder.Bag.Report.{BagSummary}
use rosbag2_dynamic_recorder.Cli.{Group, print_change, info_main}
use rosbag2_dynamic_recorder.Ui.{available_topics}

abbrev refused : Response
refused = record blank {
  return_code = some 3;
  error_string = some "no such topic";
  unavailable_topics = some ("/camera" ∷ []);
}

abbrev groups : List Group
groups = ("unavailable", λ change. change.unavailable) ∷ []

print_change-refused :
    print_change (change_from_msg refused) groups none ≡ "unavailable (1):" ∷ "  /camera" ∷ []
unfolding print_change change_from_msg append str
print_change-refused = refl

abbrev report : BagSummary
report = record {
  uri = "bag";
  start = 0;
  end = 9;
  channels = [];
  pause_windows = [];
  events = [];
  unexplained_gaps = (2, 4) ∷ [];
  low_disk_stop = none;
  bag_size_limit_stop = none;
  warnings = [];
}

info_main-gaps : info_main true true (some report) ≡ 2
unfolding info_main
info_main-gaps = refl

abbrev lost : Result ℕ
lost = err recorder_not_found

abbrev nothing_more : ℕ → Result (Unit {0})
nothing_more recorder = ok tt

abbrev graph : List (String × List String)
graph = ("/scan", []) ∷ ("/rosout", []) ∷ ("/r/status", []) ∷ ("/camera", []) ∷ []

available_topics-graph : available_topics "/r" graph ≡ "/camera" ∷ "/scan" ∷ []
unfolding available_topics sorted_by
available_topics-graph = refl

abbrev arrived : List ℕ
arrived = 3 ∷ 1 ∷ 4 ∷ []
