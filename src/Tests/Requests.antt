-- ===== src/Tests/Requests.antt =====
-- Runs of packages/dynrec/dynrec/client.py against a small recorder.
use rosbag2_dynamic_recorder.Base.{◌≡◌, ◌∷◌, refl, String, Bool, true, false, not, []}
use rosbag2_dynamic_recorder.Base.Text.{append}
use rosbag2_dynamic_recorder.Errors.{err, invalid_request, nothing_selected, Response, ok}
use rosbag2_dynamic_recorder.Tests.Responses.{blank}
use rosbag2_dynamic_recorder.Client.Call.{
  call, Request, Reply, reply, no_reply, World, is_paused, toggle_paused,
}
use rosbag2_dynamic_recorder.Client.Run.{requests_of, Op, add, run, toggle, flag}
use rosbag2_dynamic_recorder.Topics.{several, parse_topic_specs, require_a_selection}
use rosbag2_dynamic_recorder.Client.Cache.{IsCached, run-IsCached}
use rosbag2_dynamic_recorder.Client.Refused.{IsUntouched}
use rosbag2_dynamic_recorder.Client.Refused.Run.{IsUntouched-run}
use rosbag2_dynamic_recorder.Client.Accepted.{Accepts}
use rosbag2_dynamic_recorder.Client.Accepted.Run.{Accepts-run}

abbrev pub plain : Bool → Response
plain paused = record blank { success = true; paused = paused }

-- A recorder that keeps whether it is paused, and answers nothing but two services.
abbrev pub serve_paused : String → Request → Bool → Reply × Bool
serve_paused service is_paused paused = (reply (plain paused), paused)
serve_paused service toggle_paused paused = (reply (plain (not paused)), not paused)
serve_paused service _ paused = (no_reply, paused)

abbrev pub start : World Bool
start = record { name = "/r"; clients = []; created = 0; log = []; server = false }

toggle-start : (run serve_paused toggle start).0 ≡ ok (flag true)
unfolding run call append
toggle-start = refl

Accepts-run_example :
    Accepts 2 (is_paused ∷ toggle_paused ∷ []) start (run serve_paused toggle start)
unfolding requests_of
Accepts-run_example = Accepts-run serve_paused toggle start

-- No topics and no pattern: nothing is sent.
abbrev add_nothing : Op
add_nothing = add (several []) "" ""

add_nothing-start :
    run serve_paused add_nothing start ≡ (err (invalid_request nothing_selected), start)
unfolding run parse_topic_specs require_a_selection
add_nothing-start = refl

IsUntouched-run_example : IsUntouched start (run serve_paused add_nothing start)
IsUntouched-run_example = IsUntouched-run serve_paused add_nothing start

start-IsCached : IsCached start
start-IsCached = (refl, tt)

run-IsCached_example : IsCached (run serve_paused toggle start).1
run-IsCached_example = run-IsCached serve_paused toggle start start-IsCached
