-- ===== src/Tests/Connect.antt =====
-- Runs of the connecting of packages/dynrec/dynrec/client.py on a clock that only sleep moves, and a
-- graph on which a recorder appears after a fifth of a second.
use rosbag2_dynamic_recorder.Base.{
  ℕ, ◌+◌, ◌≡◌, refl, String, none, some, List, [], ◌∷◌, ltb, arith, if◌then◌else◌,
}
use rosbag2_dynamic_recorder.Base.Int.{pos, pos_part}
use rosbag2_dynamic_recorder.Errors.{ok, err, recorder_not_found, Response}
use rosbag2_dynamic_recorder.Discovery.{Service, get_status_type, recorder_nodes, choose_recorder}
use rosbag2_dynamic_recorder.Client.Connect.{
  Surroundings, connect, poll_for_recorders, open_ros, unreachable_message,
}
use rosbag2_dynamic_recorder.Client.Connect.Polling.{
  IsClock, IsPolled, reading, poll_for_recorders-returns,
}
use rosbag2_dynamic_recorder.Client.Connect.Lifecycle.{shut}
use rosbag2_dynamic_recorder.Tests.Responses.{blank}

abbrev services_at : ℕ → List Service
services_at now = if ltb now 200_000_000 then [] else ("/r/get_status", get_status_type ∷ []) ∷ []

abbrev around : Surroundings ℕ
around = record {
  get_services = λ now. (services_at now, now);
  monotonic = λ now. (now, now);
  sleep = λ n now. now + n;
}

around-IsClock : IsClock around
around-IsClock = record {
  services_keep = λ o. omega arith;
  monotonic_keeps = λ o. omega arith;
  sleep_adds = λ n o. omega arith;
}

connect-late :
    connect around (pos 5_000_000_000) none 0
    ≡ some (record { discovered = "/r" ∷ []; chosen = ok "/r"; ros = open_ros })
unfolding connect recorder_nodes choose_recorder
connect-late = refl

connect-too_late :
    connect around (pos 100_000_000) none 0
    ≡ some (record { discovered = []; chosen = err recorder_not_found; ros = shut })
unfolding connect recorder_nodes choose_recorder
connect-too_late = refl

poll_for_recorders-returns_example :
    (discovered : List String) × (o' : ℕ) × (poll_for_recorders around
        (pos 300_000_000)
        (some "/s")
        0
      ≡ some (discovered, o'))
    × IsPolled around (reading around 0 + pos_part (pos 300_000_000)) (some "/s") discovered
poll_for_recorders-returns_example =
    poll_for_recorders-returns around (pos 300_000_000) (some "/s") 0 around-IsClock

unreachable_message-typo :
    unreachable_message "10" "/x/stop" "/x" ("/r" ∷ [])
    ≡ "/x/stop is not available after 10s. Recorders that are running: /r"
unfolding unreachable_message
unreachable_message-typo = refl

abbrev configured : Response
configured = record blank {
  profiles =
      record { name = "nav"; topics = "/scan" ∷ [] }
      ∷ record { name = "nav"; topics = "/odom" ∷ [] }
      ∷ [];
}
