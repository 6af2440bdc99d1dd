-- ===== src/Tests/Terminal.antt =====
-- Runs of packages/rosbag2_dynamic_recorder_cli/rosbag2_dynamic_recorder_cli: format.py and the verbs.
use rosbag2_dynamic_recorder.Base.{String, ◌/◌, ◌≡◌, refl, [], ◌∷◌, arith}
use rosbag2_dynamic_recorder.Base.Int.{pos}
use rosbag2_dynamic_recorder.Base.Seconds.{Seconds, whole, round}
use rosbag2_dynamic_recorder.Base.Text.{append}
use rosbag2_dynamic_recorder.Errors.{ok}
use rosbag2_dynamic_recorder.Client.Call.{call}
use rosbag2_dynamic_recorder.Cli.Format.{format_duration, format_bytes}
use rosbag2_dynamic_recorder.Cli.Format.Duration.{read_duration, format_duration-read}
use rosbag2_dynamic_recorder.Cli.Listing.{format_row}
use rosbag2_dynamic_recorder.Cli.Verbs.{toggle_verb, toggle_line, verb_of, command}
use rosbag2_dynamic_recorder.Cli.Verbs.Sent.{Grew, sends, command-ok}
use rosbag2_dynamic_recorder.Tests.Requests.{serve_paused, start}

format_duration-long : format_duration (whole 3725) ≡ "1h 02m 05s"
unfolding format_duration
format_duration-long = refl

format_duration-short : format_duration (record { num = pos 309; den = 20 }) ≡ "15.4s"
unfolding format_duration round
format_duration-short = refl

format_duration-read_example :
    read_duration 0 0 (format_duration (record { num = pos 7451; den = 2 })) ≡ 7451 / 2
format_duration-read_example = format_duration-read 7451 2 (omega arith)

format_bytes-kibibytes : format_bytes 1536 ≡ "1.5 KiB"
unfolding format_bytes round
format_bytes-kibibytes = refl

-- A label as long as this one leaves no gap before its value.
format_row-long : format_row "lost (transport)" "0" ≡ "lost (transport):0"
unfolding format_row
format_row-long = refl

abbrev unformatted : Seconds → String
unformatted seconds = ""

abbrev zero_seconds : Seconds
zero_seconds = whole 0

toggle-ok :
    (command serve_paused
      (ok "/r")
      (verb_of unformatted unformatted zero_seconds toggle_line)
      start).1
    ≡ ok (0, [])
unfolding command verb_of call append
toggle-ok = refl

toggle-says : (command serve_paused (ok "/r") toggle_verb start).0 ≡ "paused" ∷ []
unfolding command toggle_verb call append
toggle-says = refl

command-ok_example :
    (name : String) × (ok "/r" ≡ ok name)
    × Grew
        (sends toggle_line)
        start
        (command serve_paused
          (ok "/r")
          (verb_of unformatted unformatted zero_seconds toggle_line)
          start).2
command-ok_example =
    command-ok serve_paused unformatted unformatted zero_seconds (ok "/r") toggle_line start
      toggle-ok
