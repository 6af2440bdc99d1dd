-- ===== src/Tests/Launch.antt =====
-- Runs of packages/rosbag2_dynamic_recorder/launch/dynamic_recorder.launch.py.
use rosbag2_dynamic_recorder.Base.{
  ◌≡◌, refl, String, false, Option, some, [], ◌∷◌, str_eq, if◌then◌else◌,
}
use rosbag2_dynamic_recorder.Base.Int.{ℤ, pos}
use rosbag2_dynamic_recorder.Base.Seconds.{Seconds, whole}
use rosbag2_dynamic_recorder.Launch.{
  Parameters, text, texts, integer, flag, number, Literal, one, items, Readers, topic_list,
  recorder_parameters,
}

abbrev read_zero : String → Option ℤ
read_zero value = some (pos 0)

abbrev read_none : String → Option Seconds
read_none value = some (whole 0)

abbrev read_literal : String → Option Literal
read_literal value = if str_eq value "[]" then some (items []) else some (one value)

abbrev readers : Readers
readers = record { python_int = read_zero; python_float = read_none; literal_eval = read_literal }

-- Every argument has the value of its name, and `topics` the text "/scan".
abbrev value : String → String
value name = if str_eq name "topics" then " /scan " else name

abbrev parameters : Parameters
parameters =
    ("uri", text "uri")
    ∷ ("storage_id", text "storage_id")
    ∷ ("serialization_format", text "serialization_format")
    ∷ ("start_paused", flag false)
    ∷ ("use_sim_time", flag false)
    ∷ ("snapshot_mode", flag false)
    ∷ ("max_cache_size", integer (pos 0))
    ∷ ("max_cache_duration", integer (pos 0))
    ∷ ("max_bagfile_size", integer (pos 0))
    ∷ ("max_bagfile_duration", integer (pos 0))
    ∷ ("storage_preset_profile", text "storage_preset_profile")
    ∷ ("storage_config_uri", text "storage_config_uri")
    ∷ ("record_subscription_events", flag false)
    ∷ ("min_free_space", integer (pos 0))
    ∷ ("min_free_space_percent", number (whole 0))
    ∷ ("max_bag_size", integer (pos 0))
    ∷ ("messages_lost_report_period", number (whole 0))
    ∷ ("topics", texts ("/scan" ∷ []))
    ∷ []

parameters-eq : recorder_parameters readers value ≡ some parameters
unfolding recorder_parameters
parameters-eq = refl

topic_list-empty : topic_list readers " [] " ≡ some []
unfolding topic_list
topic_list-empty = refl
