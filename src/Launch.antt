-- ===== src/Launch.antt =====
-- packages/rosbag2_dynamic_recorder/launch/dynamic_recorder.launch.py: the arguments of the launch file as
-- parameters of the recorder. The launch library, ast.literal_eval, int and float are given.
pub mod Parameters
use rosbag2_dynamic_recorder.Base.{
  ℕ, String, Bool, true, false, Option, none, some, List, [], ◌∷◌, ◌++◌, is_empty, str_eq,
  if◌then◌else◌,
}
use rosbag2_dynamic_recorder.Base.Int.{ℤ}
use rosbag2_dynamic_recorder.Base.Seconds.{Seconds}
use rosbag2_dynamic_recorder.Base.Text.{is_blank, strip_spaces}

-- The third field of a row: str, _bool, int, float, or None for an argument that is handled apart.
pub data Kind : Type 0 where
  as_text as_bool as_int as_float apart : Kind

-- Name, default and type.
abbrev pub Argument : Type 0
Argument = String × String × Kind

abbrev pub arguments : List Argument
arguments =
    ("uri", "dynamic_bag", as_text)
    ∷ ("storage_id", "mcap", as_text)
    ∷ ("serialization_format", "cdr", as_text)
    ∷ ("topics", "[]", apart)
    ∷ ("start_paused", "false", as_bool)
    ∷ ("use_sim_time", "false", as_bool)
    ∷ ("snapshot_mode", "false", as_bool)
    ∷ ("max_cache_size", "104857600", as_int)
    ∷ ("max_cache_duration", "0", as_int)
    ∷ ("max_bagfile_size", "0", as_int)
    ∷ ("max_bagfile_duration", "0", as_int)
    ∷ ("storage_preset_profile", "", as_text)
    ∷ ("storage_config_uri", "", as_text)
    ∷ ("record_subscription_events", "true", as_bool)
    ∷ ("min_free_space", "0", as_int)
    ∷ ("min_free_space_percent", "0.0", as_float)
    ∷ ("max_bag_size", "0", as_int)
    ∷ ("messages_lost_report_period", "5.0", as_float)
    ∷ ("params_file", "", apart)
    ∷ []

pub data Parameter : Type 0 where
  text : String → Parameter
  flag : Bool → Parameter
  integer : ℤ → Parameter
  number : Seconds → Parameter
  texts : List String → Parameter

-- What ast.literal_eval reads: a text, something with items, here as texts by str, or a value that cannot
-- be iterated over.
pub data Literal : Type 0 where
  one : String → Literal
  items : List String → Literal
  single_value : Literal

-- Python's readers, none for an exception.
pub record Readers : Type 0 where
  pub python_int : String → Option ℤ
  pub python_float : String → Option Seconds
  pub literal_eval : String → Option Literal

-- A dict, in the order of insertion.
abbrev pub Parameters : Type 0
Parameters = List (String × Parameter)

abbrev pub topics_in : Option Literal → Option (List String)
topics_in none = none
topics_in (some (one value)) = some (value ∷ [])
topics_in (some (items values)) = some values
topics_in (some single_value) = none

abbrev pub put_first : String → Option Parameter → Option Parameters → Option Parameters
put_first name (some value) (some rest) = some ((name, value) ∷ rest)
put_first name _ _ = none

abbrev pub map_some : {A B : Type 0} → (A → B) → Option A → Option B
map_some f none = none
map_some f (some a) = some (f a)

-- `if topics: params['topics'] = topics`
abbrev pub with_topics : Option Parameters → Option (List String) → Option Parameters
with_topics (some parameters) (some topics) =
    some (if is_empty topics then parameters else parameters ++ ("topics", texts topics) ∷ [])
with_topics _ _ = none

module _ (readers : Readers) where
  unfoldable pub topic_list : String → Option (List String)
  unfolding strip_spaces
  topic_list raw =
      let stripped = strip_spaces raw in
      if is_blank stripped then some [] else topics_in (readers.literal_eval stripped)

  -- A parameter, if its text can be read.
  unfoldable pub parse_as : Kind → String → Option Parameter
  parse_as as_text value = some (text value)
  parse_as as_bool value = some (flag (str_eq value "true"))
  parse_as as_int value = map_some integer (readers.python_int value)
  parse_as as_float value = map_some number (readers.python_float value)
  parse_as apart value = none

  -- The loop over ARGUMENTS; `value` performs a launch configuration.
  unfoldable pub typed_parameters : (String → String) → List Argument → Option Parameters
  unfolding parse_as
  typed_parameters value [] = some []
  typed_parameters value ((name, default, apart) ∷ rest) = typed_parameters value rest
  typed_parameters value ((name, default, kind) ∷ rest) =
      put_first name (parse_as kind (value name)) (typed_parameters value rest)

  unfoldable pub recorder_parameters : (String → String) → Option Parameters
  unfolding typed_parameters topic_list
  recorder_parameters value =
      with_topics (typed_parameters value arguments) (topic_list (value "topics"))

-- `_setup`: the parameters of the node, and a file of more, if one is named.
unfoldable pub parameters_of : Option Parameters → String → Option (Parameters × Option String)
unfolding strip_spaces
parameters_of parameters raw =
    let params_file = strip_spaces raw in
    map_some (λ ps. (ps, if is_blank params_file then none else some params_file)) parameters
