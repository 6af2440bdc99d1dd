-- ===== src/Recorder/Profiles.antt =====
-- packages/rosbag2_dynamic_recorder/src/recorder_config.cpp: the profiles of the parameters. `declare` is
-- `declare_parameter` of rclcpp for a list of texts: none is what it throws.
pub mod Declared
pub mod Active
use rosbag2_dynamic_recorder.Base.{
  String, Option, none, some, List, [], ◌∷◌, ◌++◌, str_eq, if◌then◌else◌,
}
use rosbag2_dynamic_recorder.Base.Sort.{sorted_by}
use rosbag2_dynamic_recorder.Base.Text.{append}
use rosbag2_dynamic_recorder.Discovery.{str_le}

-- `std::unique`, after an element that is kept.
unfoldable pub unique_after : String → List String → List String
unique_after x [] = []
unique_after x (y ∷ ys) = let rest = unique_after y ys in if str_eq x y then rest else y ∷ rest

unfoldable pub unique : List String → List String
unfolding unique_after
unique [] = []
unique (x ∷ xs) = x ∷ unique_after x xs

module _ {Params : Type 0} (declare : String → Params → Option (List String × Params)) where
  -- One round of the loop: no profile for an empty name.
  unfoldable pub declare_profile : String → Params → Option (List (String × List String) × Params)
  unfolding append sorted_by unique
  declare_profile name params =
      if str_eq name ""
      then some ([], params)
      else elim (declare (append "profiles." name) params) [
        | none ↦ none
        | some (topics, params') ↦ some ((name, unique (sorted_by str_le topics)) ∷ [], params')
      ]

  unfoldable pub declare_each : List String → Params → Option (List (String × List String) × Params)
  unfolding declare_profile
  declare_each [] params = some ([], params)
  declare_each (name ∷ names) params = elim (declare_profile name params) [
    | none ↦ none
    | some (profile, params') ↦ elim (declare_each names params') [
      | none ↦ none
      | some (profiles, params'') ↦ some (profile ++ profiles, params'')
    ]
  ]

  unfoldable pub declare_profiles : Params → Option (List (String × List String) × Params)
  unfolding declare_each
  declare_profiles params = elim (declare "profile_names" params) [
    | none ↦ none
    | some (names, params') ↦ declare_each names params'
  ]
