-- ===== src/Recorder/Selection.antt =====
-- packages/rosbag2_dynamic_recorder/src/topic_selection.cpp: which topics a request means. `search` is
-- std::regex_search for an expression that compiles, and none for one that std::regex refuses.
pub mod Selected
use rosbag2_dynamic_recorder.Base.{
  ℕ, ◌==◌, String, Bool, true, false, not, ◌&&◌, ◌||◌, Option, none, some, List, [], ◌∷◌, ◌++◌, map,
  any, keep, length, is_empty, str_eq, if◌then◌else◌,
}
use rosbag2_dynamic_recorder.Base.Text.{append, starts_with}
use rosbag2_dynamic_recorder.Discovery.{contains}

-- A topic with its type: the two vectors of the source, which are index-aligned.
abbrev pub Selection : Type 0
Selection = List (String × String)

pub data Refusal : Type 0 where
  types_length : Refusal
  invalid_regex : String → Refusal

pub data Selecting : Type 0 where
  selected : Selection → Selecting
  refused : Refusal → Selecting

-- The topics with their types, `resize` with empty types.
abbrev pub with_types : List String → List String → Selection
with_types [] types = []
with_types (topic ∷ topics) [] = (topic, "") ∷ with_types topics []
with_types (topic ∷ topics) (type ∷ types) = (topic, type) ∷ with_types topics types

abbrev pub untyped : String → String × String
untyped topic = (topic, "")

module _ (search : String → Option (String → Bool)) where
  abbrev pub found_by : (String → Bool) → List String → List String → Selection
  found_by include topics candidates =
      map untyped (keep (λ name. not (contains name topics) && include name) candidates)

  abbrev pub exclude_from : String → Selection → Selecting
  exclude_from exclude_regex selection =
      if str_eq exclude_regex "" then selected selection else elim (search exclude_regex) [
        | none ↦ refused (invalid_regex exclude_regex)
        | some exclude ↦ selected (keep (λ entry. not (exclude entry.0)) selection)
      ]

  unfoldable pub select_topics :
      List String → List String → String → String → List String → Selecting
  select_topics topics types include_regex exclude_regex candidates =
      if not (is_empty types) && not (length types == length topics)
      then refused types_length
      else if str_eq include_regex ""
      then exclude_from exclude_regex (with_types topics types)
      else elim (search include_regex) [
        | none ↦ refused (invalid_regex include_regex)
        | some include ↦
            exclude_from exclude_regex
              (with_types topics types ++ found_by include topics candidates)
      ]

-- A graph is its topics in order, with their types.
abbrev pub TopicGraph : Type 0
TopicGraph = List (String × List String)

-- Whether a text stands somewhere in another one.
unfoldable pub is_within : String → String → Bool
unfolding starts_with
is_within needle String.[] = starts_with String.[] needle
is_within needle (String.◌∷◌ c s) = starts_with (String.◌∷◌ c s) needle || is_within needle s

unfoldable pub pattern_candidates : TopicGraph → String → List String
unfolding is_within append
pattern_candidates graph node_name =
    keep (λ name. not (starts_with name (append node_name "/")) && not (is_within "/_" name))
      (map (λ entry. entry.0) graph)

abbrev pub only_type : List String → Option String
only_type (type ∷ []) = some type
only_type _ = none

unfoldable pub single_type : TopicGraph → String → Option String
single_type [] topic = none
single_type ((name, types) ∷ graph) topic =
    if str_eq topic name then only_type types else single_type graph topic
