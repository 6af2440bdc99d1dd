-- ===== src/Topics.antt =====
-- packages/dynrec/dynrec/topics.py: what a caller writes, as the arrays that the services take.
pub mod Laws
use rosbag2_dynamic_recorder.Base.{
  String, Bool, true, false, not, ◌&&◌, List, [], ◌∷◌, ◌++◌, any, is_empty, if◌then◌else◌,
}
use rosbag2_dynamic_recorder.Base.Text.{is_blank, partition}
use rosbag2_dynamic_recorder.Errors.{
  invalid_request, not_a_topic_name, no_topic_name, no_type_after, nothing_selected, Result, ok,
  err, ◌>>=◌, ◌>>◌, raise_if,
}

-- An item of the list: a text, or a value that is none.
pub data Item : Type 0 where
  spec : String → Item
  other : Item

-- The argument: a text alone, a list, or nothing at all.
pub data Values : Type 0 where
  single : String → Values
  several : List Item → Values
  nothing : Values

abbrev pub items_of : Values → List Item
items_of (single s) = spec s ∷ []
items_of (several items) = items
items_of nothing = []

-- The body of the loop.
unfoldable pub parse_item : Item → Result (String × String)
unfolding partition
parse_item other = err (invalid_request not_a_topic_name)
parse_item (spec value) = do
  let (topic, separator, type_name) = partition b':' value
  raise_if (is_blank topic) (invalid_request (no_topic_name value))
  raise_if (separator && is_blank type_name) (invalid_request (no_type_after value))
  ok (topic, type_name)

unfoldable pub parse_items :
    List String → List String → List Item → Result (List String × List String)
unfolding parse_item
parse_items topics types [] = ok (topics, types)
parse_items topics types (item ∷ items) = do
  (topic, type_name) ← parse_item item
  parse_items (topics ++ topic ∷ []) (types ++ type_name ∷ []) items

-- `[] if not any(types) else types`
abbrev pub type_names : List String → List String
type_names types = if any (λ t. not (is_blank t)) types then types else []

unfoldable pub parse_topic_specs : Values → Result (List String × List String)
unfolding parse_items
parse_topic_specs values = do
  (topics, types) ← parse_items [] [] (items_of values)
  ok (topics, type_names types)

unfoldable pub require_a_selection : List String → String → Result (Unit {0})
require_a_selection topics regex =
    raise_if (is_empty topics && is_blank regex) (invalid_request nothing_selected)
