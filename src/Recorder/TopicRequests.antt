-- ===== src/Recorder/TopicRequests.antt =====
-- packages/rosbag2_dynamic_recorder/src/recorder_services.cpp: the requests that change which topics are
-- recorded.
use rosbag2_dynamic_recorder.Base.{
  ℕ, String, not, ◌&&◌, Option, none, some, List, [], ◌∷◌, map, is_empty, str_eq, if◌then◌else◌,
}
use rosbag2_dynamic_recorder.Base.Text.{append}
use rosbag2_dynamic_recorder.Recorder.Selection.{
  Selection, Refusal, types_length, invalid_regex, selected, refused, select_topics,
  pattern_candidates,
}
use rosbag2_dynamic_recorder.Recorder.Node.{
  Outside, Node, BatchResult, untyped, subscribed_topics, subscribe_batch, unsubscribe_loop,
  replace_topics,
}
use rosbag2_dynamic_recorder.Recorder.Requests.{not_recording_reason}

-- What the answer to such a request says.
pub record TopicAnswer : Type 0 where
  pub return_code : ℕ
  pub error_string : String
  pub subscribed : List String
  pub unsubscribed : List String
  pub unavailable : List String
  pub not_subscribed : List String

abbrev pub refuse : String → TopicAnswer
refuse error = record {
  return_code = 1;
  error_string = error;
  subscribed = [];
  unsubscribed = [];
  unavailable = [];
  not_subscribed = [];
}

-- The text of std::regex_error is outside.
abbrev pub reason_of : Refusal → String
unfolding append
reason_of types_length = "topic_types must be empty or the same length as topics"
reason_of (invalid_regex regex) = "invalid regular expression: "

-- set_subscribe_result, of the batch and what was dropped for it. `listed` is what the answer calls
-- subscribed.
unfoldable pub subscribe_answer : BatchResult → List String → List String → TopicAnswer
subscribe_answer result dropped listed =
    let all_failed = is_empty result.subscribed && not (is_empty result.unavailable) in
    record {
      return_code = if all_failed then 1 else 0;
      error_string =
          if all_failed && str_eq result.error ""
          then "none of the requested topics could be subscribed"
          else if is_empty result.unavailable
          then ""
          else result.error;
      subscribed = listed;
      unsubscribed = dropped;
      unavailable = result.unavailable;
      not_subscribed = [];
    }

pub data FromGraph : Type 0 where
  chosen : Selection → FromGraph
  not_chosen : String → FromGraph

-- select_from_graph: a topic pattern is compared with the graph.
unfoldable pub select_from_graph :
    Outside → List String → List String → String → String → Node → FromGraph
unfolding select_topics pattern_candidates
select_from_graph outside topics types regex exclude_regex node =
    if not node.is_open
    then not_chosen (not_recording_reason outside)
    else elim (select_topics outside.search topics types regex exclude_regex
        (if str_eq regex "" then [] else pattern_candidates outside.graph outside.node_name)) [
          | selected selection ↦ chosen selection
          | refused refusal ↦ not_chosen (reason_of refusal)
        ]

unfoldable pub handle_subscribe_topics :
    Outside → List String → List String → String → String → Node → TopicAnswer × Node
unfolding select_from_graph subscribe_batch subscribe_answer append
handle_subscribe_topics outside topics types regex exclude_regex node =
    elim (select_from_graph outside topics types regex exclude_regex node) [
      | not_chosen error ↦ (refuse error, node)
      | chosen selection ↦
          if is_empty selection && not (str_eq regex "")
          then (refuse (append "regex '" (append regex "' matched no topics on the graph")), node)
          else let (result, node') =
              subscribe_batch outside selection "service:subscribe_topics" node in
            (subscribe_answer result [] result.subscribed, node')
    ]

unfoldable pub unsubscribe_answer : Selection → List String → List String → TopicAnswer
unsubscribe_answer selection dropped absent =
    let failed = is_empty dropped && not (is_empty selection) in
    record {
      return_code = if failed then 1 else 0;
      error_string = if failed then "none of the requested topics were subscribed" else "";
      subscribed = [];
      unsubscribed = dropped;
      unavailable = [];
      not_subscribed = absent;
    }

-- A pattern is compared with what is being recorded.
unfoldable pub handle_unsubscribe_topics :
    Outside → List String → String → String → Node → TopicAnswer × Node
unfolding select_topics unsubscribe_loop unsubscribe_answer subscribed_topics
handle_unsubscribe_topics outside topics regex exclude_regex node =
    elim (select_topics outside.search topics [] regex exclude_regex (subscribed_topics node)) [
      | refused refusal ↦ (refuse (reason_of refusal), node)
      | selected selection ↦
          let (dropped, absent, node') =
            unsubscribe_loop "service:unsubscribe_topics" (map (λ entry. entry.0) selection)
              ([], [], node) in
          (unsubscribe_answer selection dropped absent, node')
    ]

-- What set_topics and set_profile do with a selection.
unfoldable pub replaced : Outside → Selection → String → Node → TopicAnswer × Node
unfolding replace_topics subscribe_answer subscribed_topics
replaced outside selection reason node =
    let (dropped, result, node') = replace_topics outside selection reason node in
    (subscribe_answer result dropped (subscribed_topics node'), node')

unfoldable pub handle_set_topics :
    Outside → List String → List String → String → String → Node → TopicAnswer × Node
unfolding select_from_graph replaced
handle_set_topics outside topics types regex exclude_regex node =
    elim (select_from_graph outside topics types regex exclude_regex node) [
      | not_chosen error ↦ (refuse error, node)
      | chosen selection ↦ replaced outside selection "service:set_topics" node
    ]

unfoldable pub find_profile : String → List (String × List String) → Option (List String)
find_profile name [] = none
find_profile name ((known, topics) ∷ profiles) =
    if str_eq known name then some topics else find_profile name profiles

-- The names of the profiles, separated by commas.
unfoldable pub joined : String → List (String × List String) → String
unfolding append
joined known [] = known
joined known ((name, topics) ∷ profiles) =
    joined (append known (append (if str_eq known "" then "" else ", ") name)) profiles

abbrev pub no_profile : String → List (String × List String) → String
unfolding append joined
no_profile name profiles =
    let known = joined "" profiles in
    append "no profile named '" (
      append name (
        append "'"
          (if str_eq known "" then "; none are configured" else append "; configured: " known)))

unfoldable pub handle_set_profile : Outside → String → Node → TopicAnswer × Node
unfolding find_profile replaced append joined
handle_set_profile outside name node =
    if not node.is_open
    then (refuse (not_recording_reason outside), node)
    else elim (find_profile name outside.profiles) [
      | none ↦ (refuse (no_profile name outside.profiles), node)
      | some topics ↦ replaced outside (untyped topics) (append "service:set_profile:" name) node
    ]
