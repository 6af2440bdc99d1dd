-- ===== src/Results/Change.antt =====
-- TopicChange of packages/dynrec/dynrec/results.py.
use rosbag2_dynamic_recorder.Base.{String, Bool, Option, none, some, List, [], is_empty}
use rosbag2_dynamic_recorder.Errors.{Response}

pub record TopicChange : Type 0 where
  pub subscribed : List String
  pub unsubscribed : List String
  pub unavailable : List String
  pub not_subscribed : List String

-- `list(getattr(response, field, ()))`
abbrev pub or_empty : Option (List String) → List String
or_empty none = []
or_empty (some names) = names

unfoldable pub change_from_msg : Response → TopicChange
change_from_msg response = record {
  subscribed = or_empty response.subscribed_topics;
  unsubscribed = or_empty response.unsubscribed_topics;
  unavailable = or_empty response.unavailable_topics;
  not_subscribed = or_empty response.not_subscribed_topics;
}

-- `complete`
unfoldable pub is_complete : TopicChange → Bool
is_complete change = is_empty change.unavailable
