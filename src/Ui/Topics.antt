-- ===== src/Ui/Topics.antt =====
-- Which topics the page of packages/rosbag2_dynamic_recorder_ui offers.
use rosbag2_dynamic_recorder.Base.{◌≡◌, ◌∙◌, ap, String, Bool, ◌&&◌, List, map, keep, any, str_eq}
use rosbag2_dynamic_recorder.Base.Sort.{any-sorted_by}
use rosbag2_dynamic_recorder.Discovery.{str_le, contains}
use rosbag2_dynamic_recorder.Base.Members.{any-map, contains-keep}
use rosbag2_dynamic_recorder.Ui.{is_offered, available_topics}

-- A topic is offered exactly when it is on the graph, is not one of the hidden ones and does not
-- belong to the recorder.
contains-available_topics :
    (topic recorder : String) (graph : List (String × List String))
    → contains topic (available_topics recorder graph)
      ≡ (any (λ t. str_eq topic t.0) graph && is_offered recorder topic)
unfolding available_topics
contains-available_topics topic recorder graph =
    any-sorted_by str_le (str_eq topic) (keep (is_offered recorder) (map (λ t. t.0) graph))
    ∙ contains-keep topic (is_offered recorder) (map (λ t. t.0) graph)
    ∙ ap (λ (b : Bool). b && is_offered recorder topic) (any-map (str_eq topic) (λ t. t.0) graph)
