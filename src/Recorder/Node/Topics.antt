-- ===== src/Recorder/Node/Topics.antt =====
-- The topics that the node of packages/rosbag2_dynamic_recorder/src/dynamic_recorder.cpp records.
use text.Mathlib.TextEquality.{eq_iff}
use mathlib.Core.List.{append_assoc, append-nil}
use rosbag2_dynamic_recorder.Base.{
  ◌≡◌, refl, sym, ap, subst, ◌∙◌, String, Bool, true, ◌||◌, List, [], ◌∷◌, ◌++◌, map, arith, str_eq,
}
use rosbag2_dynamic_recorder.Base.Members.{any-append}
use rosbag2_dynamic_recorder.Base.Sort.{any-sorted_by}
use rosbag2_dynamic_recorder.Discovery.{str_le, contains}
use rosbag2_dynamic_recorder.Recorder.Selection.{Selection}
use rosbag2_dynamic_recorder.Recorder.Node.{
  Outside, Node, BatchResult, no_batch, subscribe_topic, subscribe_entry, subscribe_loop,
  subscribe_batch, subscribed_topics,
}

-- A text that equals another one is in the same lists.
contains-same :
    (t topic : String) (topics : List String)
    → contains topic topics ≡ true
    → str_eq t topic ≡ true
    → contains t topics ≡ true
contains-same t topic topics h e = rw ((eq_iff t topic).0 e) h

module _ (outside : Outside) (reason : String) where
  -- A topic is subscribed to afterwards exactly if it was before or the batch says that it is now.
  abbrev pub IsCounted : List String → BatchResult × Node → Type 0
  IsCounted before (result, node) =
      (t : String)
      → contains t node.subscriptions ≡ (contains t before || contains t result.subscribed)

  subscribe_entry-IsCounted :
      (before : List String) (entry : String × String) (so_far : BatchResult × Node)
      → IsCounted before so_far
      → IsCounted before (subscribe_entry outside reason entry so_far)
  unfolding subscribe_entry subscribe_topic
  subscribe_entry-IsCounted before (topic, type) (result, node) h t = ground (
    arith,
    h t,
    any-append (str_eq t) result.subscribed (topic ∷ []),
    contains-same t topic node.subscriptions,
  )

  -- Every entry that has been seen is reported as subscribed or as unavailable.
  abbrev pub IsAnswered : List String → BatchResult × Node → Type 0
  IsAnswered seen (result, node) =
      (t : String)
      → (contains t result.subscribed || contains t result.unavailable) ≡ contains t seen

  subscribe_entry-IsAnswered :
      (seen : List String) (entry : String × String) (so_far : BatchResult × Node)
      → IsAnswered seen so_far
      → IsAnswered (seen ++ entry.0 ∷ []) (subscribe_entry outside reason entry so_far)
  unfolding subscribe_entry
  subscribe_entry-IsAnswered seen (topic, type) (result, node) h t = ground (
    arith,
    h t,
    any-append (str_eq t) seen (topic ∷ []),
    any-append (str_eq t) result.subscribed (topic ∷ []),
    any-append (str_eq t) result.unavailable (topic ∷ []),
  )

  abbrev pub names : Selection → List String
  names selection = map (λ entry. entry.0) selection

  subscribe_loop_lem :
      (before seen : List String) (selection : Selection) (so_far : BatchResult × Node)
      → IsCounted before so_far
      → IsAnswered seen so_far
      → IsCounted before (subscribe_loop outside reason selection so_far)
        × IsAnswered (seen ++ names selection) (subscribe_loop outside reason selection so_far)
  unfolding subscribe_loop
  subscribe_loop_lem before seen [] so_far h k = (h, rw (append-nil seen) k)
  subscribe_loop_lem before seen (entry ∷ selection) so_far h k =
      subst
        (λ s.
          IsCounted before
            (subscribe_loop outside reason selection (subscribe_entry outside reason entry so_far))
          × IsAnswered s (
              subscribe_loop outside reason selection
                (subscribe_entry outside reason entry so_far)))
        (append_assoc seen (entry.0 ∷ []) (names selection))
        (subscribe_loop_lem before (seen ++ entry.0 ∷ []) selection
          (subscribe_entry outside reason entry so_far)
          (subscribe_entry-IsCounted before entry so_far h)
          (subscribe_entry-IsAnswered seen entry so_far k))

  -- A batch answers for every topic that it was asked for, and for no other: each is reported as
  -- subscribed or as unavailable. The node records afterwards the topics that it recorded before and
  -- those that are reported as subscribed, and no others.
  pub subscribe_batch_lem :
      (selection : Selection) (node : Node) (t : String)
      → let (result, node') = subscribe_batch outside selection reason node in
        ((contains t result.subscribed || contains t result.unavailable)
          ≡ contains t (names selection))
        × (contains t (subscribed_topics node')
            ≡ (contains t (subscribed_topics node) || contains t result.subscribed))
  unfolding subscribe_batch subscribed_topics
  subscribe_batch_lem selection node t =
      let (counted, answered) =
        subscribe_loop_lem node.subscriptions [] selection (no_batch, node) (λ u. ground arith)
          (λ u. refl) in
      (
        answered t,
        any-sorted_by str_le (str_eq t) _
            ∙ counted t
            ∙ ap
                (λ (b : Bool).
                  b
                  || contains t
                      (subscribe_loop outside reason selection (no_batch, node)).0.subscribed)
                (sym (any-sorted_by str_le (str_eq t) node.subscriptions)),
      )
