-- ===== src/Recorder/Selection/Selected.antt =====
-- Which topics packages/rosbag2_dynamic_recorder/src/topic_selection.cpp selects.
use mathlib.Core.List.{map-append}
use rosbag2_dynamic_recorder.Base.{
  ◌==◌, ◌≡◌, ◌≢◌, refl, sym, ap, ap₂, ◌∙◌, String, Bool, true, false, not, ◌&&◌, ◌||◌, Option, none,
  some, List, [], ◌∷◌, ◌++◌, map, keep, length, is_empty, str_eq, if◌then◌else◌, arith, inl, inr,
  Bool-cases,
}
use rosbag2_dynamic_recorder.Base.Members.{any-append, contains-keep}
use rosbag2_dynamic_recorder.Discovery.{contains}
use rosbag2_dynamic_recorder.Recorder.Selection.{
  Selection, Selecting, Refusal, selected, refused, invalid_regex, with_types, untyped, found_by,
  exclude_from, select_topics,
}

abbrev pub topics_of : Selection → List String
topics_of selection = map (λ entry. entry.0) selection

topics_of-with_types : (topics types : List String) → topics_of (with_types topics types) ≡ topics
topics_of-with_types [] types = refl
topics_of-with_types (topic ∷ topics) [] = ap (◌∷◌ topic) (topics_of-with_types topics [])
topics_of-with_types (topic ∷ topics) (type ∷ types) =
    ap (◌∷◌ topic) (topics_of-with_types topics types)

topics_of-untyped : (topics : List String) → topics_of (map untyped topics) ≡ topics
topics_of-untyped [] = refl
topics_of-untyped (topic ∷ topics) = ap (◌∷◌ topic) (topics_of-untyped topics)

topics_of-keep :
    (test : String → Bool) (selection : Selection)
    → topics_of (keep (λ entry. test entry.0) selection) ≡ keep test (topics_of selection)
topics_of-keep test [] = refl
topics_of-keep test (entry ∷ selection) = elim (Bool-cases (test entry.0)) [
  | inl kept ↦ rw kept (ap (◌∷◌ entry.0) (topics_of-keep test selection))
  | inr left_out ↦ rw left_out (topics_of-keep test selection)
]

abbrev selection_of : Selecting → Selection
selection_of (selected selection) = selection
selection_of (refused refusal) = []

and_true : (b : Bool) → b ≡ (b && true)
and_true true = refl
and_true false = refl

refused-ne-selected :
    {refusal : Refusal} {selection : Selection} → refused refusal ≢ selected selection
refused-ne-selected h = cc

module _ (search : String → Option (String → Bool)) where
  -- Whether an expression is given and finds something in the topic.
  abbrev pub finds : String → String → Bool
  finds regex topic =
      if str_eq regex ""
      then false
      else elim (search regex) [ none ↦ false | some found ↦ found topic ]

  -- What is left of a selection by the exclusion.
  left_over :
      (given : Bool) (found : Option (String → Bool)) (exclude_regex t : String)
      (chosen out : Selection)
      → (if given then selected chosen else elim found [
        | none ↦ refused (invalid_regex exclude_regex)
        | some exclude ↦ selected (keep (λ entry. not (exclude entry.0)) chosen)
      ])
        ≡ selected out
      → contains t (topics_of out) ≡ (
          contains t (topics_of chosen)
          && not (if given then false else elim found [ none ↦ false | some f ↦ f t ]))
  left_over true found exclude_regex t chosen out h =
      ap (λ r. contains t (topics_of (selection_of r))) (sym h)
      ∙ and_true (contains t (topics_of chosen))
  left_over false none exclude_regex t chosen out h = cc
  left_over false (some exclude) exclude_regex t chosen out h =
      ap (λ r. contains t (topics_of (selection_of r))) (sym h)
      ∙ ap (contains t) (topics_of-keep (λ u. not (exclude u)) chosen)
      ∙ contains-keep t (λ u. not (exclude u)) (topics_of chosen)

  contains-found :
      (include : String → Bool) (t : String) (topics types candidates : List String)
      → contains t
          (topics_of (with_types topics types ++ found_by search include topics candidates))
        ≡ (contains t topics || include t && contains t candidates)
  contains-found include t topics types candidates =
      let test : String → Bool = λ u. not (contains u topics) && include u in
      ap (contains t) (
        map-append (λ (entry : String × String). entry.0) (with_types topics types) _
        ∙ ap₂ (λ us vs. us ++ vs) (topics_of-with_types topics types)
            (topics_of-untyped (keep test candidates)))
      ∙ any-append (str_eq t) topics (keep test candidates)
      ∙ ap (λ (b : Bool). contains t topics || b) (contains-keep t test candidates)
      ∙ ground arith

  included :
      (given : Bool) (found : Option (String → Bool)) (include_regex exclude_regex t : String)
      (topics types candidates : List String) (out : Selection)
      → (if given then exclude_from search exclude_regex (with_types topics types) else elim found [
        | none ↦ refused (invalid_regex include_regex)
        | some include ↦
            exclude_from search exclude_regex
              (with_types topics types ++ found_by search include topics candidates)
      ])
        ≡ selected out
      → contains t (topics_of out) ≡ (
          (contains t topics
            || (if given then false else elim found [ none ↦ false | some f ↦ f t ])
              && contains t candidates)
          && not (finds exclude_regex t))
  included true found include_regex exclude_regex t topics types candidates out h =
      left_over (str_eq exclude_regex "") (search exclude_regex) exclude_regex t
        (with_types topics types) out h
      ∙ ap (λ (b : Bool). b && not (finds exclude_regex t))
          (ap (contains t) (topics_of-with_types topics types) ∙ ground arith)
  included false none include_regex exclude_regex t topics types candidates out h = cc
  included false (some include) include_regex exclude_regex t topics types candidates out h =
      left_over (str_eq exclude_regex "") (search exclude_regex) exclude_regex t
        (with_types topics types ++ found_by search include topics candidates) out h
      ∙ ap (λ (b : Bool). b && not (finds exclude_regex t))
          (contains-found include t topics types candidates)

  -- Where a request is not refused, a topic is selected exactly when it is named, or is a candidate in
  -- which the expression finds something, and the exclusion finds nothing in it.
  pub contains-select_topics :
      (topics types : List String) (include_regex exclude_regex : String) (candidates : List String)
      (t : String) {out : Selection}
      → select_topics search topics types include_regex exclude_regex candidates ≡ selected out
      → contains t (topics_of out) ≡ (
          (contains t topics || finds include_regex t && contains t candidates)
          && not (finds exclude_regex t))
  unfolding select_topics
  contains-select_topics topics types include_regex exclude_regex candidates t {out} h =
      elim (Bool-cases (not (is_empty types) && not (length types == length topics))) [
        | inl uneven ↦ absurd (refused-ne-selected (rw uneven at h))
        | inr even ↦
            included (str_eq include_regex "") (search include_regex) include_regex exclude_regex t
              topics types candidates out (rw even at h)
      ]
