-- ===== src/Bag/Describe/Channels.antt =====
-- The channels of describe in packages/dynrec/dynrec/bag.py: which topics the report lists.
use rosbag2_dynamic_recorder.Base.{
  ℕ, ◌≡◌, refl, sym, ap, ◌∙◌, String, Bool, true, false, not, ◌&&◌, ◌||◌, List, [], ◌∷◌, map, keep,
  any, is_empty, str_eq, arith, inl, inr, Bool-cases,
}
use rosbag2_dynamic_recorder.Base.Members.{any-map, contains-keep}
use rosbag2_dynamic_recorder.Base.Sort.{sorted_by, any-sorted_by}
use rosbag2_dynamic_recorder.Discovery.{str_le, contains}
use rosbag2_dynamic_recorder.Results.Events.{Event, EventMsg}
use rosbag2_dynamic_recorder.Bag.Windows.{Window}
use rosbag2_dynamic_recorder.Bag.Events.{stamp_le}
use rosbag2_dynamic_recorder.Bag.Report.{BagSummary}
use rosbag2_dynamic_recorder.Bag.Describe.{
  Stamps, add_stamp, read_all, describe, describe_channel, add_event, Message, summarise,
  is_event_topic,
}
use rosbag2_dynamic_recorder.Bag.Describe.Counts.{has_stamps, same_topic}

-- A topic has stamps in the dict.
abbrev names : String → Stamps → Bool
names t stamps = any (λ entry. str_eq t entry.0) (keep has_stamps stamps)

names-add_stamp :
    (t topic : String) (stamp : ℕ) (stamps : Stamps)
    → names t (add_stamp topic stamp stamps) ≡ (str_eq t topic || names t stamps)
unfolding add_stamp
names-add_stamp t topic stamp [] = ground arith
names-add_stamp t topic stamp ((name, []) ∷ stamps) =
    ground (arith, same_topic t topic name, names-add_stamp t topic stamp stamps)
names-add_stamp t topic stamp ((name, v ∷ values) ∷ stamps) =
    ground (arith, same_topic t topic name, names-add_stamp t topic stamp stamps)

names-opened :
    (t : String) (types : List (String × String)) → names t (map (λ p. (p.0, [])) types) ≡ false
names-opened t [] = refl
names-opened t (p ∷ types) = names-opened t types

any-described :
    (t : String) (types : List (String × String)) (events : List Event) (pauses : List Window)
    (end duration : ℕ) (populated : Stamps) (ts : List String)
    → any
        (str_eq t)
        (map (λ c. c.topic) (map (describe_channel types events pauses end duration populated) ts))
      ≡ any (str_eq t) ts
unfolding describe_channel
any-described t types events pauses end duration populated [] = refl
any-described t types events pauses end duration populated (u ∷ ts) =
    ap (◌||◌ (str_eq t u)) (any-described t types events pauses end duration populated ts)

module _ {Data : Type 0} (deserialize : String → Data → EventMsg) where
  names-read_all :
      (t : String) (types : List (String × String)) (stamps : Stamps) (events : List Event)
      (messages : List (Message deserialize))
      → names t (read_all deserialize types (stamps, events) messages).0
        ≡ (names t stamps || any (λ m. str_eq t m.0) messages)
  unfolding read_all
  names-read_all t types stamps events [] = ground arith
  names-read_all t types stamps events ((topic, bytes, stamp) ∷ messages) = ground (
    arith,
    names-read_all t types (add_stamp topic stamp stamps)
        (add_event deserialize types topic bytes events) messages,
    names-add_stamp t topic stamp stamps,
  )

  -- The topics that a report lists.
  abbrev pub channel_topics : BagSummary → List String
  channel_topics summary = map (λ c. c.topic) summary.channels

  contains-summarise :
      (t uri : String) (types : List (String × String)) (populated : Stamps) (events : List Event)
      → contains t (channel_topics (summarise deserialize uri types populated events))
        ≡ (any (λ entry. str_eq t entry.0) populated && not (is_event_topic types t))
  unfolding describe_channel
  contains-summarise t uri types populated events =
      any-described t types (sorted_by stamp_le events) _ _ _ populated _
      ∙ any-sorted_by str_le (str_eq t) _
      ∙ contains-keep t (λ u. not (is_event_topic types u)) _
      ∙ ap (λ (b : Bool). b && not (is_event_topic types t))
          (any-map (str_eq t) (λ entry. entry.0) populated)

  empty_names :
      (t : String) (populated : Stamps)
      → is_empty populated ≡ true
      → any (λ entry. str_eq t entry.0) populated ≡ false
  empty_names t [] h = refl
  empty_names t (p ∷ populated) h = ground arith

  -- The report has a channel for a topic exactly when the bag has a message on it and it is not one of
  -- the recorder's event topics.
  pub describe_channels :
      (t uri : String) (types : List (String × String)) (messages : List (Message deserialize))
      → contains t (channel_topics (describe deserialize uri types messages))
        ≡ (any (λ m. str_eq t m.0) messages && not (is_event_topic types t))
  unfolding describe
  describe_channels t uri types messages =
      let result = read_all deserialize types (map (λ p. (p.0, [])) types, []) messages in
      let populated = keep has_stamps result.0 in
      let named : names t result.0 ≡ any (λ m. str_eq t m.0) messages = ground (
        arith,
        names-read_all t types (map (λ p. (p.0, [])) types) [] messages,
        names-opened t types,
      ) in
      elim (Bool-cases (is_empty populated)) [
        | inl empty ↦ rw empty (
            ap (λ (b : Bool). b && not (is_event_topic types t))
              (sym (empty_names t populated empty) ∙ named))
        | inr full ↦ rw full (
            contains-summarise t uri types populated result.1
            ∙ ap (λ (b : Bool). b && not (is_event_topic types t)) named)
      ]
