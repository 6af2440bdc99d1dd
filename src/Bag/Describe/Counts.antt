-- ===== src/Bag/Describe/Counts.antt =====
-- The counts of describe in packages/dynrec/dynrec/bag.py: which messages a channel has.
use text.Mathlib.TextEquality.{eq_iff}
use rosbag2_dynamic_recorder.Base.{
  ℕ, ◌+◌, ◌≡◌, refl, sym, ap, subst, ◌∙◌, String, Bool, true, false, not, List, [], ◌∷◌, map, keep,
  All, length, length-append, bool_ext, is_empty, str_eq, leb, arith, inl, inr, Bool-cases,
  if◌then◌else◌,
}
use rosbag2_dynamic_recorder.Base.Members.{All-map, if_either}
use rosbag2_dynamic_recorder.Base.Sort.{insert_by, sorted_by}
use rosbag2_dynamic_recorder.Results.Events.{Event, EventMsg}
use rosbag2_dynamic_recorder.Bag.Report.{BagSummary}
use rosbag2_dynamic_recorder.Bag.Describe.{
  Stamps, add_stamp, stamps_of, read_all, describe, describe_channel, add_event, Message, summarise,
}

abbrev pub has_stamps : String × List ℕ → Bool
has_stamps entry = not (is_empty entry.1)

-- No entry with stamps stands behind another one of its topic.
abbrev IsTidy : Stamps → Type 0
IsTidy [] = Unit
IsTidy ((name, values) ∷ stamps) = (stamps_of name (keep has_stamps stamps) ≡ []) × IsTidy stamps

str_eq-sym : (s t : String) → str_eq s t ≡ str_eq t s
str_eq-sym s t =
    bool_ext (str_eq s t) (str_eq t s) (λ h. (eq_iff t s).1 (sym ((eq_iff s t).0 h)))
      (λ h. (eq_iff s t).1 (sym ((eq_iff t s).0 h)))

pub same_topic : (t topic name : String) → str_eq topic name ≡ true → str_eq t topic ≡ str_eq t name
same_topic t topic name h = ap (str_eq t) ((eq_iff topic name).0 h)

-- Entries of other topics stay.
stamps_of-add_stamp_other :
    (t topic : String) (stamp : ℕ) (stamps : Stamps)
    → str_eq t topic ≡ false
    → stamps_of t (keep has_stamps (add_stamp topic stamp stamps))
      ≡ stamps_of t (keep has_stamps stamps)
unfolding add_stamp
stamps_of-add_stamp_other t topic stamp [] h = ground arith
stamps_of-add_stamp_other t topic stamp ((name, []) ∷ stamps) h =
    ground (arith, same_topic t topic name, stamps_of-add_stamp_other t topic stamp stamps h)
stamps_of-add_stamp_other t topic stamp ((name, v ∷ values) ∷ stamps) h =
    ground (arith, same_topic t topic name, stamps_of-add_stamp_other t topic stamp stamps h)

add_stamp-IsTidy :
    (topic : String) (stamp : ℕ) (stamps : Stamps)
    → IsTidy stamps
    → IsTidy (add_stamp topic stamp stamps)
unfolding add_stamp
add_stamp-IsTidy topic stamp [] h = (refl, tt)
add_stamp-IsTidy topic stamp ((name, values) ∷ stamps) h = elim (Bool-cases (str_eq topic name)) [
  | inl same ↦ rw same h
  | inr other ↦ rw other (
    stamps_of-add_stamp_other name topic stamp stamps (str_eq-sym name topic ∙ other) ∙ h.0,
    add_stamp-IsTidy topic stamp stamps h.1,
  )
]

different_topic :
    (t topic name : String)
    → str_eq topic name ≡ false
    → str_eq t topic ≡ true
    → str_eq t name ≡ false
different_topic t topic name h k = subst (λ u. str_eq u name ≡ false) (sym ((eq_iff t topic).0 k)) h

length-stamps_of-add_stamp :
    (t topic : String) (stamp : ℕ) (stamps : Stamps)
    → length (stamps_of t (add_stamp topic stamp stamps))
      ≡ (if str_eq t topic then 1 else 0) + length (stamps_of t stamps)
unfolding add_stamp
length-stamps_of-add_stamp t topic stamp [] = ground arith
length-stamps_of-add_stamp t topic stamp ((name, values) ∷ stamps) = ground (
  arith,
  same_topic t topic name,
  length-append values (stamp ∷ []),
  different_topic t topic name,
  length-stamps_of-add_stamp t topic stamp stamps,
)

stamps_of-keep :
    (t : String) (stamps : Stamps)
    → IsTidy stamps
    → stamps_of t (keep has_stamps stamps) ≡ stamps_of t stamps
stamps_of-keep t [] h = refl
stamps_of-keep t ((name, []) ∷ stamps) h = elim (Bool-cases (str_eq t name)) [
  | inl same ↦ rw same (rw ((eq_iff t name).0 same) h.0)
  | inr other ↦ rw other (stamps_of-keep t stamps h.1)
]
stamps_of-keep t ((name, v ∷ values) ∷ stamps) h = ground (arith, stamps_of-keep t stamps h.1)

length-insert_by :
    {A : Type 0} (le : A → A → Bool) (x : A) (xs : List A)
    → length (insert_by le x xs) ≡ 1 + length xs
unfolding insert_by
length-insert_by le x [] = refl
length-insert_by le x (y ∷ xs) = ground (arith, length-insert_by le x xs)

length-sorted_by :
    {A : Type 0} (le : A → A → Bool) (xs : List A) → length (sorted_by le xs) ≡ length xs
unfolding sorted_by
length-sorted_by le [] = refl
length-sorted_by le (x ∷ xs) =
    omega (arith, length-insert_by le x (sorted_by le xs), length-sorted_by le xs)

-- What the dict holds before the first message.
opened : List (String × String) → Stamps
opened types = map (λ t. (t.0, [])) types

none_open :
    (t : String) (types : List (String × String))
    → stamps_of t (keep has_stamps (opened types)) ≡ []
unfolding opened
none_open t [] = refl
none_open t (p ∷ types) = none_open t types

opened-IsTidy : (types : List (String × String)) → IsTidy (opened types)
unfolding opened
opened-IsTidy [] = tt
opened-IsTidy (t ∷ types) = (none_open t.0 types, opened-IsTidy types)

stamps_of-opened : (t : String) (types : List (String × String)) → stamps_of t (opened types) ≡ []
unfolding opened
stamps_of-opened t [] = refl
stamps_of-opened t (p ∷ types) = ground (arith, stamps_of-opened t types)

module _ {Data : Type 0} (deserialize : String → Data → EventMsg) where
  -- How many messages a topic has.
  abbrev pub messages_on : String → List (Message deserialize) → ℕ
  messages_on topic messages = length (keep (λ m. str_eq topic m.0) messages)

  length-stamps_of-read_all :
      (t : String) (types : List (String × String)) (stamps : Stamps) (events : List Event)
      (messages : List (Message deserialize))
      → IsTidy stamps
      → length
          (stamps_of t (keep has_stamps (read_all deserialize types (stamps, events) messages).0))
        ≡ length (stamps_of t stamps) + messages_on t messages
  unfolding read_all
  length-stamps_of-read_all t types stamps events [] h =
      omega (arith, ap length (stamps_of-keep t stamps h))
  length-stamps_of-read_all t types stamps events ((topic, bytes, stamp) ∷ messages) h = ground (
    arith,
    length-stamps_of-read_all t types (add_stamp topic stamp stamps)
        (add_event deserialize types topic bytes events) messages
        (add_stamp-IsTidy topic stamp stamps h),
    length-stamps_of-add_stamp t topic stamp stamps,
  )

  summarise_counts :
      (uri : String) (types : List (String × String)) (populated : Stamps) (events : List Event)
      (count_of : String → ℕ)
      → ((t : String) → length (stamps_of t populated) ≡ count_of t)
      → All
          (λ c. c.count ≡ count_of c.topic)
          (summarise deserialize uri types populated events).channels
  unfolding describe_channel
  summarise_counts uri types populated events count_of h =
      All-map (λ c. c.count ≡ count_of c.topic) _
        (λ t. length-sorted_by leb (stamps_of t populated) ∙ h t) _

  -- Every channel of the report counts exactly the messages that the bag has on its topic.
  pub describe_counts :
      (uri : String) (types : List (String × String)) (messages : List (Message deserialize))
      → All
          (λ c. c.count ≡ messages_on c.topic messages)
          (describe deserialize uri types messages).channels
  unfolding describe opened
  describe_counts uri types messages =
      let populated = keep has_stamps (read_all deserialize types (opened types, []) messages).0 in
      if_either
        (λ (summary : BagSummary).
          All (λ c. c.count ≡ messages_on c.topic messages) summary.channels)
        (is_empty populated) _ _ tt
        (summarise_counts uri types populated
          (read_all deserialize types (opened types, []) messages).1 (λ t. messages_on t messages)
          (λ t. omega (
            arith,
            length-stamps_of-read_all t types (opened types) [] messages (opened-IsTidy types),
            ap length (stamps_of-opened t types),
          )))
