-- ===== src/Recorder/Losses.antt =====
-- packages/rosbag2_dynamic_recorder/src/loss_accounting.cpp: the messages that went missing, in total and
-- for each topic. The counters are uint64.
pub mod Sums
pub mod Sequence
use rosbag2_dynamic_recorder.Base.{
  ℕ, ◌+◌, ◌-◌, ◌%◌, String, Bool, true, false, Option, none, some, List, [], ◌∷◌, map, ltb, str_eq,
  if◌then◌else◌,
}
use rosbag2_dynamic_recorder.Discovery.{str_le}

abbrev pub word : ℕ
word = 18_446_744_073_709_551_616

-- Sums and differences of uint64.
unfoldable pub add64 : ℕ → ℕ → ℕ
add64 a b = (a + b) % word

unfoldable pub sub64 : ℕ → ℕ → ℕ
sub64 a b = (a + word - b) % word

pub record Totals : Type 0 where
  pub missed : ℕ
  pub lost_in_transport : ℕ
  pub lost_in_recorder : ℕ
  pub sequence_numbers_available : Bool

pub record TopicLoss : Type 0 where
  pub topic : String
  pub in_transport : ℕ
  pub in_recorder : ℕ
  pub missed : ℕ

-- The last sequence number of each publisher of a subscription.
abbrev pub SequenceMap : Type 0
SequenceMap = List (String × ℕ)

-- `pending_` holds what is owed to the next report, `per_topic_` what this bag has lost; a map's entries
-- stand in the order of their topics. The order of an unordered map is not modelled.
pub record LossAccounting : Type 0 where
  pub totals : Totals
  pub pending : List TopicLoss
  pub per_topic : List TopicLoss

abbrev pub no_totals : Totals
no_totals = record {
  missed = 0;
  lost_in_transport = 0;
  lost_in_recorder = 0;
  sequence_numbers_available = false;
}

abbrev pub no_losses : LossAccounting
no_losses = record { totals = no_totals; pending = []; per_topic = [] }

-- `seen.find(publisher)`
unfoldable pub find : String → SequenceMap → Option ℕ
find publisher [] = none
find publisher ((name, sequence) ∷ seen) =
    if str_eq publisher name then some sequence else find publisher seen

-- `seen[publisher] = sequence`
unfoldable pub assign : String → ℕ → SequenceMap → SequenceMap
assign publisher sequence [] = (publisher, sequence) ∷ []
assign publisher sequence ((name, other) ∷ seen) =
    if str_eq publisher name
    then (name, sequence) ∷ seen
    else (name, other) ∷ assign publisher sequence seen

-- The figures that are added to a topic's entry.
abbrev pub plus : TopicLoss → TopicLoss → TopicLoss
unfolding add64
plus entry more = record {
  topic = entry.topic;
  in_transport = add64 entry.in_transport more.in_transport;
  in_recorder = add64 entry.in_recorder more.in_recorder;
  missed = add64 entry.missed more.missed;
}

-- `map[topic] += …`, with a new entry where the topic has none.
unfoldable pub add_to : TopicLoss → List TopicLoss → List TopicLoss
add_to more [] = more ∷ []
add_to more (entry ∷ entries) =
    let later = entry ∷ add_to more entries in
    if str_eq more.topic entry.topic
    then plus entry more ∷ entries
    else if str_le more.topic entry.topic
    then more ∷ entry ∷ entries
    else later

abbrev pub loss_of : String → ℕ → ℕ → ℕ → TopicLoss
loss_of topic in_transport in_recorder missed = record {
  topic = topic;
  in_transport = in_transport;
  in_recorder = in_recorder;
  missed = missed;
}

-- How many numbers were left out between the last sequence number and this one.
unfoldable pub gap_after : Option ℕ → ℕ → ℕ
unfolding add64 sub64
gap_after none sequence = 0
gap_after (some previous) sequence =
    if ltb (add64 previous 1) sequence then sub64 (sub64 sequence previous) 1 else 0

abbrev pub add_missed : String → ℕ → LossAccounting → LossAccounting
unfolding add64 add_to
add_missed topic gap l = record l {
  totals = record l.totals { missed = add64 l.totals.missed gap };
  per_topic = add_to (loss_of topic 0 0 gap) l.per_topic;
}

unfoldable pub note_sequence :
    SequenceMap → String → ℕ → String → LossAccounting → SequenceMap × LossAccounting
unfolding find assign gap_after
note_sequence seen publisher sequence topic l =
    let gap = gap_after (find publisher seen) sequence in
    let noted = record l { totals = record l.totals { sequence_numbers_available = true } } in
    (assign publisher sequence seen, if ltb 0 gap then add_missed topic gap noted else noted)

unfoldable pub note_transport_loss : String → ℕ → LossAccounting → LossAccounting
unfolding add64 add_to
note_transport_loss topic count l = record {
  totals = record l.totals { lost_in_transport = add64 l.totals.lost_in_transport count };
  pending = add_to (loss_of topic count 0 0) l.pending;
  per_topic = add_to (loss_of topic count 0 0) l.per_topic;
}

unfoldable pub note_recorder_loss : String → ℕ → LossAccounting → LossAccounting
unfolding add64 add_to
note_recorder_loss topic count l = record {
  totals = record l.totals { lost_in_recorder = add64 l.totals.lost_in_recorder count };
  pending = add_to (loss_of topic 0 count 0) l.pending;
  per_topic = add_to (loss_of topic 0 count 0) l.per_topic;
}

-- The report, and the accounting that owes nothing any more.
unfoldable pub drain : LossAccounting → List TopicLoss × LossAccounting
drain l = (l.pending, record l { pending = [] })

unfoldable pub topic_totals : LossAccounting → List TopicLoss
topic_totals l = l.per_topic

-- Whether sequence numbers are available is kept.
unfoldable pub reset : LossAccounting → LossAccounting
reset l = record {
  totals = record no_totals { sequence_numbers_available = l.totals.sequence_numbers_available };
  pending = [];
  per_topic = [];
}
