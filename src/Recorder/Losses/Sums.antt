-- ===== src/Recorder/Losses/Sums.antt =====
-- The figures of packages/rosbag2_dynamic_recorder/src/loss_accounting.cpp after any calls: what the totals,
-- the topics and the reports say together.
use text.Mathlib.TextEquality.{eq_iff}
use rosbag2_dynamic_recorder.Base.{
  ℕ, ◌+◌, ◌%◌, ◌≡◌, refl, ap, String, true, ltb, List, [], ◌∷◌, ◌++◌, arith, inl, inr, Bool-cases,
  str_eq, ◌∙◌, if◌then◌else◌,
}
use rosbag2_dynamic_recorder.Discovery.{str_le}
use rosbag2_dynamic_recorder.Recorder.Losses.{
  word, loss_of, find, add64, plus, TopicLoss, SequenceMap, LossAccounting, no_losses, add_to,
  gap_after, note_sequence, note_transport_loss, note_recorder_loss, drain, reset,
}

abbrev pub sum_of : (TopicLoss → ℕ) → List TopicLoss → ℕ
sum_of f [] = 0
sum_of f (loss ∷ losses) = f loss + sum_of f losses

sum_of-append :
    (f : TopicLoss → ℕ) (xs ys : List TopicLoss) → sum_of f (xs ++ ys) ≡ sum_of f xs + sum_of f ys
sum_of-append f [] ys = omega arith
sum_of-append f (x ∷ xs) ys = omega (arith, sum_of-append f xs ys)

-- Adding to a map adds to each figure's sum, whichever entry it goes to.
sum_of-add_to :
    (f : TopicLoss → ℕ)
    → ((a b : TopicLoss) → str_eq b.topic a.topic ≡ true → f (plus a b) ≡ (f a + f b) % word)
    → (more : TopicLoss) (losses : List TopicLoss)
    → sum_of f (add_to more losses) % word ≡ (sum_of f losses + f more) % word
unfolding add_to
sum_of-add_to f h more [] = ap (λ n. n % word) (omega arith)
sum_of-add_to f h more (entry ∷ entries) = elim (Bool-cases (str_eq more.topic entry.topic)) [
  | inl same ↦ rw same (omega (arith, h entry more same))
  | inr other ↦ rw other (elim (Bool-cases (str_le more.topic entry.topic)) [
    | inl before ↦ rw before (ap (λ n. n % word) (omega arith))
    | inr after ↦ rw after (omega (arith, sum_of-add_to f h more entries))
  ])
]

sum_of-missed :
    (more : TopicLoss) (losses : List TopicLoss)
    → sum_of (λ e. e.missed) (add_to more losses) % word
      ≡ (sum_of (λ e. e.missed) losses + more.missed) % word
sum_of-missed = sum_of-add_to (λ e. e.missed) (λ a b e. unfold add64 in refl)

sum_of-in_transport :
    (more : TopicLoss) (losses : List TopicLoss)
    → sum_of (λ e. e.in_transport) (add_to more losses) % word
      ≡ (sum_of (λ e. e.in_transport) losses + more.in_transport) % word
sum_of-in_transport = sum_of-add_to (λ e. e.in_transport) (λ a b e. unfold add64 in refl)

sum_of-in_recorder :
    (more : TopicLoss) (losses : List TopicLoss)
    → sum_of (λ e. e.in_recorder) (add_to more losses) % word
      ≡ (sum_of (λ e. e.in_recorder) losses + more.in_recorder) % word
sum_of-in_recorder = sum_of-add_to (λ e. e.in_recorder) (λ a b e. unfold add64 in refl)

-- The accounting, with the losses that were noted since the last reset and what the reports since then
-- have said. A sequence number is noted with the gap before it.
pub data Reached : LossAccounting → List TopicLoss → List TopicLoss → Type 0 where
  at_first : Reached no_losses [] []
  sequence_step :
      {l : LossAccounting} {noted reported : List TopicLoss} (seen : SequenceMap)
      (publisher : String) (sequence : ℕ) (topic : String)
      → Reached l noted reported
      → Reached
          (note_sequence seen publisher sequence topic l).1
          (loss_of topic 0 0 (gap_after (find publisher seen) sequence) ∷ noted)
          reported
  transport_step :
      {l : LossAccounting} {noted reported : List TopicLoss} (topic : String) (count : ℕ)
      → Reached l noted reported
      → Reached (note_transport_loss topic count l) (loss_of topic count 0 0 ∷ noted) reported
  recorder_step :
      {l : LossAccounting} {noted reported : List TopicLoss} (topic : String) (count : ℕ)
      → Reached l noted reported
      → Reached (note_recorder_loss topic count l) (loss_of topic 0 count 0 ∷ noted) reported
  drain_step :
      {l : LossAccounting} {noted reported : List TopicLoss}
      → Reached l noted reported
      → Reached (drain l).1 noted (reported ++ (drain l).0)
  reset_step :
      {l : LossAccounting} {noted reported : List TopicLoss}
      → Reached l noted reported
      → Reached (reset l) [] []

-- Each total is what was noted, the sum over the topics, and the sum over the reports with what the next
-- one is owed.
pub record HasTotals (l : LossAccounting) (noted reported : List TopicLoss) : Type 0 where
  pub missed_noted : l.totals.missed ≡ sum_of (λ e. e.missed) noted % word
  pub transport_noted : l.totals.lost_in_transport ≡ sum_of (λ e. e.in_transport) noted % word
  pub recorder_noted : l.totals.lost_in_recorder ≡ sum_of (λ e. e.in_recorder) noted % word
  pub missed_by_topic : l.totals.missed ≡ sum_of (λ e. e.missed) l.per_topic % word
  pub transport_by_topic :
      l.totals.lost_in_transport ≡ sum_of (λ e. e.in_transport) l.per_topic % word
  pub recorder_by_topic : l.totals.lost_in_recorder ≡ sum_of (λ e. e.in_recorder) l.per_topic % word
  pub transport_reported :
      l.totals.lost_in_transport
      ≡ (sum_of (λ e. e.in_transport) reported + sum_of (λ e. e.in_transport) l.pending) % word
  pub recorder_reported :
      l.totals.lost_in_recorder
      ≡ (sum_of (λ e. e.in_recorder) reported + sum_of (λ e. e.in_recorder) l.pending) % word

Reached-HasTotals :
    {l : LossAccounting} {noted reported : List TopicLoss}
    → Reached l noted reported
    → HasTotals l noted reported
unfolding note_sequence note_transport_loss note_recorder_loss drain reset add64
Reached-HasTotals at_first = omega arith
Reached-HasTotals (sequence_step {l} seen publisher sequence topic r) = ground (
  arith,
  Reached-HasTotals r,
  sum_of-missed (loss_of topic 0 0 (gap_after (find publisher seen) sequence)) l.per_topic,
  sum_of-in_transport (loss_of topic 0 0 (gap_after (find publisher seen) sequence)) l.per_topic,
  sum_of-in_recorder (loss_of topic 0 0 (gap_after (find publisher seen) sequence)) l.per_topic,
)
Reached-HasTotals (transport_step {l} topic count r) =
    let more = loss_of topic count 0 0 in
    omega (
      arith,
      Reached-HasTotals r,
      sum_of-missed more l.per_topic,
      sum_of-in_transport more l.per_topic,
      sum_of-in_recorder more l.per_topic,
      sum_of-in_transport more l.pending,
      sum_of-in_recorder more l.pending,
    )
Reached-HasTotals (recorder_step {l} topic count r) =
    let more = loss_of topic 0 count 0 in
    omega (
      arith,
      Reached-HasTotals r,
      sum_of-missed more l.per_topic,
      sum_of-in_transport more l.per_topic,
      sum_of-in_recorder more l.per_topic,
      sum_of-in_transport more l.pending,
      sum_of-in_recorder more l.pending,
    )
Reached-HasTotals (drain_step {l} {noted} {reported} r) = omega (
  arith,
  Reached-HasTotals r,
  sum_of-append (λ e. e.in_transport) reported l.pending,
  sum_of-append (λ e. e.in_recorder) reported l.pending,
)
Reached-HasTotals (reset_step r) = omega arith

-- A figure of one topic.
abbrev pub at_topic : (TopicLoss → ℕ) → String → TopicLoss → ℕ
at_topic f t e = if str_eq e.topic t then f e else 0

-- What the entries of a topic say is what was noted for it.
abbrev pub IsAttributed : LossAccounting → List TopicLoss → String → Type 0
IsAttributed l noted t =
    (sum_of (at_topic (λ e. e.missed) t) l.per_topic % word
      ≡ sum_of (at_topic (λ e. e.missed) t) noted % word)
    × (sum_of (at_topic (λ e. e.in_transport) t) l.per_topic % word
        ≡ sum_of (at_topic (λ e. e.in_transport) t) noted % word)
    × (sum_of (at_topic (λ e. e.in_recorder) t) l.per_topic % word
        ≡ sum_of (at_topic (λ e. e.in_recorder) t) noted % word)

at_topic-plus :
    (f : TopicLoss → ℕ)
    → ((a b : TopicLoss) → f (plus a b) ≡ (f a + f b) % word)
    → (t : String) (a b : TopicLoss) → str_eq b.topic a.topic ≡ true
    → at_topic f t (plus a b) ≡ (at_topic f t a + at_topic f t b) % word
unfolding plus
at_topic-plus f h t a b e =
    let same : str_eq b.topic t ≡ str_eq a.topic t =
      ap (λ topic. str_eq topic t) ((eq_iff b.topic a.topic).0 e) in
    rw same (elim (Bool-cases (str_eq a.topic t)) [
      | inl here ↦ rw here (h a b)
      | inr elsewhere ↦ rw elsewhere refl
    ])

-- Adding to a map adds to the figures of the topic that it is added for.
IsAttributed-add_to :
    (l l' : LossAccounting) (noted : List TopicLoss) (more : TopicLoss) (t : String)
    → l'.per_topic ≡ add_to more l.per_topic
    → IsAttributed l noted t
    → IsAttributed l' (more ∷ noted) t
IsAttributed-add_to l l' noted more t e h =
    let missed =
      sum_of-add_to (at_topic (λ x. x.missed) t)
        (at_topic-plus (λ x. x.missed) (λ a b. unfold add64 in refl) t) more l.per_topic in
    let transport =
      sum_of-add_to (at_topic (λ x. x.in_transport) t)
        (at_topic-plus (λ x. x.in_transport) (λ a b. unfold add64 in refl) t) more l.per_topic in
    let recorder =
      sum_of-add_to (at_topic (λ x. x.in_recorder) t)
        (at_topic-plus (λ x. x.in_recorder) (λ a b. unfold add64 in refl) t) more l.per_topic in
    rw e
      (missed ∙ omega (arith, h.0), transport ∙ omega (arith, h.1), recorder ∙ omega (arith, h.2))

Reached-IsAttributed :
    {l : LossAccounting} {noted reported : List TopicLoss} (t : String)
    → Reached l noted reported
    → IsAttributed l noted t
unfolding note_sequence note_transport_loss note_recorder_loss drain reset
Reached-IsAttributed t at_first = (refl, refl, refl)
Reached-IsAttributed t (sequence_step {l} {noted} seen publisher sequence topic r) =
    let gap = gap_after (find publisher seen) sequence in
    elim (Bool-cases (ltb 0 gap)) [
      | inl left_out ↦
          IsAttributed-add_to l (note_sequence seen publisher sequence topic l).1 noted
            (loss_of topic 0 0 gap) t (rw left_out refl) (Reached-IsAttributed t r)
      | inr next ↦ rw next (ground (arith, Reached-IsAttributed t r))
    ]
Reached-IsAttributed t (transport_step {l} {noted} topic count r) =
    IsAttributed-add_to l (note_transport_loss topic count l) noted (loss_of topic count 0 0) t refl
      (Reached-IsAttributed t r)
Reached-IsAttributed t (recorder_step {l} {noted} topic count r) =
    IsAttributed-add_to l (note_recorder_loss topic count l) noted (loss_of topic 0 count 0) t refl
      (Reached-IsAttributed t r)
Reached-IsAttributed t (drain_step r) = Reached-IsAttributed t r
Reached-IsAttributed t (reset_step r) = (refl, refl, refl)

-- The totals, and the figures of every topic.
abbrev pub IsBalanced : LossAccounting → List TopicLoss → List TopicLoss → Type 0
IsBalanced l noted reported = HasTotals l noted reported × ((t : String) → IsAttributed l noted t)

-- Whatever is noted, drained and reset, each total is, up to the wrap of uint64, the number of the
-- messages that were noted since the last reset, as lost on the way, as lost in the recorder or as a gap
-- in the sequence numbers, and each figure of a topic is the number of those that were noted for it; a
-- total is the sum of its figure over the topics of the bag; and what was lost on the way or in the
-- recorder is the sum over the reports of this bag and what is owed to the next one.
pub Reached-IsBalanced :
    {l : LossAccounting} {noted reported : List TopicLoss}
    → Reached l noted reported
    → IsBalanced l noted reported
Reached-IsBalanced r = (Reached-HasTotals r, λ t. Reached-IsAttributed t r)
