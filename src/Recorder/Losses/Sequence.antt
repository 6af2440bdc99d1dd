-- ===== src/Recorder/Losses/Sequence.antt =====
-- The gaps that packages/rosbag2_dynamic_recorder/src/loss_accounting.cpp finds in the sequence numbers of a
-- publisher.
use text.Mathlib.TextEquality.{eq_iff}
use rosbag2_dynamic_recorder.Base.{
  ℕ, ◌+◌, ◌-◌, ◌%◌, ◌<◌, ◌≤◌, ◌≡◌, refl, ap, String, some, List, [], ◌∷◌, length, arith, inl, inr,
  Bool-cases, str_eq,
}
use rosbag2_dynamic_recorder.Recorder.Losses.{
  word, add_to, add64, sub64, SequenceMap, LossAccounting, find, assign, gap_after, note_sequence,
}

-- The messages of one publisher on one subscription, one after the other.
unfoldable pub note_all :
    SequenceMap → String → List ℕ → String → LossAccounting → SequenceMap × LossAccounting
unfolding note_sequence
note_all seen publisher [] topic l = (seen, l)
note_all seen publisher (sequence ∷ sequences) topic l =
    let (seen', l') = note_sequence seen publisher sequence topic l in
    note_all seen' publisher sequences topic l'

-- Each number is greater than the one before.
abbrev pub IsRising : ℕ → List ℕ → Type 0
IsRising previous [] = previous < word
IsRising previous (sequence ∷ sequences) = (previous < sequence) × IsRising sequence sequences

abbrev pub last_after : ℕ → List ℕ → ℕ
last_after previous [] = previous
last_after previous (sequence ∷ sequences) = last_after sequence sequences

find-assign :
    (publisher : String) (sequence : ℕ) (seen : SequenceMap)
    → find publisher (assign publisher sequence seen) ≡ some sequence
unfolding find assign
find-assign publisher sequence [] = rw ((eq_iff publisher publisher).1 refl)
find-assign publisher sequence ((name, other) ∷ seen) = elim (Bool-cases (str_eq publisher name)) [
  | inl same ↦ rw same (rw same)
  | inr new ↦ rw new (rw new (find-assign publisher sequence seen))
]

IsRising-lt : (previous : ℕ) (sequences : List ℕ) → IsRising previous sequences → previous < word
IsRising-lt previous [] h = h
IsRising-lt previous (sequence ∷ sequences) h =
    omega (arith, IsRising-lt sequence sequences h.1, h.0)

last_after-le :
    (previous : ℕ) (sequences : List ℕ)
    → IsRising previous sequences
    → previous + length sequences ≤ last_after previous sequences
last_after-le previous [] h = omega arith
last_after-le previous (sequence ∷ sequences) h =
    omega (arith, last_after-le sequence sequences h.1, h.0)

gap_after-above :
    (previous sequence : ℕ)
    → previous < sequence
    → sequence < word
    → gap_after (some previous) sequence ≡ sequence - previous - 1
unfolding gap_after add64 sub64
gap_after-above previous sequence above below = ground arith

missed-note_sequence :
    (seen : SequenceMap) (publisher : String) (previous sequence : ℕ) (topic : String)
    (l : LossAccounting)
    → find publisher seen ≡ some previous
    → previous < sequence
    → sequence < word
    → (note_sequence seen publisher sequence topic l).1.totals.missed % word
      ≡ (l.totals.missed + (sequence - previous - 1)) % word
unfolding note_sequence add64 add_to
missed-note_sequence seen publisher previous sequence topic l found above below =
    rw found (rw (gap_after-above previous sequence above below) (ground arith))

seen-note_sequence :
    (seen : SequenceMap) (publisher : String) (sequence : ℕ) (topic : String) (l : LossAccounting)
    → find publisher (note_sequence seen publisher sequence topic l).0 ≡ some sequence
unfolding note_sequence
seen-note_sequence seen publisher sequence topic l = find-assign publisher sequence seen

-- Where the messages of a publisher that arrive have rising numbers, what is counted as missed is
-- exactly, up to the wrap of uint64, how many numbers between the first and the last of them did not
-- arrive.
pub missed-note_all :
    (seen : SequenceMap) (publisher : String) (previous : ℕ) (sequences : List ℕ) (topic : String)
    (l : LossAccounting)
    → find publisher seen ≡ some previous
    → IsRising previous sequences
    → (note_all seen publisher sequences topic l).1.totals.missed % word
      ≡ (l.totals.missed + (last_after previous sequences - previous - length sequences)) % word
unfolding note_all
missed-note_all seen publisher previous [] topic l found h = ap (λ n. n % word) (omega arith)
missed-note_all seen publisher previous (sequence ∷ sequences) topic l found h = omega (
  arith,
  h.0,
  last_after-le sequence sequences h.1,
  missed-note_sequence seen publisher previous sequence topic l found h.0
      (IsRising-lt sequence sequences h.1),
  missed-note_all (note_sequence seen publisher sequence topic l).0 publisher sequence sequences
      topic (note_sequence seen publisher sequence topic l).1
      (seen-note_sequence seen publisher sequence topic l) h.1,
)
