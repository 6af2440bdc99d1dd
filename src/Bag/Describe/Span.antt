-- ===== src/Bag/Describe/Span.antt =====
-- The times of describe in packages/dynrec/dynrec/bag.py: the start and the end of the bag, and the
-- first and the last stamp of a channel.
use text.Mathlib.TextEquality.{eq_iff}
use rosbag2_dynamic_recorder.Base.{
  ℕ, ◌≡◌, refl, String, true, false, not, List, [], ◌∷◌, map, keep, All, All-imp, is_empty, leb,
  str_eq, arith, ◌≤◌,
}
use rosbag2_dynamic_recorder.Base.Members.{
  All-map_imp, All-of_map, All-and, All-keep, keep-All, if_either,
}
use rosbag2_dynamic_recorder.Base.Sort.{
  insert_by, sorted_by, All-sorted_by, IsSorted, sorted_by-IsSorted,
}
use rosbag2_dynamic_recorder.Discovery.{str_le}
use rosbag2_dynamic_recorder.Results.Events.{Event, EventMsg}
use rosbag2_dynamic_recorder.Bag.Report.{BagSummary, ChannelStats}
use rosbag2_dynamic_recorder.Bag.Describe.{
  Stamps, stamps_of, read_all, describe, describe_channel, Message, summarise, empty_summary,
  minimum, maximum, first_of, last_of, is_event_topic,
}
use rosbag2_dynamic_recorder.Bag.Describe.Counts.{has_stamps}

minimum-le : (vs : List ℕ) → All (λ v. minimum vs ≤ v) vs
minimum-le [] = tt
minimum-le (v ∷ []) = (omega arith, tt)
minimum-le (v ∷ w ∷ vs) =
    (ground arith, All-imp (w ∷ vs) (λ x h. ground arith) (minimum-le (w ∷ vs)))

le-maximum : (vs : List ℕ) → All (λ v. v ≤ maximum vs) vs
le-maximum [] = tt
le-maximum (v ∷ vs) = (ground arith, All-imp vs (λ x h. ground arith) (le-maximum vs))

-- There are stamps, and each lies from lo to hi.
abbrev Lies : ℕ → ℕ → List ℕ → Type 0
Lies lo hi vs = (is_empty vs ≡ false) × All (λ v. (lo ≤ v) × (v ≤ hi)) vs

-- The start and the end of the bag.
abbrev start_of : Stamps → ℕ
start_of populated = minimum (map (λ entry. minimum entry.1) populated)

abbrev end_of : Stamps → ℕ
end_of populated = maximum (map (λ entry. maximum entry.1) populated)

entries-Lies :
    (stamps : Stamps)
    → All
        (λ entry.
          Lies (start_of (keep has_stamps stamps)) (end_of (keep has_stamps stamps)) entry.1)
        (keep has_stamps stamps)
entries-Lies stamps =
    let populated = keep has_stamps stamps in
    let low =
      All-of_map (λ m. start_of populated ≤ m) (λ entry. minimum entry.1) populated
        (minimum-le (map (λ entry. minimum entry.1) populated)) in
    let high =
      All-of_map (λ m. m ≤ end_of populated) (λ entry. maximum entry.1) populated
        (le-maximum (map (λ entry. maximum entry.1) populated)) in
    All-imp populated
      (λ entry h. (
        ground (arith, h.1),
        All-imp entry.1 (λ v k. (omega (arith, h.0.0, k.0), omega (arith, h.0.1, k.1)))
            (All-and (λ v. minimum entry.1 ≤ v) (λ v. v ≤ maximum entry.1) entry.1
              (minimum-le entry.1) (le-maximum entry.1)),
      ))
      (All-and
        (λ entry. (start_of populated ≤ minimum entry.1) × (maximum entry.1 ≤ end_of populated))
        (λ entry. has_stamps entry ≡ true) populated
        (All-and (λ entry. start_of populated ≤ minimum entry.1)
          (λ entry. maximum entry.1 ≤ end_of populated) populated low high)
        (keep-All has_stamps stamps))

stamps_of-All :
    (Q : List ℕ → Type 0) (stamps : Stamps)
    → All (λ entry. Q entry.1) stamps
    → All (λ entry. Q (stamps_of entry.0 stamps)) stamps
stamps_of-All Q [] h = tt
stamps_of-All Q ((name, values) ∷ stamps) h = (
  rw ((eq_iff name name).1 refl) h.0,
  All-imp stamps
      (λ entry k. if_either Q (str_eq entry.0 name) values (stamps_of entry.0 stamps) h.0 k)
      (stamps_of-All Q stamps h.1),
)

first_of-All : (P : ℕ → Type 0) (vs : List ℕ) → is_empty vs ≡ false → All P vs → P (first_of vs)
first_of-All P [] e h = cc
first_of-All P (v ∷ vs) e h = h.0

last_of-All : (P : ℕ → Type 0) (vs : List ℕ) → is_empty vs ≡ false → All P vs → P (last_of vs)
last_of-All P [] e h = cc
last_of-All P (v ∷ []) e h = h.0
last_of-All P (v ∷ w ∷ vs) e h = last_of-All P (w ∷ vs) refl h.1

is_empty-insert_by : (v : ℕ) (vs : List ℕ) → is_empty (insert_by leb v vs) ≡ false
unfolding insert_by
is_empty-insert_by v [] = refl
is_empty-insert_by v (w ∷ vs) = ground arith

is_empty-sorted_by : (vs : List ℕ) → is_empty vs ≡ false → is_empty (sorted_by leb vs) ≡ false
unfolding sorted_by
is_empty-sorted_by [] e = e
is_empty-sorted_by (v ∷ vs) e = is_empty-insert_by v (sorted_by leb vs)

first_of-last_of : (vs : List ℕ) → IsSorted leb vs → first_of vs ≤ last_of vs
first_of-last_of [] h = omega arith
first_of-last_of (v ∷ vs) h =
    last_of-All (λ w. v ≤ w) (v ∷ vs) refl (omega arith, All-imp vs (λ w k. ground arith) h.0)

-- From the start to the end of the bag there are first the first and then the last stamp.
abbrev pub IsSpanned : ℕ → ℕ → ChannelStats → Type 0
IsSpanned start end c = (start ≤ c.first) × (c.first ≤ c.last) × (c.last ≤ end)

spanned :
    (start end : ℕ) (vs : List ℕ)
    → Lies start end vs
    → let values = sorted_by leb vs in
      (start ≤ first_of values) × (first_of values ≤ last_of values) × (last_of values ≤ end)
spanned start end vs h =
    let values = sorted_by leb vs in
    let inside = All-sorted_by leb (λ v. (start ≤ v) × (v ≤ end)) vs h.1 in
    let some_left = is_empty-sorted_by vs h.0 in
    (
      (first_of-All (λ v. (start ≤ v) × (v ≤ end)) values some_left inside).0,
      first_of-last_of values
          (sorted_by-IsSorted leb (λ x y e. ground arith) (λ x y z e k. ground arith) vs),
      (last_of-All (λ v. (start ≤ v) × (v ≤ end)) values some_left inside).1,
    )

module _ {Data : Type 0} (deserialize : String → Data → EventMsg) where
  summarise_spans :
      (uri : String) (types : List (String × String)) (stamps : Stamps) (events : List Event)
      → let summary = summarise deserialize uri types (keep has_stamps stamps) events in
        All (IsSpanned summary.start summary.end) summary.channels
  unfolding describe_channel
  summarise_spans uri types stamps events =
      let populated = keep has_stamps stamps in
      let start = start_of populated in
      let end = end_of populated in
      let listed =
        All-map_imp (λ entry. Lies start end (stamps_of entry.0 populated))
          (λ t. Lies start end (stamps_of t populated)) (λ entry. entry.0) (λ entry h. h) populated
          (stamps_of-All (Lies start end) populated (entries-Lies stamps)) in
      All-map_imp (λ t. Lies start end (stamps_of t populated)) (IsSpanned start end) _
        (λ t h. spanned start end (stamps_of t populated) h) _
        (All-sorted_by str_le (λ t. Lies start end (stamps_of t populated)) _
          (All-keep (λ t. Lies start end (stamps_of t populated))
            (λ t. not (is_event_topic types t)) _ listed))

  -- Every channel of the report has its first stamp no earlier than the start of the bag, its last
  -- stamp no earlier than the first, and none later than the end of the bag.
  pub describe_spans :
      (uri : String) (types : List (String × String)) (messages : List (Message deserialize))
      → let summary = describe deserialize uri types messages in
        All (IsSpanned summary.start summary.end) summary.channels
  unfolding describe
  describe_spans uri types messages =
      let result = read_all deserialize types (map (λ p. (p.0, [])) types, []) messages in
      if_either
        (λ (summary : BagSummary). All (IsSpanned summary.start summary.end) summary.channels)
        (is_empty (keep has_stamps result.0)) (empty_summary deserialize uri)
        (summarise deserialize uri types (keep has_stamps result.0) result.1) tt
        (summarise_spans uri types result.0 result.1)
