-- ===== src/Bag/Gaps.antt =====
-- gaps_in and unexplained_gaps of packages/dynrec/dynrec/bag.py: holes in the messages of a channel,
-- and those that all channels share and no pause accounts for.
pub mod Consecutive
pub mod Shared
use rosbag2_dynamic_recorder.Base.{
  ℕ, ◌-◌, ◌*◌, Bool, not, ◌&&◌, List, [], ◌∷◌, leb, ltb, keep, any, is_empty, if◌then◌else◌,
}
use rosbag2_dynamic_recorder.Base.Sort.{sorted_by}
use rosbag2_dynamic_recorder.Bag.Windows.{Window, merge_windows, intersect_windows, overlap}

abbrev pub unexplained_gap_nanoseconds : ℕ
unexplained_gap_nanoseconds = 1_000_000_000

-- `[(a, b) for a, b in zip(ordered, ordered[1:]) if b - a >= threshold]`
abbrev pub long_steps : ℕ → List ℕ → List Window
long_steps threshold [] = []
long_steps threshold (a ∷ []) = []
long_steps threshold (a ∷ b ∷ stamps) =
    let steps = long_steps threshold (b ∷ stamps) in
    if leb threshold (b - a) then (a, b) ∷ steps else steps

unfoldable pub gaps_in : List ℕ → ℕ → List Window
gaps_in stamps threshold = long_steps threshold (sorted_by leb stamps)

-- The loop over the channels after the first, with its early return of no gaps.
unfoldable pub share : List Window → List (List Window) → List Window
share shared [] = shared
share shared (gaps ∷ rest) =
    let next = intersect_windows shared gaps in
    let later = share next rest in if is_empty next then [] else later

-- `overlap(window, p) > (window[1] - window[0]) / 2`
abbrev pub explains : Window → Window → Bool
explains (a, b) p = ltb (b - a) (2 * overlap (a, b) p)

abbrev pub is_unexplained : List Window → ℕ → Window → Bool
is_unexplained pauses threshold (a, b) = leb threshold (b - a) && not (any (explains (a, b)) pauses)

unfoldable pub unexplained_gaps : List (List Window) → List Window → ℕ → List Window
unfolding share
unexplained_gaps [] pauses threshold = []
unexplained_gaps (gaps ∷ channel_gaps) pauses threshold =
    keep (is_unexplained (merge_windows pauses) threshold) (share (merge_windows gaps) channel_gaps)
