-- ===== src/Bag/Windows.antt =====
-- The interval arithmetic of packages/dynrec/dynrec/bag.py: merge_windows, intersect_windows,
-- overlap. A window is the pair of its start and its end, and covers the times from the start up to,
-- not including, the end.
pub mod Cover
pub mod Normal
use mathlib.Core.List.{reverse, flatten}
use rosbag2_dynamic_recorder.Base.{
  ℕ, ◌-◌, ◌==◌, Bool, true, false, ◌&&◌, ◌||◌, List, [], ◌∷◌, ◌++◌, map, min, max, ltb, leb, keep,
  any, if◌then◌else◌,
}
use rosbag2_dynamic_recorder.Base.Sort.{sorted_by}

abbrev pub Window : Type 0
Window = ℕ × ℕ

-- Python's order of tuples: by the start, then by the end.
abbrev pub window_le : Window → Window → Bool
window_le (a, b) (c, d) = ltb a c || (a == c && leb b d)

abbrev pub is_nonempty : Window → Bool
is_nonempty (a, b) = ltb a b

-- One round of the loop. `merged` is kept with its last window in front.
abbrev pub merge_step : List Window → Window → List Window
merge_step [] w = w ∷ []
merge_step ((s, e) ∷ merged) (start, end) =
    if leb start e then (s, max e end) ∷ merged else (start, end) ∷ (s, e) ∷ merged

abbrev pub merge_loop : List Window → List Window → List Window
merge_loop merged [] = reverse merged
merge_loop merged (w ∷ ws) = merge_loop (merge_step merged w) ws

unfoldable pub merge_windows : List Window → List Window
merge_windows windows = merge_loop [] (sorted_by window_le (keep is_nonempty windows))

abbrev pub meet : Window → Window → Window
meet (a, b) (c, d) = (max a c, min b d)

-- `(max(...), min(...)) for a in first for b in second`
abbrev pub meets : List Window → List Window → List Window
meets [] second = []
meets (a ∷ first) second = map (meet a) second ++ meets first second

unfoldable pub intersect_windows : List Window → List Window → List Window
unfolding merge_windows
intersect_windows first second = merge_windows (meets first second)

-- `max(0.0, …)` is the subtraction of ℕ, which stops at 0.
unfoldable pub overlap : Window → Window → ℕ
overlap first second = min first.1 second.1 - max first.0 second.0

-- A time lies in a window, and in one of several.
abbrev pub covers : Window → ℕ → Bool
covers (a, b) t = leb a t && ltb t b

abbrev pub covered : List Window → ℕ → Bool
covered ws t = any (λ w. covers w t) ws
