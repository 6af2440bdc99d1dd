-- ===== src/Bag/Windows/Cover.antt =====
-- What merge_windows and intersect_windows of packages/dynrec/dynrec/bag.py cover.
use mathlib.Core.List.{reverse, reverse-cons, append_assoc}
use rosbag2_dynamic_recorder.Base.{
  ℕ, ◌≤◌, ◌<◌, ◌≡◌, refl, ◌∙◌, true, false, ◌&&◌, ◌||◌, List, [], ◌∷◌, ◌++◌, map, max, leb, keep,
  All, All-imp, inl, inr, Bool-cases, ltb→lt, arith, if◌then◌else◌,
}
use rosbag2_dynamic_recorder.Base.Members.{keep-All}
use rosbag2_dynamic_recorder.Base.Sort.{
  sorted_by, IsSorted, any-sorted_by, sorted_by-IsSorted, All-sorted_by,
}
use rosbag2_dynamic_recorder.Bag.Windows.{
  Window, window_le, is_nonempty, merge_loop, merge_windows, meet, meets, intersect_windows, covers,
  covered,
}

-- The loop as a recursion that gives the windows from the last one on.
unfoldable pub merge_from : Window → List Window → List Window
merge_from last [] = last ∷ []
merge_from (s, e) ((a, b) ∷ ws) =
    let joined = merge_from (s, max e b) ws in
    let apart = (s, e) ∷ merge_from (a, b) ws in if leb a e then joined else apart

abbrev pub merge_rec : List Window → List Window
merge_rec [] = []
merge_rec (w ∷ ws) = merge_from w ws

merge_loop-merge_from :
    (last : Window) (merged ws : List Window)
    → merge_loop (last ∷ merged) ws ≡ reverse merged ++ merge_from last ws
unfolding merge_from
merge_loop-merge_from last merged [] = reverse-cons last merged
merge_loop-merge_from (s, e) merged ((a, b) ∷ ws) = elim (Bool-cases (leb a e)) [
  | inl joins ↦ rw (joins, merge_from) (merge_loop-merge_from (s, max e b) merged ws)
  | inr parts ↦
      rw (parts, merge_from)
        (merge_loop-merge_from (a, b) ((s, e) ∷ merged) ws ∙ (rw (reverse-cons, append_assoc)))
]

-- Later in the order than its start, and not empty.
abbrev pub Follows : ℕ → Window → Type 0
Follows s w = (s ≤ w.0) × (w.0 < w.1)

pub covered-append :
    (xs ys : List Window) (t : ℕ) → covered (xs ++ ys) t ≡ (covered xs t || covered ys t)
covered-append [] ys t = refl
covered-append (x ∷ xs) ys t = ground (arith, covered-append xs ys t)

Follows-of_le :
    (v : Window) (s : ℕ) (ws : List Window)
    → All (λ w. window_le v w ≡ true) ws
    → All (Follows s) ws
    → All (Follows v.0) ws
Follows-of_le v s [] l f = tt
Follows-of_le v s (w ∷ ws) l f = (ground arith, Follows-of_le v s ws l.1 f.1)

merge_from-covers :
    (w : Window) (ws : List Window) (t : ℕ)
    → w.0 < w.1
    → All (Follows w.0) ws
    → IsSorted window_le ws
    → covered (merge_from w ws) t ≡ (covers w t || covered ws t)
unfolding merge_from
merge_from-covers w [] t p f s = refl
merge_from-covers (s, e) ((a, b) ∷ ws) t p f o =
    let later = Follows-of_le (a, b) s ws o.0 f.1 in
    ground (
      arith,
      merge_from-covers (s, max e b) ws t (omega arith) f.1 o.1,
      merge_from-covers (a, b) ws t f.0.1 later o.1,
    )

covered-keep : (ws : List Window) (t : ℕ) → covered (keep is_nonempty ws) t ≡ covered ws t
covered-keep [] t = refl
covered-keep ((a, b) ∷ ws) t = ground (arith, covered-keep ws t)

covered-meet : (v w : Window) (t : ℕ) → covers (meet v w) t ≡ (covers v t && covers w t)
covered-meet v w t = ground arith

covered-map-meet :
    (v : Window) (ws : List Window) (t : ℕ)
    → covered (map (meet v) ws) t ≡ (covers v t && covered ws t)
covered-map-meet v [] t = ground arith
covered-map-meet v (w ∷ ws) t = ground (arith, covered-meet v w t, covered-map-meet v ws t)

covered-meets :
    (vs ws : List Window) (t : ℕ) → covered (meets vs ws) t ≡ (covered vs t && covered ws t)
covered-meets [] ws t = refl
covered-meets (v ∷ vs) ws t = ground (
  arith,
  covered-append (map (meet v) ws) (meets vs ws) t,
  covered-map-meet v ws t,
  covered-meets vs ws t,
)

window_le-total : (v w : Window) → window_le v w ≡ false → window_le w v ≡ true
window_le-total v w h = ground arith

window_le_trans :
    (u v w : Window) → window_le u v ≡ true → window_le v w ≡ true → window_le u w ≡ true
window_le_trans u v w h k = ground arith

-- The windows that the loop runs over.
pub in_order : List Window → List Window
in_order ws = sorted_by window_le (keep is_nonempty ws)

pub in_order-IsSorted : (ws : List Window) → IsSorted window_le (in_order ws)
unfolding in_order
in_order-IsSorted ws =
    sorted_by-IsSorted window_le window_le-total window_le_trans (keep is_nonempty ws)

pub in_order-nonempty : (ws : List Window) → All (λ w. w.0 < w.1) (in_order ws)
unfolding in_order
in_order-nonempty ws =
    All-sorted_by window_le (λ w. w.0 < w.1) (keep is_nonempty ws)
      (All-imp (keep is_nonempty ws) (λ w h. ltb→lt w.0 w.1 h) (keep-All is_nonempty ws))

-- The first of a list in order starts before the others.
pub Follows-head :
    (w : Window) (ws : List Window)
    → All (λ v. v.0 < v.1) ws
    → All (λ v. window_le w v ≡ true) ws
    → All (Follows w.0) ws
Follows-head w [] n l = tt
Follows-head w (v ∷ ws) n l = (ground arith, Follows-head w ws n.1 l.1)

pub merge_windows-merge_rec : (ws : List Window) → merge_windows ws ≡ merge_rec (in_order ws)
unfolding merge_windows in_order
merge_windows-merge_rec ws = go (sorted_by window_le (keep is_nonempty ws))
  where
    go : (vs : List Window) → merge_loop [] vs ≡ merge_rec vs
    go [] = refl
    go (v ∷ vs) = merge_loop-merge_from v [] vs

covered-merge_rec :
    (ws : List Window) (t : ℕ)
    → All (λ w. w.0 < w.1) ws
    → IsSorted window_le ws
    → covered (merge_rec ws) t ≡ covered ws t
covered-merge_rec [] t n o = refl
covered-merge_rec (w ∷ ws) t n o = merge_from-covers w ws t n.0 (Follows-head w ws n.1 o.0) o.1

-- Merging windows keeps the times that they cover: a time is in a merged window exactly when it is
-- in one of the windows given.
pub covered-merge_windows : (ws : List Window) (t : ℕ) → covered (merge_windows ws) t ≡ covered ws t
unfolding in_order
covered-merge_windows ws t = rw (merge_windows-merge_rec ws) (
    covered-merge_rec (in_order ws) t (in_order-nonempty ws) (in_order-IsSorted ws)
    ∙ any-sorted_by window_le (λ w. covers w t) (keep is_nonempty ws)
    ∙ covered-keep ws t)

-- The intersection of two sets of windows covers exactly the times that both cover.
pub covered-intersect_windows :
    (vs ws : List Window) (t : ℕ)
    → covered (intersect_windows vs ws) t ≡ (covered vs t && covered ws t)
unfolding intersect_windows
covered-intersect_windows vs ws t = covered-merge_windows (meets vs ws) t ∙ covered-meets vs ws t
