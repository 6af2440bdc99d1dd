-- ===== src/Bag/Gaps/Shared.antt =====
-- What unexplained_gaps of packages/dynrec/dynrec/bag.py reports.
use rosbag2_dynamic_recorder.Base.{
  ℕ, ◌-◌, ◌*◌, ◌≤◌, ◌<◌, ◌≡◌, refl, ◌∙◌, Bool, true, false, ◌&&◌, List, [], ◌∷◌, leb, keep, any,
  is_empty, All, inl, inr, Bool-cases, arith,
}
use rosbag2_dynamic_recorder.Bag.Windows.{
  Window, merge_windows, intersect_windows, overlap, covers, covered,
}
use rosbag2_dynamic_recorder.Bag.Windows.Cover.{covered-merge_windows, covered-intersect_windows}
use rosbag2_dynamic_recorder.Bag.Windows.Normal.{
  IsNormal, merge_windows-IsNormal, merge_windows_of_IsNormal, intersect_windows-IsNormal,
  not-covered,
}
use rosbag2_dynamic_recorder.Bag.Gaps.{explains, is_unexplained, share, unexplained_gaps}

-- Every channel has a gap at the time.
abbrev pub all_covered : List (List Window) → ℕ → Bool
all_covered [] t = true
all_covered (gaps ∷ channel_gaps) t = covered gaps t && all_covered channel_gaps t

covered_empty : (ws : List Window) (t : ℕ) → is_empty ws ≡ true → covered ws t ≡ false
covered_empty [] t h = refl
covered_empty (w ∷ ws) t h = cc

covered-share :
    (shared : List Window) (channel_gaps : List (List Window)) (t : ℕ)
    → covered (share shared channel_gaps) t ≡ (covered shared t && all_covered channel_gaps t)
unfolding share
covered-share shared [] t = ground arith
covered-share shared (gaps ∷ channel_gaps) t =
    elim (Bool-cases (is_empty (intersect_windows shared gaps))) [
      | inl none_left ↦ rw none_left (
          ground (
            arith,
            covered_empty (intersect_windows shared gaps) t none_left,
            covered-intersect_windows shared gaps t,
          ))
      | inr some_left ↦ rw some_left (
          covered-share (intersect_windows shared gaps) channel_gaps t
          ∙ (ground (arith, covered-intersect_windows shared gaps t)))
    ]

share-IsNormal :
    (shared : List Window) (channel_gaps : List (List Window))
    → IsNormal shared
    → IsNormal (share shared channel_gaps)
unfolding share
share-IsNormal shared [] n = n
share-IsNormal shared (gaps ∷ channel_gaps) n =
    elim (Bool-cases (is_empty (intersect_windows shared gaps))) [
      | inl none_left ↦ rw none_left tt
      | inr some_left ↦ rw some_left (
          share-IsNormal (intersect_windows shared gaps) channel_gaps
            (intersect_windows-IsNormal shared gaps))
    ]

covered-keep_le :
    (p : Window → Bool) (ws : List Window) (t : ℕ)
    → covered (keep p ws) t ≡ true
    → covered ws t ≡ true
covered-keep_le p [] t h = h
covered-keep_le p (w ∷ ws) t h = ground (arith, covered-keep_le p ws t)

-- Every time in a reported hole lies in a gap of every channel.
pub unexplained_gaps-shared :
    (channel_gaps : List (List Window)) (pauses : List Window) (threshold t : ℕ)
    → covered (unexplained_gaps channel_gaps pauses threshold) t ≡ true
    → all_covered channel_gaps t ≡ true
unfolding unexplained_gaps
unexplained_gaps-shared [] pauses threshold t h = refl
unexplained_gaps-shared (gaps ∷ channel_gaps) pauses threshold t h = ground (
  arith,
  covered-keep_le _ (share (merge_windows gaps) channel_gaps) t h,
  covered-share (merge_windows gaps) channel_gaps t,
  covered-merge_windows gaps t,
)

-- A reported hole is as long as the threshold, and no pause fills more than half of it.
abbrev pub IsReportable : List Window → ℕ → Window → Type 0
IsReportable pauses threshold w =
    (threshold ≤ w.1 - w.0) × All (λ p. 2 * overlap w p ≤ w.1 - w.0) pauses

not_explained :
    (w : Window) (pauses : List Window)
    → any (explains w) pauses ≡ false
    → All (λ p. 2 * overlap w p ≤ w.1 - w.0) pauses
not_explained w [] h = tt
not_explained w (p ∷ pauses) h = ground (arith, not_explained w pauses)

keep-IsReportable :
    (pauses : List Window) (threshold : ℕ) (ws : List Window)
    → All (IsReportable pauses threshold) (keep (is_unexplained pauses threshold) ws)
keep-IsReportable pauses threshold [] = tt
keep-IsReportable pauses threshold (w ∷ ws) =
    elim (Bool-cases (is_unexplained pauses threshold w)) [
      | inl kept ↦ rw kept (
        (ground arith, not_explained w pauses (ground arith)),
        keep-IsReportable pauses threshold ws,
      )
      | inr dropped ↦ rw dropped (keep-IsReportable pauses threshold ws)
    ]

-- Every reported hole is as long as the threshold, and none is filled to more than half by one of
-- the merged pauses.
unexplained_gaps-IsReportable :
    (channel_gaps : List (List Window)) (pauses : List Window) (threshold : ℕ)
    → All
        (IsReportable (merge_windows pauses) threshold)
        (unexplained_gaps channel_gaps pauses threshold)
unfolding unexplained_gaps
unexplained_gaps-IsReportable [] pauses threshold = tt
unexplained_gaps-IsReportable (gaps ∷ channel_gaps) pauses threshold =
    keep-IsReportable (merge_windows pauses) threshold (share (merge_windows gaps) channel_gaps)

-- A span of covered times lies in one window of a normal list.
abbrev holds : ℕ → ℕ → Window → Bool
holds a b w = leb w.0 a && leb b w.1

one_window :
    (a b : ℕ) (ws : List Window)
    → a < b
    → IsNormal ws
    → ((t : ℕ) → covers (a, b) t ≡ true → covered ws t ≡ true)
    → any (holds a b) ws ≡ true
one_window a b [] h n c = ground (arith, c a)
one_window a b (w ∷ ws) h n c = elim (Bool-cases (covers w a)) [
  | inl starts ↦ ground (arith, c w.1, not-covered w.1 w.1 ws n.1 n.2)
  | inr later ↦
      let past : w.1 < a = ground (arith, c a, not-covered w.1 a ws n.1 n.2) in
      ground (arith, one_window a b ws h n.2 (λ t k. ground (arith, c t k)))
]

covered-keep_unexplained :
    (threshold a b t : ℕ) (ws : List Window)
    → threshold ≤ b - a
    → any (holds a b) ws ≡ true
    → covers (a, b) t ≡ true
    → covered (keep (is_unexplained [] threshold) ws) t ≡ true
covered-keep_unexplained threshold a b t [] h e c = e
covered-keep_unexplained threshold a b t (w ∷ ws) h e c =
    ground (arith, covered-keep_unexplained threshold a b t ws h)

-- Without pauses no hole is missed: where every channel has a gap throughout a span as long as the
-- threshold, every time of the span is in a reported hole.
pub unexplained_gaps_complete :
    (gaps : List Window) (channel_gaps : List (List Window)) (threshold a b t : ℕ)
    → threshold ≤ b - a
    → ((u : ℕ) → covers (a, b) u ≡ true → all_covered (gaps ∷ channel_gaps) u ≡ true)
    → covers (a, b) t ≡ true
    → covered (unexplained_gaps (gaps ∷ channel_gaps) [] threshold) t ≡ true
unfolding unexplained_gaps
unexplained_gaps_complete gaps channel_gaps threshold a b t h c k =
    let shared = share (merge_windows gaps) channel_gaps in
    rw (merge_windows_of_IsNormal [] tt) (
      covered-keep_unexplained threshold a b t shared h
        (one_window a b shared (ground arith)
          (share-IsNormal (merge_windows gaps) channel_gaps (merge_windows-IsNormal gaps))
          (λ u l. ground (
            arith,
            c u l,
            covered-share (merge_windows gaps) channel_gaps u,
            covered-merge_windows gaps u,
          )))
        k)
