-- ===== src/Bag/Live.antt =====
-- live_seconds and rate_over of packages/dynrec/dynrec/bag.py: how long a channel was live, and its
-- rate over that time.
use rosbag2_dynamic_recorder.Base.{
  ℕ, ◌+◌, ◌-◌, ◌≤◌, ◌<◌, ◌≡◌, refl, sym, ap, ◌∙◌, true, false, not, ◌&&◌, Option, none, some, List,
  [], ◌∷◌, min, max, leb, All, arith, if◌then◌else◌,
}
use rosbag2_dynamic_recorder.Base.Int.{ℤ, pos, pos_part, sub_ℕ, ◌+ℤ◌, pos-+ℤ-pos}
use rosbag2_dynamic_recorder.Base.Count.{
  count_below, count_below-cong, count_below-or, count_below-none, count_below-split,
  count_below-interval,
}
use rosbag2_dynamic_recorder.Bag.Windows.{Window, merge_windows, overlap, covers, covered}
use rosbag2_dynamic_recorder.Bag.Windows.Cover.{covered-merge_windows}
use rosbag2_dynamic_recorder.Bag.Windows.Normal.{IsNormal, not-covered, merge_windows-IsNormal}

-- `sum(overlap((start, end), p) for p in pauses)`
abbrev pub paused_in : Window → List Window → ℕ
paused_in w [] = 0
paused_in w (p ∷ pauses) = overlap w p + paused_in w pauses

-- `sum((end - start) - … for start, end in windows)`, which is signed.
abbrev pub live_total : List Window → List Window → ℤ
live_total [] pauses = pos 0
live_total ((start, end) ∷ windows) pauses =
    sub_ℕ end (start + paused_in (start, end) pauses) +ℤ live_total windows pauses

-- `max(0.0, total)`, in nanoseconds.
unfoldable pub live_seconds : List Window → List Window → ℕ
unfolding merge_windows
live_seconds windows pauses = pos_part (live_total (merge_windows windows) (merge_windows pauses))

-- A rate: so many messages in so many nanoseconds.
pub record Rate : Type 0 where
  pub messages : ℕ
  pub nanoseconds : ℕ

unfoldable pub rate_over : ℕ → Option ℕ → Option Rate
rate_over count none = none
rate_over count (some time) =
    if leb time 0 then none else some (record { messages = count; nanoseconds = time })

-- Every window ends by the time.
abbrev pub EndsBy : ℕ → List Window → Type 0
EndsBy n ws = All (λ w. w.1 ≤ n) ws

-- The first window and the later ones share no time.
disjoint :
    (w : Window) (ws : List Window)
    → IsNormal (w ∷ ws)
    → (t : ℕ) → covers w t ≡ true
    → covered ws t ≡ false
disjoint w ws h t c = ground (arith, not-covered w.1 t ws h.1 h.2)

module _ (n : ℕ) where
  overlap-count :
      (w p : Window) → w.1 ≤ n → overlap w p ≡ count_below n (λ t. covers w t && covers p t)
  unfolding overlap
  overlap-count w p h =
      sym (count_below-interval n (max w.0 p.0) (min w.1 p.1) (omega arith))
      ∙ count_below-cong n _ _ (λ t. ground arith)

  -- Pauses that do not overlap one another are counted once each.
  paused_in-count :
      (w : Window) (ps : List Window)
      → w.1 ≤ n
      → IsNormal ps
      → paused_in w ps ≡ count_below n (λ t. covers w t && covered ps t)
  paused_in-count w [] h normal = sym (count_below-none n _ (λ t. ground arith))
  paused_in-count w (p ∷ ps) h normal =
      rw (overlap-count w p h, paused_in-count w ps h normal.2)
        (sym (
            count_below-or n (λ t. covers w t && covers p t) (λ t. covers w t && covered ps t)
              (λ t e. ground (arith, disjoint p ps normal t)))
          ∙ count_below-cong n _ _ (λ t. ground arith))

  window-count :
      (w : Window) (ps : List Window)
      → w.0 ≤ w.1
      → w.1 ≤ n
      → IsNormal ps
      → sub_ℕ w.1 (w.0 + paused_in w ps)
        ≡ pos (count_below n (λ t. covers w t && not (covered ps t)))
  window-count w ps p h normal = ground (
    arith,
    paused_in-count w ps h normal,
    count_below-interval n w.0 w.1 h,
    count_below-split n (covers w) (covered ps),
  )

  live_total-count :
      (ws ps : List Window)
      → EndsBy n ws
      → IsNormal ws
      → IsNormal ps
      → live_total ws ps ≡ pos (count_below n (λ t. covered ws t && not (covered ps t)))
  live_total-count [] ps b nw np = ap pos (sym (count_below-none n _ (λ t. refl)))
  live_total-count (w ∷ ws) ps b nw np =
      rw (window-count w ps (omega arith) b.0 np, live_total-count ws ps b.1 nw.2 np)
        (pos-+ℤ-pos _ _
          ∙ ap pos (
              sym (
                count_below-or n (λ t. covers w t && not (covered ps t))
                  (λ t. covered ws t && not (covered ps t))
                  (λ t e. ground (arith, disjoint w ws nw t)))
              ∙ count_below-cong n _ _ (λ t. ground arith)))

-- The merged windows end no later than those that were merged.
pub covered-EndsBy : (n : ℕ) (ws : List Window) (t : ℕ) → EndsBy n ws → covered ws t ≡ true → t < n
covered-EndsBy n [] t b c = cc
covered-EndsBy n (w ∷ ws) t b c = ground (arith, covered-EndsBy n ws t b.1)

pub EndsBy-of_covered :
    (n : ℕ) (ws : List Window) → IsNormal ws → ((t : ℕ) → covered ws t ≡ true → t < n) → EndsBy n ws
EndsBy-of_covered n [] h c = tt
EndsBy-of_covered n (w ∷ ws) h c =
    (ground (arith, c (w.1 - 1)), EndsBy-of_covered n ws h.2 (λ t e. c t (ground arith)))

pub merge_windows-EndsBy : (n : ℕ) (ws : List Window) → EndsBy n ws → EndsBy n (merge_windows ws)
merge_windows-EndsBy n ws b =
    EndsBy-of_covered n (merge_windows ws) (merge_windows-IsNormal ws)
      (λ t c. covered-EndsBy n ws t b (sym (covered-merge_windows ws t) ∙ c))

-- The live time of windows that end by n is the number of nanoseconds below n that lie in a window
-- and in no pause, each counted once, however the windows and the pauses overlap.
pub live_seconds-count :
    (n : ℕ) (windows pauses : List Window)
    → EndsBy n windows
    → live_seconds windows pauses ≡ count_below n (λ t. covered windows t && not (covered pauses t))
unfolding live_seconds
live_seconds-count n windows pauses b =
    ap pos_part (
      live_total-count n (merge_windows windows) (merge_windows pauses)
        (merge_windows-EndsBy n windows b) (merge_windows-IsNormal windows)
        (merge_windows-IsNormal pauses))
    ∙ count_below-cong n _ _
        (λ t. ground (arith, covered-merge_windows windows t, covered-merge_windows pauses t))
