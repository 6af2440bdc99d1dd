-- ===== src/Bag/Windows/Normal.antt =====
-- merge_windows of packages/dynrec/dynrec/bag.py gives a normal form of the times covered.
use mathlib.Core.Quot
use mathlib.Core.Quot.{Quot, Quot-set}
use native.Mathlib.Nat.{le_antisymm}
use rosbag2_dynamic_recorder.Base.{
  ℕ, ◌≤◌, ◌<◌, ◌≡◌, ◌↔◌, refl, sym, ap, ap₂, ◌∙◌, false, List, [], ◌∷◌, max, leb, All, inl, inr,
  Bool-cases, arith,
}
use rosbag2_dynamic_recorder.Bag.Windows.{meets, intersect_windows, Window, merge_windows, covered}
use rosbag2_dynamic_recorder.Bag.Windows.Cover.{
  merge_from, merge_rec, in_order, in_order-nonempty, merge_windows-merge_rec,
  covered-merge_windows,
}

-- The first window, if there is one, starts after the time.
abbrev pub StartsAfter : ℕ → List Window → Type 0
StartsAfter e [] = Unit
StartsAfter e (w ∷ _) = e < w.0

-- No window is empty, and a gap lies between each window and the next.
abbrev pub IsNormal : List Window → Type 0
IsNormal [] = Unit
IsNormal (w ∷ ws) = (w.0 < w.1) × StartsAfter w.1 ws × IsNormal ws

-- The first window starts at the given time.
abbrev StartsAt : ℕ → List Window → Type 0
StartsAt s [] = ⊥
StartsAt s (w ∷ _) = s ≡ w.0

StartsAfter-of_StartsAt : (e s : ℕ) (ws : List Window) → e < s → StartsAt s ws → StartsAfter e ws
StartsAfter-of_StartsAt e s [] h k = tt
StartsAfter-of_StartsAt e s (w ∷ ws) h k = omega arith

merge_from-StartsAt : (w : Window) (ws : List Window) → StartsAt w.0 (merge_from w ws)
unfolding merge_from
merge_from-StartsAt w [] = refl
merge_from-StartsAt (s, e) ((a, b) ∷ ws) = elim (Bool-cases (leb a e)) [
  | inl joins ↦ rw joins (merge_from-StartsAt (s, max e b) ws)
  | inr parts ↦ rw parts refl
]

merge_from-IsNormal :
    (w : Window) (ws : List Window)
    → w.0 < w.1
    → All (λ v. v.0 < v.1) ws
    → IsNormal (merge_from w ws)
unfolding merge_from
merge_from-IsNormal w [] p n = (p, tt, tt)
merge_from-IsNormal (s, e) ((a, b) ∷ ws) p n = elim (Bool-cases (leb a e)) [
  | inl joins ↦ rw joins (merge_from-IsNormal (s, max e b) ws (omega arith) n.1)
  | inr parts ↦ rw parts (
    p,
    StartsAfter-of_StartsAt e a (merge_from (a, b) ws) (ground arith)
        (merge_from-StartsAt (a, b) ws),
    merge_from-IsNormal (a, b) ws n.0 n.1,
  )
]

-- The merged windows are in order, none is empty, and no two touch or overlap.
pub merge_windows-IsNormal : (ws : List Window) → IsNormal (merge_windows ws)
merge_windows-IsNormal ws =
    rw (merge_windows-merge_rec ws) (go (in_order ws) (in_order-nonempty ws))
  where
    go : (vs : List Window) → All (λ v. v.0 < v.1) vs → IsNormal (merge_rec vs)
    go [] n = tt
    go (v ∷ vs) n = merge_from-IsNormal v vs n.0 n.1

pub intersect_windows-IsNormal : (vs ws : List Window) → IsNormal (intersect_windows vs ws)
unfolding intersect_windows
intersect_windows-IsNormal vs ws = merge_windows-IsNormal (meets vs ws)

-- Nothing is covered up to a time after which the windows start.
pub not-covered :
    (e t : ℕ) (ws : List Window) → StartsAfter e ws → IsNormal ws → t ≤ e → covered ws t ≡ false
not-covered e t [] h n l = refl
not-covered e t (w ∷ ws) h n l = ground (arith, not-covered w.1 t ws n.1 n.2)

abbrev pub SameCover : List Window → List Window → Type 0
SameCover vs ws = (t : ℕ) → covered vs t ≡ covered ws t

-- Two first windows of normal lists that cover the same times.
module _ (v w : Window) (vs ws : List Window) (nv : IsNormal (v ∷ vs)) (nw : IsNormal (w ∷ ws))
    (same : SameCover (v ∷ vs) (w ∷ ws)) where
  start-le : w.0 ≤ v.0
  start-le = ground (arith, same v.0, not-covered w.1 v.0 ws nw.1 nw.2)

  end-le : v.0 ≡ w.0 → w.1 ≤ v.1
  end-le e = ground (arith, same v.1, not-covered v.1 v.1 vs nv.1 nv.2)

  tail-SameCover : v.0 ≡ w.0 → v.1 ≡ w.1 → SameCover vs ws
  tail-SameCover e f t =
      ground (arith, same t, not-covered v.1 t vs nv.1 nv.2, not-covered w.1 t ws nw.1 nw.2)

-- A list of windows in normal form is determined by the times that it covers.
pub IsNormal-eq_of_SameCover :
    (vs ws : List Window) → IsNormal vs → IsNormal ws → SameCover vs ws → vs ≡ ws
IsNormal-eq_of_SameCover [] [] nv nw same = refl
IsNormal-eq_of_SameCover [] (w ∷ ws) nv nw same = absurd (ground (arith, same w.0))
IsNormal-eq_of_SameCover (v ∷ vs) [] nv nw same = absurd (ground (arith, same v.0))
IsNormal-eq_of_SameCover (v ∷ vs) (w ∷ ws) nv nw same =
    let back = λ (t : ℕ). sym (same t) in
    let starts : v.0 ≡ w.0 =
      le_antisymm (start-le w v ws vs nw nv back) (start-le v w vs ws nv nw same) in
    let ends : v.1 ≡ w.1 =
      le_antisymm (end-le w v ws vs nw nv back (sym starts)) (end-le v w vs ws nv nw same starts) in
    ap₂ ◌∷◌ (λ i. (starts i, ends i))
      (IsNormal-eq_of_SameCover vs ws nv.2 nw.2 (tail-SameCover v w vs ws nv nw same starts ends))

-- Merging depends only on the times covered: two lists of windows have the same merged list exactly
-- when they cover the same times, whatever their order, overlaps and repetitions.
pub merge_windows-eq_iff :
    (vs ws : List Window) → (merge_windows vs ≡ merge_windows ws) ↔ SameCover vs ws
merge_windows-eq_iff vs ws = (
  λ e t. sym (covered-merge_windows vs t) ∙ ap (λ ms. covered ms t) e ∙ covered-merge_windows ws t,
  λ same.
      IsNormal-eq_of_SameCover (merge_windows vs) (merge_windows ws) (merge_windows-IsNormal vs)
        (merge_windows-IsNormal ws)
        (λ t. covered-merge_windows vs t ∙ same t ∙ sym (covered-merge_windows ws t)),
)

-- Merging a list in normal form changes nothing.
pub merge_windows_of_IsNormal : (ws : List Window) → IsNormal ws → merge_windows ws ≡ ws
merge_windows_of_IsNormal ws n =
    IsNormal-eq_of_SameCover (merge_windows ws) ws (merge_windows-IsNormal ws) n
      (covered-merge_windows ws)

-- The sets of times that lists of windows stand for: lists up to what they cover.
abbrev pub TimeSet : Type 0
TimeSet = Quot SameCover

Window-set : IsSet (List Window)
Window-set = hlevel

-- merge_windows on sets of times.
pub normal_form : TimeSet → List Window
normal_form = Quot.lift Window-set merge_windows (λ vs ws same. (merge_windows-eq_iff vs ws).1 same)

-- The merged list stands for the same set of times, so merging chooses one list for each set.
pub mk-normal_form : (s : TimeSet) → Quot.mk (normal_form s) ≡ s
unfolding normal_form
mk-normal_form = Quot.ind (λ s. Quot-set _ _) (λ ws. Quot.sound (λ t. covered-merge_windows ws t))
