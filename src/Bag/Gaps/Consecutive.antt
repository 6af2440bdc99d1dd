-- ===== src/Bag/Gaps/Consecutive.antt =====
-- What gaps_in of packages/dynrec/dynrec/bag.py finds.
use rosbag2_dynamic_recorder.Base.{
  ℕ, ◌-◌, ◌≤◌, ◌<◌, ◌≡◌, refl, ap, ap₂, ◌∙◌, Bool, true, false, ◌||◌, Option, none, some, List, [],
  ◌∷◌, min, max, leb, ltb, All, inl, inr, Bool-cases, ltb→lt, leb→le, arith, if◌then◌else◌,
}
use rosbag2_dynamic_recorder.Base.Sort.{insert_by, sorted_by, IsSorted, sorted_by-IsSorted}
use rosbag2_dynamic_recorder.Bag.Windows.{covers, covered}
use rosbag2_dynamic_recorder.Bag.Gaps.{long_steps, gaps_in}

abbrev later_of : ℕ → Option ℕ → ℕ
later_of s none = s
later_of s (some r) = max s r

abbrev earlier_of : ℕ → Option ℕ → ℕ
earlier_of s none = s
earlier_of s (some r) = min s r

-- The last stamp at or before a time, and the first one after it.
pub last_up_to : ℕ → List ℕ → Option ℕ
last_up_to t [] = none
last_up_to t (s ∷ stamps) =
    if leb s t then some (later_of s (last_up_to t stamps)) else last_up_to t stamps

pub first_after : ℕ → List ℕ → Option ℕ
first_after t [] = none
first_after t (s ∷ stamps) =
    if ltb t s then some (earlier_of s (first_after t stamps)) else first_after t stamps

-- Two stamps at least so far apart.
abbrev pub apart : ℕ → Option ℕ → Option ℕ → Bool
apart threshold none later = false
apart threshold (some a) none = false
apart threshold (some a) (some b) = leb threshold (b - a)

last_up_to-insert_by :
    (t s : ℕ) (stamps : List ℕ) → last_up_to t (insert_by leb s stamps) ≡ last_up_to t (s ∷ stamps)
unfolding last_up_to insert_by
last_up_to-insert_by t s [] = refl
last_up_to-insert_by t s (r ∷ stamps) = ground (arith, last_up_to-insert_by t s stamps)

first_after-insert_by :
    (t s : ℕ) (stamps : List ℕ)
    → first_after t (insert_by leb s stamps) ≡ first_after t (s ∷ stamps)
unfolding first_after insert_by
first_after-insert_by t s [] = refl
first_after-insert_by t s (r ∷ stamps) = ground (arith, first_after-insert_by t s stamps)

last_up_to-sorted_by :
    (t : ℕ) (stamps : List ℕ) → last_up_to t (sorted_by leb stamps) ≡ last_up_to t stamps
unfolding last_up_to sorted_by
last_up_to-sorted_by t [] = refl
last_up_to-sorted_by t (s ∷ stamps) =
    last_up_to-insert_by t s (sorted_by leb stamps)
    ∙ ap (λ r. if leb s t then some (later_of s r) else r) (last_up_to-sorted_by t stamps)

first_after-sorted_by :
    (t : ℕ) (stamps : List ℕ) → first_after t (sorted_by leb stamps) ≡ first_after t stamps
unfolding first_after sorted_by
first_after-sorted_by t [] = refl
first_after-sorted_by t (s ∷ stamps) =
    first_after-insert_by t s (sorted_by leb stamps)
    ∙ ap (λ r. if ltb t s then some (earlier_of s r) else r) (first_after-sorted_by t stamps)

-- Among stamps that all come after the time.
last_up_to-none :
    (t : ℕ) (s : ℕ) (stamps : List ℕ)
    → t < s
    → All (λ r. leb s r ≡ true) stamps
    → last_up_to t stamps ≡ none
unfolding last_up_to
last_up_to-none t s [] h a = refl
last_up_to-none t s (r ∷ stamps) h a = ground (arith, last_up_to-none t s stamps h a.1)

first_after_head :
    (t s : ℕ) (stamps : List ℕ)
    → t < s
    → All (λ r. leb s r ≡ true) stamps
    → first_after t (s ∷ stamps) ≡ some s
unfolding first_after
first_after_head t s [] h a = ground arith
first_after_head t s (r ∷ stamps) h a = ground (arith, first_after_head t s stamps h a.1)

last_up_to-some :
    (t b : ℕ) (stamps : List ℕ) → b ≤ t → (m : ℕ) × (last_up_to t (b ∷ stamps) ≡ some m) × (b ≤ m)
unfolding last_up_to
last_up_to-some t b stamps h = (later_of b (last_up_to t stamps), ground arith, ground arith)

-- One more stamp in front of a list whose last stamp up to t, first one after it and covering
-- are known.
abbrev StepApart : ℕ → ℕ → ℕ → ℕ → Bool → Option ℕ → Option ℕ → Type 0
StepApart threshold t a b c l f =
    (if leb threshold (b - a) then covers (a, b) t || c else c)
    ≡ apart threshold (if leb a t then some (later_of a l) else l)
        (if ltb t a then some (earlier_of a f) else f)

step_before :
    (threshold t a b : ℕ) (c : Bool) (l f : Option ℕ)
    → a ≤ b
    → t < b
    → l ≡ none
    → f ≡ some b
    → c ≡ apart threshold l f
    → StepApart threshold t a b c l f
step_before threshold t a b c l f h k e g d = ground arith

step_after :
    (threshold t a b m : ℕ) (c : Bool) (l f : Option ℕ)
    → a ≤ b
    → b ≤ t
    → l ≡ some m
    → b ≤ m
    → c ≡ apart threshold l f
    → StepApart threshold t a b c l f
step_after threshold t a b m c l f h k e g d = ground arith

covered-long_steps-cons :
    (threshold t a b : ℕ) (stamps : List ℕ)
    → covered (long_steps threshold (a ∷ b ∷ stamps)) t ≡ (
        if leb threshold (b - a)
        then covers (a, b) t || covered (long_steps threshold (b ∷ stamps)) t
        else covered (long_steps threshold (b ∷ stamps)) t)
covered-long_steps-cons threshold t a b stamps = elim (Bool-cases (leb threshold (b - a))) [
  | inl long ↦ rw long
  | inr short ↦ rw short
]

last_up_to-cons :
    (t a : ℕ) (stamps : List ℕ)
    → last_up_to t (a ∷ stamps)
      ≡ (if leb a t then some (later_of a (last_up_to t stamps)) else last_up_to t stamps)
unfolding last_up_to
last_up_to-cons t a stamps = refl

first_after-cons :
    (t a : ℕ) (stamps : List ℕ)
    → first_after t (a ∷ stamps)
      ≡ (if ltb t a then some (earlier_of a (first_after t stamps)) else first_after t stamps)
unfolding first_after
first_after-cons t a stamps = refl

long_steps-step :
    (threshold t a b : ℕ) (stamps : List ℕ)
    → a ≤ b
    → All (λ r. leb b r ≡ true) stamps
    → covered (long_steps threshold (b ∷ stamps)) t
      ≡ apart threshold (last_up_to t (b ∷ stamps)) (first_after t (b ∷ stamps))
    → StepApart threshold t a b
        (covered (long_steps threshold (b ∷ stamps)) t)
        (last_up_to t (b ∷ stamps))
        (first_after t (b ∷ stamps))
long_steps-step threshold t a b stamps h o ih = elim (Bool-cases (ltb t b)) [
  | inl before ↦
      let k = ltb→lt t b before in
      step_before threshold t a b _ _ _ h k
        (last_up_to-cons t b stamps ∙ (ground (arith, last_up_to-none t b stamps k o)))
        (first_after_head t b stamps k o) ih
  | inr after ↦
      let k : b ≤ t = ground arith in
      let (m, e, g) = last_up_to-some t b stamps k in step_after threshold t a b m _ _ _ h k e g ih
]

no_stamp : (threshold t : ℕ) → false ≡ apart threshold (last_up_to t []) (first_after t [])
unfolding last_up_to first_after
no_stamp threshold t = refl

one_stamp :
    (threshold t a : ℕ) → false ≡ apart threshold (last_up_to t (a ∷ [])) (first_after t (a ∷ []))
unfolding last_up_to first_after
one_stamp threshold t a = ground arith

long_steps-apart :
    (threshold t : ℕ) (stamps : List ℕ)
    → IsSorted leb stamps
    → covered (long_steps threshold stamps) t
      ≡ apart threshold (last_up_to t stamps) (first_after t stamps)
long_steps-apart threshold t [] o = no_stamp threshold t
long_steps-apart threshold t (a ∷ []) o = one_stamp threshold t a
long_steps-apart threshold t (a ∷ b ∷ stamps) o =
    rw
      (
        covered-long_steps-cons threshold t a b stamps,
        last_up_to-cons t a (b ∷ stamps),
        first_after-cons t a (b ∷ stamps),
      )
      (long_steps-step threshold t a b stamps (leb→le a b o.0.0) o.1.0
        (long_steps-apart threshold t (b ∷ stamps) o.1))

-- A time lies in a gap of a channel exactly when the channel has a message at or before it and one
-- after it, and the last of the former and the first of the latter are at least the threshold apart,
-- in whatever order the stamps are given.
covered-gaps_in :
    (stamps : List ℕ) (threshold t : ℕ)
    → covered (gaps_in stamps threshold) t
      ≡ apart threshold (last_up_to t stamps) (first_after t stamps)
unfolding gaps_in
covered-gaps_in stamps threshold t =
    long_steps-apart threshold t (sorted_by leb stamps)
      (sorted_by-IsSorted leb (λ a b h. ground arith) (λ a b c h k. ground arith) stamps)
    ∙ ap₂ (apart threshold) (last_up_to-sorted_by t stamps) (first_after-sorted_by t stamps)
