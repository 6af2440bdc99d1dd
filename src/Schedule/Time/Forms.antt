-- ===== src/Schedule/Time/Forms.antt =====
-- parse_time of packages/dynrec/dynrec/schedule.py: what the simple texts mean.
use rosbag2_dynamic_recorder.Base.{
  ℕ, ◌+◌, ◌*◌, ◌<◌, ◌≡◌, refl, sym, ap, ap₂, subst, ◌∙◌, inl, inr, String, true, false,
  if◌then◌else◌, none, some, str_eq, Bool-cases, arith,
}
use rosbag2_dynamic_recorder.Base.Int.{pos}
use rosbag2_dynamic_recorder.Base.Seconds.{Seconds, whole, add_seconds, times}
use rosbag2_dynamic_recorder.Base.Text.{
  append, str, value, strip_spaces, is_space, span_digits, after_digits, decimal-str,
  decimal_prefix-unit, strip_spaces-digits, strip_spaces-plain, strip_spaces-str, drop_last_spaces,
  is_digits-str, is_digits,
}
use rosbag2_dynamic_recorder.Errors.{ok, err, fault, overflow_error}
use rosbag2_dynamic_recorder.Results.Events.{nanoseconds_per_second}
use rosbag2_dynamic_recorder.Schedule.{split}
use rosbag2_dynamic_recorder.Schedule.Split.{split-IsNearest}
use rosbag2_dynamic_recorder.Schedule.Time.{
  Platform, finite, written, unit_seconds, relative, after_plus, unit_after, read_float, float_or,
  float_of_decimal, offset_overflows, parse_absolute, parse_text, parse_time, split_relative_or,
  split_float_or, split_number,
}
use text.Mathlib.TextEquality.{eq_iff}

-- What the texts of the units have in common.
record IsUnit (unit : String) : Type 0 where
  ends : drop_last_spaces unit ≡ unit
  starts : span_digits unit ≡ ("", unit)
  follows :
      (digits : String)
      → after_digits digits unit ≡ some (record { num = pos (value 0 digits); den = 1 }, unit)

IsUnit-eq : (unit plain : String) → IsUnit plain → str_eq unit plain ≡ true → IsUnit unit
IsUnit-eq unit plain h e = subst IsUnit (sym ((eq_iff unit plain).0 e)) h

IsUnit-none : IsUnit ""
unfolding drop_last_spaces span_digits after_digits
IsUnit-none = record { ends = refl; starts = refl; follows = λ digits. refl }

IsUnit-s : IsUnit "s"
unfolding drop_last_spaces span_digits after_digits
IsUnit-s = record { ends = refl; starts = refl; follows = λ digits. refl }

IsUnit-m : IsUnit "m"
unfolding drop_last_spaces span_digits after_digits
IsUnit-m = record { ends = refl; starts = refl; follows = λ digits. refl }

IsUnit-h : IsUnit "h"
unfolding drop_last_spaces span_digits after_digits
IsUnit-h = record { ends = refl; starts = refl; follows = λ digits. refl }

unit_seconds-IsUnit : (unit : String) (k : ℕ) → unit_seconds unit ≡ some k → IsUnit unit
unfolding unit_seconds
unit_seconds-IsUnit unit k h = elim (Bool-cases (str_eq unit "")) [
  | inl e ↦ IsUnit-eq unit "" IsUnit-none e
  | inr a ↦ elim (Bool-cases (str_eq unit "s")) [
    | inl e ↦ IsUnit-eq unit "s" IsUnit-s e
    | inr b ↦ elim (Bool-cases (str_eq unit "m")) [
      | inl e ↦ IsUnit-eq unit "m" IsUnit-m e
      | inr c ↦ elim (Bool-cases (str_eq unit "h")) [
        | inl e ↦ IsUnit-eq unit "h" IsUnit-h e
        | inr d ↦ let no : none ≡ some k = rw (a, b, c, d) at h in cc
      ]
    ]
  ]
]

relative-offset :
    (n k : ℕ) (unit : String)
    → unit_seconds unit ≡ some k
    → relative (strip_spaces (append "+" (append (str n) unit))) ≡ some (whole n, k)
unfolding relative after_plus unit_after append is_space
relative-offset n k unit h =
    let u = unit_seconds-IsUnit unit k h in
    let plain : strip_spaces (append "+" (append (str n) unit)) ≡ append "+" (append (str n) unit) =
      strip_spaces-plain "+" (append (str n) unit) refl
        (strip_spaces-digits (str n) unit (is_digits-str n) u.ends) in
    ap relative plain
    ∙ ap (λ found. elim found [ none ↦ none | some parts ↦ unit_after parts ])
        (decimal_prefix-unit n unit u.starts (u.follows (str n)))
    ∙ rw (h, unit_after) refl

relative-digits : (s : String) → is_digits s ≡ true → relative s ≡ none
unfolding relative is_digits
relative-digits String.[] h = refl
relative-digits (String.◌∷◌ c s) h = ground (arith, h)

-- The seconds of a builtin_interfaces/Time are split into its two fields again.
pub split-stamp :
    (sec nanosec : ℕ)
    → nanosec < nanoseconds_per_second
    → split (record {
      num = pos (sec * nanoseconds_per_second + nanosec);
      den = nanoseconds_per_second;
    })
      ≡ (pos sec, pos nanosec)
split-stamp sec nanosec h =
    let (s, ns, e, near) =
      split-IsNearest (sec * nanoseconds_per_second + nanosec) nanoseconds_per_second
        (omega arith) in
    e ∙ ap₂ (λ a b. (pos a, pos b)) (omega (arith, near, h)) (omega (arith, near, h))

split-whole : (n : ℕ) → split (whole n) ≡ (pos n, pos 0)
split-whole n =
    let (s, ns, e, near) = split-IsNearest n 1 (omega arith) in
    e ∙ ap₂ (λ a b. (pos a, pos b)) (omega (arith, near)) (omega (arith, near))

module _ (platform : Platform) (now : Seconds) where
  -- A plus sign, a whole number and a unit mean that many units from now, if the amount, its seconds
  -- and the time are not past the largest float, and an OverflowError if one is.
  pub parse_time-offset :
      (n k : ℕ) (unit : String)
      → unit_seconds unit ≡ some k
      → parse_time platform now (written (append "+" (append (str n) unit))) ≡ (
          if offset_overflows platform now (whole n) k
          then err (fault overflow_error)
          else ok (split (add_seconds now (times (whole n) k))))
  unfolding parse_time parse_text split_relative_or split_number
  parse_time-offset n k unit h =
      ap
        (λ found. split_relative_or platform now found (
          parse_absolute platform now (append "+" (append (str n) unit))
            (strip_spaces (append "+" (append (str n) unit)))))
        (relative-offset n k unit h)
      ∙ ground arith

  read_float-str :
      (n : ℕ)
      → platform.overflows (whole n) ≡ false
      → read_float platform now (str n) ≡ some (finite (whole n))
  unfolding read_float
  read_float-str n h =
      ap (λ o. float_or (float_of_decimal platform now o) (platform.other_float (str n)))
        (decimal-str n)
      ∙ rw h refl

  parse_absolute-str :
      (n : ℕ)
      → platform.overflows (whole n) ≡ false
      → parse_absolute platform now (str n) (str n) ≡ ok (pos n, pos 0)
  unfolding parse_absolute split_float_or split_number
  parse_absolute-str n h = rw (read_float-str n h) (ap ok (split-whole n))

  -- A whole number alone means that many seconds since the epoch, if it is not past the largest float.
  pub parse_time-seconds :
      (n : ℕ)
      → platform.overflows (whole n) ≡ false
      → parse_time platform now (written (str n)) ≡ ok (pos n, pos 0)
  unfolding parse_time parse_text split_relative_or
  parse_time-seconds n h =
      rw (strip_spaces-str n, relative-digits (str n) (is_digits-str n)) (parse_absolute-str n h)
