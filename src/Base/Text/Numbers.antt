-- ===== src/Base/Text/Numbers.antt =====
-- str.strip and str.split, and texts that spell decimal numbers. Digits are those of ASCII.
use Prim.Native.Char.{Char, code}
use Prim.Native.String.{String, ◌∷◌}
use Prim.Native.Nat.{ℕ, ◌^◌}
use mathlib.Core.Path.{◌≡◌, refl, sym, ap, subst, ◌∙◌}
use native.Mathlib.Omega.{arith}
use mathlib.Core.Bool.{Bool, true, false, ◌&&◌, ◌||◌}
use mathlib.Core.Option.{Option, none, some}
use rosbag2_dynamic_recorder.Base.Tests.{leb, ◌==◌, str_eq, if◌then◌else◌}
use rosbag2_dynamic_recorder.Base.Int.{pos}
use rosbag2_dynamic_recorder.Base.Seconds.{Seconds}
use rosbag2_dynamic_recorder.Base.Text.Digits.{
  value, is_digits, str, is_digits-str, value-str, str-filled,
}
use rosbag2_dynamic_recorder.Base.Text.Affix.{append, len, append-nil}

-- A character that Python counts as white space.
unfoldable pub is_space : ℕ → Bool
is_space c =
    (leb 9 c && leb c 13)
    || (leb 28 c && leb c 32)
    || (c == 0x85)
    || (c == 0xA0)
    || (c == 0x1680)
    || (leb 0x2000 c && leb c 0x200A)
    || (c == 0x2028)
    || (c == 0x2029)
    || (c == 0x202F)
    || (c == 0x205F)
    || (c == 0x3000)

drop_spaces : String → String
unfolding is_space
drop_spaces String.[] = String.[]
drop_spaces (c ∷ s) = if is_space (code c) then drop_spaces s else c ∷ s

unfoldable pub drop_last_spaces : String → String
unfolding is_space
drop_last_spaces String.[] = String.[]
drop_last_spaces (c ∷ s) =
    let rest = drop_last_spaces s in
    if is_space (code c) && str_eq rest "" then String.[] else c ∷ rest

-- `s.strip()`
unfoldable pub strip_spaces : String → String
unfolding drop_spaces drop_last_spaces
strip_spaces s = drop_last_spaces (drop_spaces s)

unfoldable pub is_digit : ℕ → Bool
is_digit c = leb 48 c && leb c 57

-- The digits that a text starts with, and the rest.
unfoldable pub span_digits : String → String × String
unfolding is_digit
span_digits String.[] = (String.[], String.[])
span_digits (c ∷ s) =
    let (before, after) = span_digits s in
    if is_digit (code c) then (c ∷ before, after) else (String.[], c ∷ s)

after_point : String → String → Option (Seconds × String)
unfolding span_digits len value
after_point before rest =
    let (digits, after) = span_digits rest in
    if str_eq digits ""
    then some (record { num = pos (value 0 before); den = 1 }, append "." rest)
    else some (record { num = pos (value (value 0 before) digits); den = 10 ^ len digits }, after)

unfoldable pub after_digits : String → String → Option (Seconds × String)
unfolding after_point value
after_digits before String.[] = some (record { num = pos (value 0 before); den = 1 }, "")
after_digits before (c ∷ rest) =
    if code c == b'.'
    then after_point before rest
    else some (record { num = pos (value 0 before); den = 1 }, c ∷ rest)

-- What `\d+(?:\.\d+)?` matches at the start of a text, as a number, and what follows it.
unfoldable pub decimal_prefix : String → Option (Seconds × String)
unfolding span_digits after_digits
decimal_prefix s =
    let (before, rest) = span_digits s in
    if str_eq before "" then none else after_digits before rest

all_of : Option (Seconds × String) → Option Seconds
all_of none = none
all_of (some (number, rest)) = if str_eq rest "" then some number else none

-- A text that is such a number throughout.
unfoldable pub decimal : String → Option Seconds
unfolding all_of
decimal s = all_of (decimal_prefix s)

is_digits-parts :
    (c : Char) (s : String)
    → is_digits (c ∷ s) ≡ true
    → (is_digit (code c) ≡ true) × (is_digits s ≡ true)
unfolding is_digits is_digit
is_digits-parts c s h = ground (arith, h)

is_space-digit : (c : ℕ) → is_digit c ≡ true → is_space c ≡ false
unfolding is_digit is_space
is_space-digit c h = ground (arith, h)

-- Digits before a text that ends in no white space and starts with no digit.
pub strip_spaces-digits :
    (s t : String)
    → is_digits s ≡ true
    → drop_last_spaces t ≡ t
    → drop_last_spaces (append s t) ≡ append s t
unfolding is_digits drop_last_spaces append
strip_spaces-digits String.[] t h k = k
strip_spaces-digits (c ∷ s) t h k =
    let (first, rest) = is_digits-parts c s h in
    rw (is_space-digit (code c) first, strip_spaces-digits s t rest k) refl

pub span_digits-append :
    (s t : String)
    → is_digits s ≡ true
    → span_digits t ≡ ("", t)
    → span_digits (append s t) ≡ (s, t)
unfolding is_digits span_digits append
span_digits-append String.[] t h k = k
span_digits-append (c ∷ s) t h k =
    let (first, rest) = is_digits-parts c s h in rw (first, span_digits-append s t rest k) refl

-- The digits of a number, and then the rest of the text.
pub decimal_prefix-str :
    (n : ℕ) (t : String)
    → span_digits t ≡ ("", t)
    → decimal_prefix (append (str n) t) ≡ after_digits (str n) t
unfolding decimal_prefix
decimal_prefix-str n t h = rw (span_digits-append (str n) t (is_digits-str n) h, str-filled n) refl

-- A number and the rest of a text.
pub decimal_prefix-unit :
    (n : ℕ) (t : String)
    → span_digits t ≡ ("", t)
    → after_digits (str n) t ≡ some (record { num = pos (value 0 (str n)); den = 1 }, t)
    → decimal_prefix (append (str n) t) ≡ some (record { num = pos n; den = 1 }, t)
decimal_prefix-unit n t h k =
    decimal_prefix-str n t h ∙ k ∙ ap (λ v. some (record { num = pos v; den = 1 }, t)) (value-str n)

-- A number reads as itself.
pub decimal-str : (n : ℕ) → decimal (str n) ≡ some (record { num = pos n; den = 1 })
unfolding decimal all_of after_digits
decimal-str n =
    ap (λ s. all_of (decimal_prefix s)) (sym (append-nil (str n)))
    ∙ ap all_of (decimal_prefix-unit n "" refl refl)

-- A text that has no white space at its ends.
pub strip_spaces-plain :
    (c : Char) (t : String)
    → is_space (code c) ≡ false
    → drop_last_spaces t ≡ t
    → strip_spaces (c ∷ t) ≡ c ∷ t
unfolding strip_spaces drop_spaces drop_last_spaces
strip_spaces-plain c t h k = rw (h, k, h) refl

strip_spaces_of_digits : (s : String) → is_digits s ≡ true → strip_spaces s ≡ s
unfolding strip_spaces drop_spaces drop_last_spaces
strip_spaces_of_digits String.[] h = refl
strip_spaces_of_digits (c ∷ s) h =
    let (first, rest) = is_digits-parts c s h in
    strip_spaces-plain c s (is_space-digit (code c) first)
      (subst (λ u. drop_last_spaces u ≡ u) (append-nil s) (strip_spaces-digits s "" rest refl))

pub strip_spaces-str : (n : ℕ) → strip_spaces (str n) ≡ str n
strip_spaces-str n = strip_spaces_of_digits (str n) (is_digits-str n)
