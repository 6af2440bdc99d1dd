-- ===== src/Base/Text/Digits.antt =====
-- `str(n)` for a natural number: its decimal digits.
use Prim.Native.Char.{Char}
use Prim.Native.String.{String, ◌∷◌}
use Prim.Native.Nat.{ℕ, zero, suc, ◌+◌, ◌-◌, ◌*◌, ◌/◌, ◌%◌, ◌<◌}
use mathlib.Core.Path.{◌≡◌, refl, sym, ap, subst, ◌∙◌}
use mathlib.Core.Bool.{Bool, true, false, ◌&&◌}
use mathlib.Core.Logic.{inl, inr}
use native.Mathlib.Omega.{arith}
use text.Mathlib.TextEquality.{eq_iff}
use rosbag2_dynamic_recorder.Base.Tests.{str_eq, ltb, leb, if◌then◌else◌, Bool-cases}
use Prim.Native.Char.{code}

digit : ℕ → Char
digit zero = "0"
digit (suc zero) = "1"
digit (suc (suc zero)) = "2"
digit (suc (suc (suc zero))) = "3"
digit (suc (suc (suc (suc zero)))) = "4"
digit (suc (suc (suc (suc (suc zero))))) = "5"
digit (suc (suc (suc (suc (suc (suc zero)))))) = "6"
digit (suc (suc (suc (suc (suc (suc (suc zero))))))) = "7"
digit (suc (suc (suc (suc (suc (suc (suc (suc zero)))))))) = "8"
digit _ = "9"

-- The digits of a number in front of a text; the fuel exceeds the number.
show_digits : ℕ → ℕ → String → String
show_digits zero n s = s
show_digits (suc f) n s =
    let rest = show_digits f (n / 10) (digit (n % 10) ∷ s) in if ltb n 10 then digit n ∷ s else rest

unfoldable pub str : ℕ → String
unfolding show_digits digit
str n = show_digits (suc n) n ""

-- Read back, after a number already read.
unfoldable pub value : ℕ → String → ℕ
value v String.[] = v
value v (c ∷ s) = value (10 * v + (code c - 48)) s

unfoldable pub is_digits : String → Bool
is_digits String.[] = true
is_digits (c ∷ s) = leb 48 (code c) && leb (code c) 57 && is_digits s

code-digit : (n : ℕ) → n < 10 → code (digit n) ≡ 48 + n
unfolding digit
code-digit zero h = refl
code-digit (suc zero) h = refl
code-digit (suc (suc zero)) h = refl
code-digit (suc (suc (suc zero))) h = refl
code-digit (suc (suc (suc (suc zero)))) h = refl
code-digit (suc (suc (suc (suc (suc zero))))) h = refl
code-digit (suc (suc (suc (suc (suc (suc zero)))))) h = refl
code-digit (suc (suc (suc (suc (suc (suc (suc zero))))))) h = refl
code-digit (suc (suc (suc (suc (suc (suc (suc (suc zero)))))))) h = refl
code-digit (suc (suc (suc (suc (suc (suc (suc (suc (suc n))))))))) h = omega arith

value-show_digits : (f n : ℕ) (s : String) → n < f → value 0 (show_digits f n s) ≡ value n s
unfolding show_digits value
value-show_digits zero n s h = elim h [ ]
value-show_digits (suc f) n s h = elim (Bool-cases (ltb n 10)) [
  | inl small ↦ rw small (ap (λ (v : ℕ). value v s) (ground (arith, code-digit n)))
  | inr large ↦ rw large (
      value-show_digits f (n / 10) (digit (n % 10) ∷ s) (ground arith)
      ∙ ap (λ (v : ℕ). value v s) (omega (arith, code-digit (n % 10))))
]

is_digits-digit :
    (n : ℕ) (s : String) → n < 10 → is_digits s ≡ true → is_digits (digit n ∷ s) ≡ true
unfolding is_digits
is_digits-digit n s h k = ground (arith, code-digit n)

is_digits-show_digits :
    (f n : ℕ) (s : String) → is_digits s ≡ true → is_digits (show_digits f n s) ≡ true
unfolding show_digits
is_digits-show_digits zero n s h = h
is_digits-show_digits (suc f) n s h = elim (Bool-cases (ltb n 10)) [
  | inl small ↦ rw small (is_digits-digit n s (ground arith) h)
  | inr large ↦
      rw large (is_digits-show_digits f (n / 10) _ (is_digits-digit (n % 10) s (omega arith) h))
]

pub value-str : (n : ℕ) → value 0 (str n) ≡ n
unfolding str value
value-str n = value-show_digits (suc n) n "" (omega arith)

pub str-injective : (m n : ℕ) → str m ≡ str n → m ≡ n
str-injective m n e = sym (value-str m) ∙ ap (value 0) e ∙ value-str n

pub is_digits-str : (n : ℕ) → is_digits (str n) ≡ true
unfolding str is_digits
is_digits-str n = is_digits-show_digits (suc n) n "" refl

str-zero : str 0 ≡ "0"
unfolding str show_digits digit
str-zero = refl

value-nil : value 0 "" ≡ 0
unfolding value
value-nil = refl

pub str-filled : (n : ℕ) → str_eq (str n) "" ≡ false
str-filled n = elim (Bool-cases (str_eq (str n) "")) [
  | inr filled ↦ filled
  | inl empty ↦
      let e : str n ≡ "" = (eq_iff (str n) "").0 empty in
      let z : n ≡ 0 = sym (value-str n) ∙ ap (value 0) e ∙ value-nil in
      subst (λ m. str_eq (str m) "" ≡ false) (sym z) (rw str-zero refl)
]
