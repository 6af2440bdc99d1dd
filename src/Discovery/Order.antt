-- ===== src/Discovery/Order.antt =====
-- The order that names are sorted in, by the numbers of their characters: it is a total order.
use Prim.Native.Nat.{Ordering, compare as compare_ℕ}
use Prim.Native.Char.{Char, code}
use Prim.Native.String.compare
use Prim.Native.String.{compare, then}
use text.Mathlib.TextEquality.{codes_equal}
use rosbag2_dynamic_recorder.Base.{
  ℕ, ◌≡◌, refl, ap, ap₂, ◌∙◌, String, Bool, true, false, ◌&&◌, ◌||◌, arith, ltb, ◌==◌,
}
use rosbag2_dynamic_recorder.Discovery.{str_le}

abbrev is_le : Ordering → Bool
is_le o = elim o [ Ordering.gt ↦ false | _ ↦ true ]

is_le-then :
    (m n : ℕ) (r : Ordering) → is_le (then (compare_ℕ m n) r) ≡ (ltb m n || (m == n && is_le r))
is_le-then m n r = ground arith

str_le-cons :
    (c d : Char) (s t : String)
    → str_le (String.◌∷◌ c s) (String.◌∷◌ d t)
      ≡ (ltb (code c) (code d) || (code c == code d && str_le s t))
str_le-cons c d s t =
    ap is_le (compare.cons-cons c d s t) ∙ is_le-then (code c) (code d) (compare s t)

str_le-nil : (t : String) → str_le String.[] t ≡ true
str_le-nil String.[] = ap is_le compare.nil-nil
str_le-nil (String.◌∷◌ d t) = ap is_le (compare.nil-cons d t)

nil-least : (c : Char) (s : String) → str_le (String.◌∷◌ c s) String.[] ≡ false
nil-least c s = ap is_le (compare.cons-nil c s)

pub str_le-total : (s t : String) → str_le s t ≡ false → str_le t s ≡ true
str_le-total String.[] t h = ground (arith, str_le-nil t)
str_le-total s String.[] h = str_le-nil s
str_le-total (String.◌∷◌ c s) (String.◌∷◌ d t) h =
    ground (arith, str_le-cons c d s t, str_le-cons d c t s, str_le-total s t)

pub str_le_trans : (s t u : String) → str_le s t ≡ true → str_le t u ≡ true → str_le s u ≡ true
str_le_trans String.[] t u h k = str_le-nil u
str_le_trans (String.◌∷◌ c s) String.[] u h k = ground (arith, nil-least c s)
str_le_trans (String.◌∷◌ c s) (String.◌∷◌ d t) String.[] h k = ground (arith, nil-least d t)
str_le_trans (String.◌∷◌ c s) (String.◌∷◌ d t) (String.◌∷◌ e u) h k =
    ground
      (arith, str_le-cons c d s t, str_le-cons d e t u, str_le-cons c e s u, str_le_trans s t u)

compare_eq : (m n : ℕ) → m ≡ n → compare_ℕ m n ≡ Ordering.eq
compare_eq m n h = ground arith

pub str_le-antisym : (s t : String) → str_le s t ≡ true → str_le t s ≡ true → s ≡ t
str_le-antisym String.[] String.[] h k = refl
str_le-antisym String.[] (String.◌∷◌ d t) h k = ground (arith, nil-least d t)
str_le-antisym (String.◌∷◌ c s) String.[] h k = ground (arith, nil-least c s)
str_le-antisym (String.◌∷◌ c s) (String.◌∷◌ d t) h k =
    let both : (code c ≡ code d) × (str_le s t ≡ true) × (str_le t s ≡ true) =
      ground (arith, str_le-cons c d s t, str_le-cons d c t s) in
    ap₂ String.◌∷◌ (codes_equal c d (compare_eq (code c) (code d) both.0))
      (str_le-antisym s t both.1 both.2)
