-- ===== src/Base/Text/Affix.antt =====
-- str.endswith, str.strip, str.partition and slices, by recursion on the characters.
use Prim.Native.Char.{code}
use Prim.Native.String.{String, ◌∷◌}
use Prim.Native.Nat.{ℕ, zero, suc, ◌+◌, ◌-◌}
use mathlib.Core.Path.{◌≡◌, refl, sym, ap, subst, ◌∙◌}
use mathlib.Core.Logic.{◌↔◌, inl, inr}
use mathlib.Core.Bool.{Bool, true, false, ◌||◌, ◌&&◌}
use native.Mathlib.Omega.{arith}
use text.Mathlib.TextEquality.{eq_iff}
use text.Mathlib.TextPositions.{eq_refl}
use rosbag2_dynamic_recorder.Base.Tests.{◌==◌, str_eq, if◌then◌else◌, Bool-cases}

-- `s + t`
unfoldable pub append : String → String → String
append String.[] t = t
append (c ∷ s) t = c ∷ append s t

pub append-nil : (s : String) → append s "" ≡ s
unfolding append
append-nil String.[] = refl
append-nil (c ∷ s) = ap (◌∷◌ c) (append-nil s)

-- `s.startswith(t)`
unfoldable pub starts_with : String → String → Bool
starts_with s String.[] = true
starts_with String.[] (d ∷ t) = false
starts_with (c ∷ s) (d ∷ t) = code c == code d && starts_with s t

-- `s.endswith(t)`
unfoldable pub ends_with : String → String → Bool
ends_with String.[] t = str_eq String.[] t
ends_with (c ∷ s) t = str_eq (c ∷ s) t || ends_with s t

-- `len(s)`
unfoldable pub len : String → ℕ
len String.[] = 0
len (c ∷ s) = suc (len s)

take : ℕ → String → String
take zero s = String.[]
take (suc n) String.[] = String.[]
take (suc n) (c ∷ s) = c ∷ take n s

-- `s[:-k]`, for a positive k
unfoldable pub drop_last : ℕ → String → String
unfolding len take
drop_last k s = take (len s - k) s

-- `s.lstrip(c)` and `s.rstrip(c)` for one character, by its code
unfoldable pub lstrip : ℕ → String → String
lstrip k String.[] = String.[]
lstrip k (c ∷ s) = if code c == k then lstrip k s else c ∷ s

unfoldable pub rstrip : ℕ → String → String
rstrip k String.[] = String.[]
rstrip k (c ∷ s) =
    let rest = rstrip k s in if code c == k && str_eq rest "" then String.[] else c ∷ rest

-- `s.strip(c)`
unfoldable pub strip : ℕ → String → String
unfolding lstrip rstrip
strip k s = rstrip k (lstrip k s)

-- `s.partition(c)` for one character: what stands before it, whether it occurs, what follows.
unfoldable pub partition : ℕ → String → String × Bool × String
partition k String.[] = (String.[], false, String.[])
partition k (c ∷ s) =
    let (before, found, after) = partition k s in
    if code c == k then (String.[], true, s) else (c ∷ before, found, after)

len-append : (s t : String) → len (append s t) ≡ len s + len t
unfolding len append
len-append String.[] t = omega arith
len-append (c ∷ s) t = omega (arith, len-append s t)

take-append : (s t : String) → take (len s) (append s t) ≡ s
unfolding take len append
take-append String.[] t = refl
take-append (c ∷ s) t = ap (◌∷◌ c) (take-append s t)

pub drop_last-append : (s t : String) → drop_last (len t) (append s t) ≡ s
unfolding drop_last
drop_last-append s t =
    let e : len (append s t) - len t ≡ len s = omega (arith, len-append s t) in
    ap (λ (n : ℕ). take n (append s t)) e ∙ take-append s t

ends_with_self : (t : String) → ends_with t t ≡ true
unfolding ends_with
ends_with_self String.[] = refl
ends_with_self (c ∷ t) = rw (eq_refl (c ∷ t))

ends_with-append : (u t : String) → ends_with (append u t) t ≡ true
unfolding append ends_with
ends_with-append String.[] t = ends_with_self t
ends_with-append (c ∷ u) t = ground (arith, ends_with-append u t)

split_suffix : (s t : String) → ends_with s t ≡ true → (u : String) × (s ≡ append u t)
unfolding ends_with append
split_suffix String.[] t h = ("", (eq_iff "" t).0 h)
split_suffix (c ∷ s) t h = elim (Bool-cases (str_eq (c ∷ s) t)) [
  | inl same ↦ ("", (eq_iff (c ∷ s) t).0 same)
  | inr longer ↦ let (u, e) = split_suffix s t (rw longer at h) in (c ∷ u, ap (◌∷◌ c) e)
]

-- A text ends with another when it is some text followed by that one.
pub ends_with_iff : (s t : String) → (ends_with s t ≡ true) ↔ ((u : String) × (s ≡ append u t))
ends_with_iff s t =
    (split_suffix s t, λ (u, e). subst (λ r. ends_with r t ≡ true) (sym e) (ends_with-append u t))
