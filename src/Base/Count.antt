-- ===== src/Base/Count.antt =====
-- How many numbers below a bound pass a test: the length of a set of times.
use Prim.Native.Nat.{ℕ, zero, suc, ◌+◌, ◌-◌, ◌≤◌, min, ◌<◌}
use mathlib.Core.Path.{◌≡◌, refl}
use mathlib.Core.Bool.{Bool, true, false, not, ◌&&◌, ◌||◌}
use native.Mathlib.Omega.{arith}
use rosbag2_dynamic_recorder.Base.Tests.{ltb, leb, if◌then◌else◌}

pub count_below : ℕ → (ℕ → Bool) → ℕ
count_below zero p = 0
count_below (suc n) p = (if p n then 1 else 0) + count_below n p

pub count_below-cong :
    (n : ℕ) (p q : ℕ → Bool) → ((t : ℕ) → p t ≡ q t) → count_below n p ≡ count_below n q
unfolding count_below
count_below-cong zero p q h = refl
count_below-cong (suc n) p q h = ground (arith, h n, count_below-cong n p q h)

-- Only the numbers below the bound matter.
pub count_below-cong_below :
    (n : ℕ) (p q : ℕ → Bool) → ((t : ℕ) → t < n → p t ≡ q t) → count_below n p ≡ count_below n q
unfolding count_below
count_below-cong_below zero p q h = refl
count_below-cong_below (suc n) p q h =
    ground (arith, h n, count_below-cong_below n p q (λ t k. h t (omega arith)))

-- Disjoint sets add up.
pub count_below-or :
    (n : ℕ) (p q : ℕ → Bool)
    → ((t : ℕ) → p t ≡ true → q t ≡ false)
    → count_below n (λ t. p t || q t) ≡ count_below n p + count_below n q
unfolding count_below
count_below-or zero p q h = refl
count_below-or (suc n) p q h = ground (arith, h n, count_below-or n p q h)

pub count_below-none : (n : ℕ) (p : ℕ → Bool) → ((t : ℕ) → p t ≡ false) → count_below n p ≡ 0
unfolding count_below
count_below-none zero p h = refl
count_below-none (suc n) p h = ground (arith, h n, count_below-none n p h)

-- A set is split by a second test.
pub count_below-split :
    (n : ℕ) (p q : ℕ → Bool)
    → count_below n p ≡ count_below n (λ t. p t && q t) + count_below n (λ t. p t && not (q t))
unfolding count_below
count_below-split zero p q = refl
count_below-split (suc n) p q = ground (arith, count_below-split n p q)

-- An interval has its length, cut at the bound.
count_below-cut : (n a b : ℕ) → count_below n (λ t. leb a t && ltb t b) ≡ min n b - a
unfolding count_below
count_below-cut zero a b = omega arith
count_below-cut (suc n) a b = ground (arith, count_below-cut n a b)

pub count_below-interval : (n a b : ℕ) → b ≤ n → count_below n (λ t. leb a t && ltb t b) ≡ b - a
count_below-interval n a b h = omega (arith, count_below-cut n a b)

-- A set has no more members than one that it lies in.
pub count_below_le :
    (n : ℕ) (p q : ℕ → Bool)
    → ((t : ℕ) → p t ≡ true → q t ≡ true)
    → count_below n p ≤ count_below n q
unfolding count_below
count_below_le zero p q h = omega arith
count_below_le (suc n) p q h = ground (arith, h n, count_below_le n p q h)
