-- ===== src/Base/Seconds.antt =====
-- Numbers of seconds as fractions, where the program has floats.
use Prim.Native.Nat.{ℕ, ◌+◌, ◌*◌, ◌/◌, ◌%◌}
use mathlib.Core.Bool.{Bool}
use rosbag2_dynamic_recorder.Base.Tests.{ltb, ◌==◌, if◌then◌else◌}
use rosbag2_dynamic_recorder.Base.Int.{ℤ, pos, pos_part, neg_part, sub_ℕ, ◌+ℤ◌}

-- num / den seconds; den is positive.
pub record Seconds : Type 0 where
  pub num : ℤ
  pub den : ℕ

abbrev pub whole : ℕ → Seconds
whole n = record { num = pos n; den = 1 }

-- `round(a / b)`: to the nearest integer, and to the even one of two.
unfoldable pub round : ℕ → ℕ → ℕ
round a b =
    let q = a / b in
    let r = a % b in
    if ltb (2 * r) b then q else if ltb b (2 * r) then q + 1 else if q % 2 == 0 then q else q + 1

abbrev pub scale : ℕ → ℤ → ℤ
scale k z = sub_ℕ (k * pos_part z) (k * neg_part z)

unfoldable pub add_seconds : Seconds → Seconds → Seconds
unfolding ◌+ℤ◌
add_seconds s t = record { num = scale t.den s.num +ℤ scale s.den t.num; den = s.den * t.den }

-- A number of seconds, a whole number of times.
unfoldable pub times : Seconds → ℕ → Seconds
times s k = record { num = scale k s.num; den = s.den }

-- `s > t`
unfoldable pub is_after : Seconds → Seconds → Bool
is_after s t =
    ltb (s.den * pos_part t.num + t.den * neg_part s.num)
      (t.den * pos_part s.num + s.den * neg_part t.num)
