-- ===== src/Schedule/Split.antt =====
-- _split of packages/dynrec/dynrec/schedule.py: seconds as whole seconds and nanoseconds.
use native.Mathlib.Nat.{div-add-mod, mod-lt}
use rosbag2_dynamic_recorder.Base.{
  ℕ, suc, ◌+◌, ◌-◌, ◌*◌, ◌/◌, ◌%◌, ◌≤◌, ◌<◌, ◌≡◌, ◌⊎◌, refl, ltb, leb, ◌==◌, inl, inr, Bool-cases,
  leb→le, arith,
}
use rosbag2_dynamic_recorder.Base.Seconds.{round}
use rosbag2_dynamic_recorder.Base.Int.{pos, negsuc}
use rosbag2_dynamic_recorder.Results.Events.{nanoseconds_per_second}
use rosbag2_dynamic_recorder.Schedule.{rest_nanoseconds, split}

round-cases :
    (a b : ℕ)
    → (record { value : round a b ≡ a / b; low : 2 * (a % b) ≤ b })
      ⊎ (record { value : round a b ≡ a / b + 1; high : b ≤ 2 * (a % b) })
unfolding round
round-cases a b = elim (Bool-cases (ltb (2 * (a % b)) b)) [
  | inl below ↦ inl (record { value = rw below; low = ground arith })
  | inr above ↦ elim (Bool-cases (ltb b (2 * (a % b)))) [
    | inl past ↦ inr (record { value = rw (above, past); high = ground arith })
    | inr half ↦ elim (Bool-cases (a / b % 2 == 0)) [
      | inl even ↦ inl (record { value = rw (above, half, even); low = ground arith })
      | inr odd ↦ inr (record { value = rw (above, half, odd); high = ground arith })
    ]
  ]
]

-- A rounded quotient is within one half of the exact one.
round-near :
    (a b : ℕ) → 0 < b → (2 * (round a b * b) ≤ 2 * a + b) × (2 * a ≤ 2 * (round a b * b) + b)
round-near a b h = elim (round-cases a b) [
  | inl down ↦ rw down.value (omega (arith, div-add-mod a b, down.low))
  | inr up ↦ rw up.value (omega (arith, div-add-mod a b, up.high, mod-lt a h))
]

below_of_mul : (x m b : ℕ) → x * b ≤ m * b → 0 < b → x ≤ m
below_of_mul x m b h k = grind arith

lt_of_mul : (x m b : ℕ) → x * b < m * b → x < m
lt_of_mul x m b h = grind arith

-- It is at most a whole number that the exact one does not exceed.
round-le : (a b m : ℕ) → 0 < b → a ≤ m * b → round a b ≤ m
round-le a b m h k = elim (round-cases a b) [
  | inl down ↦ rw down.value (below_of_mul (a / b) m b (omega (arith, div-add-mod a b)) h)
  | inr up ↦
      rw up.value (omega (arith, lt_of_mul (a / b) m b (omega (arith, div-add-mod a b, up.high))))
]

rest-le : (n d : ℕ) → 0 < d → rest_nanoseconds n d ≤ nanoseconds_per_second
rest-le n d h =
    round-le (n % d * nanoseconds_per_second) d nanoseconds_per_second h (omega (arith, mod-lt n h))

-- The two parts are a builtin_interfaces/Time with its nanoseconds in range, within half a nanosecond
-- of n / d seconds.
abbrev pub IsNearest : ℕ → ℕ → ℕ → ℕ → Type 0
IsNearest n d sec nanosec =
    let total = (sec * nanoseconds_per_second + nanosec) * d in
    (nanosec < nanoseconds_per_second)
    × (2 * total ≤ 2 * (n * nanoseconds_per_second) + d)
    × (2 * (n * nanoseconds_per_second) ≤ 2 * total + d)

sum-near :
    (n d sec nanosec : ℕ)
    → 0 < d
    → sec * nanoseconds_per_second + nanosec ≡ n / d * nanoseconds_per_second + rest_nanoseconds n d
    → nanosec < nanoseconds_per_second
    → IsNearest n d sec nanosec
sum-near n d sec nanosec h e k =
    let near = round-near (n % d * nanoseconds_per_second) d h in
    (
      k,
      rw e (omega (arith, div-add-mod n d, near.0)),
      rw e (omega (arith, div-add-mod n d, near.1)),
    )

-- A time of n / d seconds, not negative, is split into whole seconds and nanoseconds below one
-- second that together are within half a nanosecond of it.
pub split-IsNearest :
    (n d : ℕ)
    → 0 < d
    → (sec : ℕ) × (nanosec : ℕ) × (split (record { num = pos n; den = d }) ≡ (pos sec, pos nanosec))
      × IsNearest n d sec nanosec
unfolding split
split-IsNearest n d h =
    let r = rest_nanoseconds n d in
    elim (Bool-cases (leb nanoseconds_per_second r)) [
      | inl full ↦
          let low : r - nanoseconds_per_second < nanoseconds_per_second =
            omega (arith, rest-le n d h) in
          (
            n / d + 1,
            r - nanoseconds_per_second,
            rw full,
            sum-near n d (n / d + 1) (r - nanoseconds_per_second) h (omega (arith, leb→le _ _ full))
                low,
          )
      | inr short ↦ (n / d, r, rw short, sum-near n d (n / d) r h refl (ground arith))
    ]

-- A negative time whose fraction rounds to a nanosecond or more gets a negative number of
-- nanoseconds, which builtin_interfaces/Time cannot hold.
pub split-negative :
    (m d : ℕ)
    → 0 < rest_nanoseconds (suc m) d
    → (k : ℕ) × ((split (record { num = negsuc m; den = d })).1 ≡ negsuc k)
unfolding split
split-negative m d h = (rest_nanoseconds (suc m) d - 1, ground arith)
