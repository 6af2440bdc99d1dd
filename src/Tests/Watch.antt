-- ===== src/Tests/Watch.antt =====
-- Runs of the callbacks of packages/dynrec/dynrec/client.py.
use rosbag2_dynamic_recorder.Base.{
  ℕ, ◌+◌, ◌==◌, ◌≡◌, refl, String, Bool, Option, none, some, [], ◌∷◌, if◌then◌else◌,
}
use rosbag2_dynamic_recorder.Client.Watch.{Watching, watching, on_status, cancel_status, fan_out}
use rosbag2_dynamic_recorder.Client.Watch.Subscribed.{
  initial, next, on_status_step, cancel_status_step, IsWatching, Reached-IsWatching,
}

abbrev one : Watching
one = on_status 7 (watching "/r")

Reached-IsWatching_example : IsWatching "/r" (cancel_status 7 one)
Reached-IsWatching_example = Reached-IsWatching "/r" (cancel_status 7 one) (
    next "/r" one (cancel_status 7 one)
      (next "/r" (watching "/r") one (initial "/r") (on_status_step (watching "/r") 7))
      (cancel_status_step one 7))

-- A callback adds the payload to a sum, and callback 0 raises as well.
abbrev sum_up : ℕ → ℕ → ℕ → Option String × ℕ
sum_up callback payload sum = (if callback == 0 then some "ValueError" else none, sum + payload)

fan_out_sum : fan_out sum_up (1 ∷ 0 ∷ 2 ∷ []) 5 (0, []) ≡ (15, "ValueError" ∷ [])
unfolding fan_out
fan_out_sum = refl

abbrev is_three : ℕ → Bool
is_three n = n == 3
