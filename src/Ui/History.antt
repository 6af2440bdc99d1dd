-- ===== src/Ui/History.antt =====
-- The bounded history of packages/rosbag2_dynamic_recorder_ui/rosbag2_dynamic_recorder_ui/ui_node.py.
use mathlib.Core.List.{append_assoc, append-nil}
use rosbag2_dynamic_recorder.Base.{
  ℕ, suc, zero, ◌+◌, ◌-◌, ◌≤◌, ◌≡◌, refl, sym, ap, ◌∙◌, List, [], ◌∷◌, ◌++◌, length, length-append,
  arith,
}
use rosbag2_dynamic_recorder.Ui.{history_limit, drop, keep_last, add_to_history}

module _ {Event : Type 0} where
  length-drop : (n : ℕ) (events : List Event) → length (drop n events) ≡ length events - n
  unfolding drop
  length-drop zero events = omega arith
  length-drop (suc n) [] = omega arith
  length-drop (suc n) (e ∷ events) = omega (arith, length-drop n events)

  drop-nil : (n : ℕ) → drop {Event = Event} n [] ≡ []
  unfolding drop
  drop-nil zero = refl
  drop-nil (suc n) = refl

  drop-drop : (m n : ℕ) (events : List Event) → drop m (drop n events) ≡ drop (n + m) events
  unfolding drop
  drop-drop m zero events = let same : 0 + m ≡ m = omega arith in rw same refl
  drop-drop m (suc n) [] = drop-nil m ∙ sym (drop-nil (suc n + m))
  drop-drop m (suc n) (e ∷ events) =
      let same : suc n + m ≡ suc (n + m) = omega arith in rw same (drop-drop m n events)

  drop-append :
      (n : ℕ) (events more : List Event)
      → n ≤ length events
      → drop n events ++ more ≡ drop n (events ++ more)
  unfolding drop
  drop-append zero events more h = refl
  drop-append (suc n) [] more h = ground (arith, h)
  drop-append (suc n) (e ∷ events) more h = drop-append n events more (omega (arith, h))

  -- The events one after the other, from a history.
  abbrev pub receive : List Event → List Event → List Event
  receive history [] = history
  receive history (e ∷ events) = receive (add_to_history history e) events

  add_to_history-keep_last :
      (past : List Event) (event : Event)
      → add_to_history (keep_last history_limit past) event
        ≡ keep_last history_limit (past ++ event ∷ [])
  unfolding add_to_history keep_last
  add_to_history-keep_last past event =
      let k = length past - 400 in
      let all = past ++ event ∷ [] in
      let kept : drop k past ++ event ∷ [] ≡ drop k all =
        drop-append k past (event ∷ []) (omega arith) in
      let rest = length (drop k all) - 400 in
      let bound : k + rest ≡ length all - 400 =
        omega (arith, length-drop k all, length-append past (event ∷ [])) in
      ap (λ (es : List Event). drop (length es - 400) es) kept
      ∙ drop-drop rest k all
      ∙ ap (λ (n : ℕ). drop n all) bound

  receive-keep_last :
      (past events : List Event)
      → receive (keep_last history_limit past) events ≡ keep_last history_limit (past ++ events)
  receive-keep_last past [] = ap (keep_last history_limit) (sym (append-nil past))
  receive-keep_last past (e ∷ events) =
      ap (λ (history : List Event). receive history events) (add_to_history-keep_last past e)
      ∙ receive-keep_last (past ++ e ∷ []) events
      ∙ ap (keep_last history_limit) (append_assoc past (e ∷ []) events)

  -- The history holds the last 400 of the events that have arrived, in the order of arrival, and all
  -- of them where there were fewer.
  pub receive_last : (events : List Event) → receive [] events ≡ keep_last history_limit events
  unfolding keep_last
  receive_last events = receive-keep_last [] events
