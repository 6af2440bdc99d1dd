-- ===== src/Client/Watch/Delivered.antt =====
-- What reaches the callbacks of packages/dynrec/dynrec/client.py, and what wait_for returns.
use mathlib.Core.List.{append_assoc, append-nil}
use rosbag2_dynamic_recorder.Base.{
  ℕ, ◌≡◌, ap, sym, inl, inr, Bool-cases, refl, ◌∙◌, String, Bool, true, Option, none, some, List,
  [], ◌∷◌, ◌++◌, if◌then◌else◌,
}
use rosbag2_dynamic_recorder.Errors.{ok, err, call_timeout}
use rosbag2_dynamic_recorder.Client.Watch.{fan_out, check_all, first_match, wait_for}

logged_then :
    (log later : List String) (raised : Option String)
    → (elim raised [ none ↦ log | some error ↦ log ++ error ∷ [] ]) ++ later
      ≡ log ++ (elim raised [ none ↦ later | some error ↦ error ∷ later ])
logged_then log later none = refl
logged_then log later (some error) = append_assoc log (error ∷ []) later

module _ {Payload State : Type 0} (react : ℕ → Payload → State → Option String × State) where
  -- Every callback run once, in order, and the exceptions that they raise.
  abbrev pub run_each : List ℕ → Payload → State → State
  run_each [] payload state = state
  run_each (callback ∷ callbacks) payload state =
      run_each callbacks payload (react callback payload state).1

  abbrev pub raised_by : List ℕ → Payload → State → List String
  raised_by [] payload state = []
  raised_by (callback ∷ callbacks) payload state =
      let later = raised_by callbacks payload (react callback payload state).1 in
      elim (react callback payload state).0 [ none ↦ later | some error ↦ error ∷ later ]

  -- Every callback gets the payload once, in order, whether or not earlier ones raise, and every
  -- exception is logged, in order.
  pub fan_out_each :
      (callbacks : List ℕ) (payload : Payload) (state : State) (log : List String)
      → fan_out react callbacks payload (state, log)
        ≡ (run_each callbacks payload state, log ++ raised_by callbacks payload state)
  unfolding fan_out
  fan_out_each [] payload state log = ap (λ (es : List String). (state, es)) (sym (append-nil log))
  fan_out_each (callback ∷ callbacks) payload state log =
      let (raised, after) = react callback payload state in
      let later = raised_by callbacks payload after in
      let logged : List String = elim raised [ none ↦ log | some error ↦ log ++ error ∷ [] ] in
      fan_out_each callbacks payload after logged
      ∙ ap (λ (es : List String). (run_each callbacks payload after, es))
          (logged_then log later raised)

module _ {Status : Type 0} (predicate : Status → Bool) where
  -- The first status that the predicate accepts.
  abbrev pub find : List Status → Option Status
  find [] = none
  find (status ∷ statuses) = if predicate status then some status else find statuses

  check_all_done :
      (matched statuses : List Status)
      → check_all predicate (true, matched) statuses ≡ (true, matched)
  check_all_done matched [] = refl
  check_all_done matched (status ∷ statuses) = check_all_done matched statuses

  -- wait_for returns the first of the delivered statuses that the predicate accepts, and raises
  -- CallTimeout exactly when there is none.
  pub wait_for-find :
      (statuses : List Status)
      → wait_for predicate statuses
        ≡ (elim (find statuses) [ none ↦ err (call_timeout "wait_for") | some status ↦ ok status ])
  unfolding wait_for
  wait_for-find [] = refl
  wait_for-find (status ∷ statuses) = elim (Bool-cases (predicate status)) [
    | inl accepted ↦
        rw accepted (ap (first_match predicate) (check_all_done (status ∷ []) statuses))
    | inr refused ↦ rw refused (wait_for-find statuses)
  ]
