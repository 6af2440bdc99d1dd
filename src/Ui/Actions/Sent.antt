-- ===== src/Ui/Actions/Sent.antt =====
-- What `call` of packages/rosbag2_dynamic_recorder_ui/rosbag2_dynamic_recorder_ui/ui_node.py sends.
use rosbag2_dynamic_recorder.Base.{
  ◌≤◌, ◌≡◌, refl, subst, ◌⊎◌, inl, inr, String, Option, none, some, List, [], ◌∷◌, ◌++◌, All,
  length, arith, str_eq, Bool-cases,
}
use rosbag2_dynamic_recorder.Base.Seconds.{Seconds}
use rosbag2_dynamic_recorder.Errors.{
  Error, recorder_not_found, ambiguous_recorder, service_unavailable, call_timeout, call_failed,
  snapshot_failed, invalid_request, Result, ok, err, fault,
}
use rosbag2_dynamic_recorder.Results.Status.{Status}
use rosbag2_dynamic_recorder.Schedule.Time.{Platform}
use rosbag2_dynamic_recorder.Client.Call.{Request, Reply, Entry, World}
use rosbag2_dynamic_recorder.Client.Run.{
  Op, Value, configured, names, flag, changed, scheduled, done, run, calls_of, requests_of,
}
use rosbag2_dynamic_recorder.Client.Accepted.{IsAccepted, Accepts}
use rosbag2_dynamic_recorder.Client.Accepted.Run.{Accepts-run}
use rosbag2_dynamic_recorder.Ui.Actions.{
  Payload, Answer, accepted, refused, actions, get_action, resolve_at, answer, answered, caught,
  call_action, run_action,
}

-- Every method of the table calls one service.
IsSingle : String × (Payload → Op) → Type 0
IsSingle action = (p : Payload) → calls_of (action.1 p) ≡ 1

actions-IsSingle : (platform : Platform) (now : Seconds) → All IsSingle (actions platform now)
unfolding IsSingle
actions-IsSingle platform now =
    let one = λ (p : Payload). refl in
    (one, (one, (one, (one, (one, (one, (one, (one, (one, (one, tt))))))))))

some-injective : {A : Type 0} (a b : A) → some a ≡ some b → a ≡ b
some-injective a b h = cc

get_action-IsSingle :
    (action : String) (table : List (String × (Payload → Op))) (method : Payload → Op)
    → All IsSingle table
    → get_action action table ≡ some method
    → (p : Payload) → calls_of (method p) ≡ 1
unfolding IsSingle
get_action-IsSingle action [] method h e p = cc
get_action-IsSingle action ((name, m) ∷ table) method h e p =
    elim (Bool-cases (str_eq action name)) [
      | inl same ↦
          let chosen : m ≡ method = some-injective m method (rw same at e) in
          subst (λ f. calls_of (f p) ≡ 1) chosen (h.0 p)
      | inr other ↦ get_action-IsSingle action table method h.1 (rw other at e) p
    ]

module _ {Server : Type 0} where
  -- An answer with `ok: true` comes with one request to the recorder, answered and accepted; any other
  -- with one request at most.
  pub IsAnswered : World Server → Result Answer × World Server → Type 0
  IsAnswered w (ok (accepted topics at_time), w') =
      (entry : Entry) × (w'.log ≡ entry ∷ w.log) × IsAccepted entry
  IsAnswered w (ok (refused why), w') =
      (w'.log ≡ w.log) ⊎ ((entry : Entry) × (w'.log ≡ entry ∷ w.log))
  IsAnswered w (err e, w') = (w'.log ≡ w.log) ⊎ ((entry : Entry) × (w'.log ≡ entry ∷ w.log))

  -- A log with one entry more.
  one_more :
      (new : List Entry) (w w' : World Server)
      → length new ≡ 1
      → w'.log ≡ new ++ w.log
      → All IsAccepted new
      → (entry : Entry) × (w'.log ≡ entry ∷ w.log) × IsAccepted entry
  one_more [] w w' l e h = absurd (omega (arith, l))
  one_more (entry ∷ []) w w' l e h = (entry, e, h.0)
  one_more (entry ∷ other ∷ new) w w' l e h = absurd (omega (arith, l))

  at_most_one :
      (new : List Entry) (w w' : World Server)
      → length new ≤ 1
      → w'.log ≡ new ++ w.log
      → (w'.log ≡ w.log) ⊎ ((entry : Entry) × (w'.log ≡ entry ∷ w.log))
  at_most_one [] w w' l e = inl e
  at_most_one (entry ∷ []) w w' l e = inr (entry, e)
  at_most_one (entry ∷ other ∷ new) w w' l e = absurd (omega (arith, l))

  IsAnswered-caught :
      (e : Error) (w w' : World Server)
      → (w'.log ≡ w.log) ⊎ ((entry : Entry) × (w'.log ≡ entry ∷ w.log))
      → IsAnswered w (caught e, w')
  unfolding IsAnswered
  IsAnswered-caught recorder_not_found w w' h = h
  IsAnswered-caught (ambiguous_recorder recorders) w w' h = h
  IsAnswered-caught (service_unavailable service) w w' h = h
  IsAnswered-caught (call_timeout service) w w' h = h
  IsAnswered-caught (call_failed code detail response) w w' h = h
  IsAnswered-caught snapshot_failed w w' h = h
  IsAnswered-caught (invalid_request reason) w w' h = h
  IsAnswered-caught (fault f) w w' h = h

  IsAnswered-answer :
      (value : Value) (w w' : World Server)
      → (entry : Entry) × (w'.log ≡ entry ∷ w.log) × IsAccepted entry
      → IsAnswered w (ok (answer value), w')
  unfolding IsAnswered
  IsAnswered-answer (Value.told status) w w' h = h
  IsAnswered-answer (configured profiles) w w' h = h
  IsAnswered-answer (names ts) w w' h = h
  IsAnswered-answer (flag value) w w' h = h
  IsAnswered-answer (changed change) w w' h = h
  IsAnswered-answer (scheduled at_time) w w' h = h
  IsAnswered-answer (done unit) w w' h = h

  IsAnswered-answered :
      (w : World Server) (out : Result Value × World Server)
      → (rs : List Request) → Accepts 1 rs w out
      → IsAnswered w (answered out.0, out.1)
  unfolding Accepts
  IsAnswered-answered w (ok value, w') rs (new, l, asked, e, h) =
      IsAnswered-answer value w w' (one_more new w w' l e h)
  IsAnswered-answered w (err x, w') rs (new, unsent, l, asked, e) =
      IsAnswered-caught x w w' (at_most_one new w w' l e)

module _ {Server : Type 0} (serve : String → Request → Server → Reply × Server)
    (platform : Platform) (now : Seconds) where
  run_action-IsAnswered :
      (action : String) (found : Option (Payload → Op)) (payload : Result Payload)
      (w : World Server)
      → ((method : Payload → Op) → found ≡ some method → (p : Payload) → calls_of (method p) ≡ 1)
      → IsAnswered w (run_action serve platform now action found payload w)
  unfolding IsAnswered run_action
  run_action-IsAnswered action none payload w h = inl refl
  run_action-IsAnswered action (some method) (err e) w h = IsAnswered-caught e w w (inl refl)
  run_action-IsAnswered action (some method) (ok p) w h =
      IsAnswered-answered w (run serve (method p) w) (requests_of (method p)) (
        subst (λ n. Accepts n (requests_of (method p)) w (run serve (method p) w)) (h method refl p)
          (Accepts-run serve (method p) w))

  -- Whatever the page asks for, an answer that says `ok` comes with exactly one new request to the
  -- recorder, which it answered and accepted; any other outcome with one new request at most.
  pub call_action-IsAnswered :
      (action : String) (payload : Payload) (status : Option (Status Seconds)) (age : Seconds)
      (w : World Server)
      → IsAnswered w (call_action serve platform now action payload status age w)
  unfolding call_action
  call_action-IsAnswered action payload status age w =
      run_action-IsAnswered action (get_action action (actions platform now))
        (resolve_at platform payload status age) w
        (λ method e p.
          get_action-IsSingle action (actions platform now) method (actions-IsSingle platform now) e
            p)
