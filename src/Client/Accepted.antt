-- ===== src/Client/Accepted.antt =====
-- What the calls of packages/dynrec/dynrec/client.py leave in the log.
pub mod Run
use mathlib.Core.List.{append_assoc, append-nil}
use rosbag2_dynamic_recorder.Base.{
  ◌≤◌, ℕ, ◌+◌, String, ◌≡◌, refl, sym, ap, ap₂, map, ◌∙◌, List, [], ◌∷◌, ◌++◌, All, length,
  length-append, arith, if◌then◌else◌,
}
use rosbag2_dynamic_recorder.Errors.{Response, Result, ok, err, snapshot_failed}
use rosbag2_dynamic_recorder.Client.Call.{
  Request, Reply, no_service, no_reply, no_response, reply, Entry, World, M, ◌>>=◌, pure, lift,
  is_paused, toggle_paused, snapshot, subscribe_topics, unsubscribe_topics, set_topics,
  split_bagfile, call, outcome, code_of, client_for, service_of,
}
use rosbag2_dynamic_recorder.Results.Change.{change_from_msg}
use rosbag2_dynamic_recorder.Schedule.{apply_schedule, set_stamp}
use rosbag2_dynamic_recorder.Topics.{parse_topic_specs, require_a_selection}
use rosbag2_dynamic_recorder.Client.Operations.{
  topics_op, is_paused_op, add_op, remove_op, set_topics_op, profile_op, pause_op, resume_op,
  toggle_op, split_op, snapshot_op, stop_op, record_op,
}
use rosbag2_dynamic_recorder.Client.Run.{Op, Value, run, calls_of, request_from}

-- The recorder answered the request, and with no return code or code 0.
abbrev pub IsAccepted : Entry → Type 0
IsAccepted (request, answer) = (r : Response) × (answer ≡ reply r) × (code_of r ≡ 0)

outcome-IsAccepted :
    (service : String) (request : Request) (answer : Reply) (r : Response)
    → outcome service answer ≡ ok r
    → IsAccepted (request, answer)
unfolding outcome
outcome-IsAccepted service request no_service r h = cc
outcome-IsAccepted service request no_reply r h = cc
outcome-IsAccepted service request no_response r h = cc
outcome-IsAccepted service request (reply s) r h = (s, refl, ground arith)

All-append {ℓ} :
    {A : Type ℓ} (P : A → Type 0) (xs ys : List A) → All P xs → All P ys → All P (xs ++ ys)
All-append P [] ys h k = k
All-append P (x ∷ xs) ys h k = (h.0, All-append P xs ys h.1 k)

-- The requests of some entries.
abbrev pub requests_in : List Entry → List Request
requests_in = map (λ entry. entry.0)

requests_in-append :
    (xs ys : List Entry) → requests_in (xs ++ ys) ≡ requests_in xs ++ requests_in ys
requests_in-append [] ys = refl
requests_in-append (x ∷ xs) ys = ap (λ rs. x.0 ∷ rs) (requests_in-append xs ys)

module _ {Server : Type 0} where
  -- After a success the log is longer by n entries, of these requests, all accepted; after an error it is
  -- longer by at most n entries, of the first ones of these requests. The last request stands first.
  unfoldable pub Accepts :
      {A : Type 0} → ℕ → List Request → World Server → Result A × World Server → Type 0
  Accepts n rs w (ok a, w') =
      (new : List Entry) × (length new ≡ n)
      × (requests_in new ≡ rs)
      × (w'.log ≡ new ++ w.log)
      × All IsAccepted new
  Accepts n rs w (err e, w') =
      (new : List Entry) × (unsent : List Request) × (length new ≤ n)
      × (unsent ++ requests_in new ≡ rs)
      × (w'.log ≡ new ++ w.log)

  Accepts-pure : {A : Type 0} (w : World Server) (a : A) → Accepts 0 [] w (pure a w)
  unfolding Accepts
  Accepts-pure w a = ([], refl, refl, refl, tt)

  pub Accepts-lift : {A : Type 0} (w : World Server) (r : Result A) → Accepts 0 [] w (lift r w)
  unfolding Accepts
  Accepts-lift w (ok a) = ([], refl, refl, refl, tt)
  Accepts-lift w (err e) = ([], [], omega arith, refl, refl)

  Accepts->>= :
      {A B : Type 0} (m n : ℕ) (rs rs' : List Request) (w : World Server) (p : M Server A)
      (f : A → M Server B)
      → Accepts m rs w (p w)
      → ((a : A) (w' : World Server) → Accepts n rs' w' (f a w'))
      → Accepts (n + m) (rs' ++ rs) w ((p >>= f) w)
  unfolding Accepts
  Accepts->>= {A = A} {B = B} m n rs rs' w p f h k = go (p w) h
    where
      join :
          {B : Type 0} (w' : World Server) (new : List Entry)
          → length new ≡ m
          → requests_in new ≡ rs
          → w'.log ≡ new ++ w.log
          → All IsAccepted new
          → (out : Result B × World Server) → Accepts {A = B} n rs' w' out
          → Accepts {A = B} (n + m) (rs' ++ rs) w out
      join w' new l q e a (ok b, w'') (more, l', q', e', a') = (
        more ++ new,
        length-append more new ∙ (rw (l, l')),
        requests_in-append more new ∙ ap₂ ◌++◌ q' q,
        e' ∙ ap (λ (es : List Entry). more ++ es) e ∙ sym (append_assoc more new w.log),
        All-append IsAccepted more new a' a,
      )
      join w' new l q e a (err b, w'') (more, unsent, l', q', e') = (
        more ++ new,
        unsent,
        rw (length-append more new) (omega (arith, l, l')),
        ap (λ (qs : List Request). unsent ++ qs) (requests_in-append more new)
            ∙ sym (append_assoc unsent (requests_in more) (requests_in new))
            ∙ ap₂ ◌++◌ q' q,
        e' ∙ ap (λ (es : List Entry). more ++ es) e ∙ sym (append_assoc more new w.log),
      )

      go :
          (out : Result A × World Server)
          → Accepts {A = A} m rs w out
          → Accepts {A = B}
              (n + m)
              (rs' ++ rs)
              w
              (elim out.0 [ ok a ↦ f a out.1 | err e ↦ (err e, out.1) ])
      go (ok a, w') (new, l, q, e, all) = join w' new l q e all (f a w') (k a w')
      go (err e, w') (new, unsent, l, q, same) = (
        new,
        rs' ++ unsent,
        omega (arith, l),
        append_assoc rs' unsent (requests_in new) ∙ ap (λ (qs : List Request). rs' ++ qs) q,
        same,
      )

  -- Build a request, then go on with it.
  pub Accepts-lift->>= :
      {A B : Type 0} (n : ℕ) (rs : List Request) (r : Result A) (w : World Server)
      (f : A → M Server B)
      → ((a : A) → r ≡ ok a → (w' : World Server) → Accepts n rs w' (f a w'))
      → Accepts n rs w ((lift r >>= f) w)
  unfolding Accepts
  Accepts-lift->>= n rs (ok a) w f h = h a refl w
  Accepts-lift->>= n rs (err e) w f h = ([], rs, omega arith, append-nil rs, refl)

  pub Accepts-returning :
      {A : Type 0} (n : ℕ) (rs : List Request) (w : World Server) (m : M Server A) (f : A → Value)
      → Accepts n rs w (m w)
      → Accepts (0 + n) rs w ((m >>= λ a. pure (f a)) w)
  Accepts-returning n rs w m f h =
      Accepts->>= n 0 rs [] w m (λ a. pure (f a)) h (λ a w'. Accepts-pure w' (f a))

pub client_for-log :
    {Server : Type 0} (service : String) (w : World Server) → (client_for service w).log ≡ w.log
unfolding client_for
client_for-log service w = ground arith

module _ {Server : Type 0} (serve : String → Request → Server → Reply × Server) where
  Accepts-call :
      (verb : String) (request : Request) (w : World Server)
      → Accepts 1 (request ∷ []) w (call serve verb request w)
  unfolding Accepts call
  Accepts-call verb request w =
      let service = service_of serve w verb in
      let w' = client_for service w in
      let (answer, server) = serve service request w'.server in
      go answer server (outcome service answer) (outcome-IsAccepted service request answer)
    where
      go :
          (answer : Reply) (server : Server) (result : Result Response)
          → ((r : Response) → result ≡ ok r → IsAccepted (request, answer))
          → Accepts 1 (request ∷ []) w (
            result,
            record (client_for (service_of serve w verb) w) {
              log = (request, answer) ∷ (client_for (service_of serve w verb) w).log;
              server = server;
            },
          )
      go answer server (ok r) h = (
        (request, answer) ∷ [],
        refl,
        refl,
        ap (λ (es : List Entry). (request, answer) ∷ es)
            (client_for-log (service_of serve w verb) w),
        (h r refl, tt),
      )
      go answer server (err e) h = (
        (request, answer) ∷ [],
        [],
        omega arith,
        refl,
        ap (λ (es : List Entry). (request, answer) ∷ es)
            (client_for-log (service_of serve w verb) w),
      )

  -- Call, then something that calls n times.
  pub Accepts-call->>= :
      {B : Type 0} (n : ℕ) (rs : List Request) (verb : String) (request : Request)
      (w : World Server) (f : Response → M Server B)
      → ((r : Response) (w' : World Server) → Accepts n rs w' (f r w'))
      → Accepts (n + 1) (rs ++ request ∷ []) w ((call serve verb request >>= f) w)
  Accepts-call->>= n rs verb request w f h =
      Accepts->>= 1 n (request ∷ []) rs w (call serve verb request) f (Accepts-call verb request w)
        h

  -- Call, then return.
  pub Accepts-call-pure :
      {B : Type 0} (verb : String) (request : Request) (w : World Server) (f : Response → B)
      → Accepts 1 (request ∷ []) w ((call serve verb request >>= λ r. pure (f r)) w)
  Accepts-call-pure verb request w f =
      Accepts-call->>= 0 [] verb request w (λ r. pure (f r)) (λ r w'. Accepts-pure w' (f r))

  pub Accepts-set_stamped :
      {A B : Type 0} (r : Result A) (verb : String) (request : A → Request) (f : A → B)
      (w : World Server)
      → Accepts 1
          (request_from request r)
          w
          ((lift r >>= λ a. call serve verb (request a) >>= λ _. pure (f a)) w)
  Accepts-set_stamped r verb request f w =
      Accepts-lift->>= 1 (request_from request r) r w
        (λ a. call serve verb (request a) >>= λ _. pure (f a))
        (λ a e w'. rw e (Accepts-call-pure verb (request a) w' (λ _. f a)))

  -- Parse, check, call and read the change.
  pub Accepts-selected :
      {A : Type 0} (r : Result A) (check : A → Result (Unit {0})) (verb : String)
      (request : A → Request) (w : World Server)
      → Accepts 1 (request_from request r) w (
          (lift r >>= λ a.
          lift (check a) >>= λ _. call serve verb (request a) >>= λ s. pure (change_from_msg s))
            w)
  Accepts-selected r check verb request w =
      Accepts-lift->>= 1 (request_from request r) r w
        (λ a. lift (check a) >>= λ _. call serve verb (request a) >>= λ s. pure (change_from_msg s))
        (λ a e w'. rw e (
          Accepts-lift->>= 1 (request a ∷ []) (check a) w' _
            (λ _ _ w''. Accepts-call-pure verb (request a) w'' change_from_msg)))
