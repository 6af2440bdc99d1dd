-- ===== src/Client/Refused.antt =====
-- What packages/dynrec/dynrec/client.py does with a request that it cannot build.
pub mod Run
use rosbag2_dynamic_recorder.Base.{
  ℕ, String, ◌≡◌, refl, ◌⊎◌, inl, inr, Bool, true, false, List, Option, ◌==◌, arith, if◌then◌else◌,
}
use rosbag2_dynamic_recorder.Errors.{
  Response, Error, invalid_request, Result, ok, err, call_failed, snapshot_failed,
}
use rosbag2_dynamic_recorder.Client.Call.{
  Request, Reply, no_service, no_reply, no_response, reply, World, M, ◌>>=◌, ◌>>◌, pure, lift, call,
  client_for, service_of, outcome, code_of, detail_of,
}

-- InvalidRequest
abbrev pub is_invalid : Error → Bool
is_invalid (invalid_request reason) = true
is_invalid _ = false

module _ {Server : Type 0} where
  -- The outcome is not an InvalidRequest.
  pub IsSent : {A : Type 0} → Result A × World Server → Type 0
  IsSent (ok a, w) = Unit
  IsSent (err e, w) = is_invalid e ≡ false

  -- The outcome is not an InvalidRequest, or the world is as it was.
  pub IsUntouched : {A : Type 0} → World Server → Result A × World Server → Type 0
  IsUntouched w (ok a, w') = Unit
  IsUntouched w (err e, w') = (is_invalid e ≡ false) ⊎ (w' ≡ w)

  pub IsUntouched-sent :
      {A : Type 0} (w : World Server) (out : Result A × World Server)
      → IsSent out
      → IsUntouched w out
  unfolding IsSent IsUntouched
  IsUntouched-sent w (ok a, w') h = tt
  IsUntouched-sent w (err e, w') h = inl h

  -- A request is built, and then something is done with it.
  pub IsUntouched-lift :
      {A B : Type 0} (r : Result A) (w : World Server) (f : A → M Server B)
      → ((a : A) → IsUntouched w (f a w))
      → IsUntouched w ((lift r >>= f) w)
  unfolding IsUntouched
  IsUntouched-lift (ok a) w f h = h a
  IsUntouched-lift (err e) w f h = inr refl

  pub IsUntouched-returning :
      {A B : Type 0} (w : World Server) (m : M Server A) (f : A → B)
      → IsUntouched w (m w)
      → IsUntouched w ((m >>= λ a. pure (f a)) w)
  unfolding IsUntouched
  IsUntouched-returning {A = A} {B = B} w m f h = go (m w) h
    where
      go :
          (out : Result A × World Server)
          → IsUntouched {A = A} w out
          → IsUntouched {A = B} w (elim out.0 [ ok a ↦ pure (f a) out.1 | err e ↦ (err e, out.1) ])
      go (ok a, w') h = tt
      go (err e, w') h = h

  pub IsSent->>= :
      {A B : Type 0} (w : World Server) (m : M Server A) (f : A → M Server B)
      → IsSent (m w)
      → ((a : A) (w' : World Server) → IsSent (f a w'))
      → IsSent ((m >>= f) w)
  unfolding IsSent
  IsSent->>= {A = A} {B = B} w m f h k = go (m w) h
    where
      go :
          (out : Result A × World Server)
          → IsSent {A = A} out
          → IsSent {A = B} (elim out.0 [ ok a ↦ f a out.1 | err e ↦ (err e, out.1) ])
      go (ok a, w') h = k a w'
      go (err e, w') h = h

  pub IsSent-pure : {A : Type 0} (a : A) (w : World Server) → IsSent (pure a w)
  unfolding IsSent
  IsSent-pure a w = tt

  pub IsSent-snapshot :
      (r : Response) (w : World Server)
      → IsSent (lift (if r.success then ok (tt {0}) else err snapshot_failed) w)
  unfolding IsSent
  IsSent-snapshot r w = go r.success
    where
      go : (b : Bool) → IsSent (lift (if b then ok (tt {0}) else err snapshot_failed) w)
      go true = tt
      go false = refl

  pub outcome-IsSent :
      (service : String) (answer : Reply) (w : World Server) → IsSent (outcome service answer, w)
  unfolding outcome IsSent
  outcome-IsSent service no_service w = refl
  outcome-IsSent service no_reply w = refl
  outcome-IsSent service no_response w = refl
  outcome-IsSent service (reply r) w = go (code_of r == 0)
    where
      go :
          (accepted : Bool)
          → IsSent {A = Response}
              (if accepted then ok r else err (call_failed (code_of r) (detail_of r) r), w)
      go true = tt
      go false = refl

module _ {Server : Type 0} (serve : String → Request → Server → Reply × Server) where
  pub IsSent-call :
      (verb : String) (request : Request) (w : World Server) → IsSent (call serve verb request w)
  unfolding call
  IsSent-call verb request w =
      let service = service_of serve w verb in
      outcome-IsSent service (serve service request (client_for service w).server).0 _

  pub IsSent-call-pure :
      {B : Type 0} (verb : String) (request : Request) (w : World Server) (f : Response → B)
      → IsSent ((call serve verb request >>= λ r. pure (f r)) w)
  IsSent-call-pure verb request w f =
      IsSent->>= w (call serve verb request) (λ r. pure (f r)) (IsSent-call verb request w)
        (λ r w'. IsSent-pure (f r) w')
