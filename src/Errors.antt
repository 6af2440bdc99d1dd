-- ===== src/Errors.antt =====
-- packages/dynrec/dynrec/errors.py: what can go wrong. An exception is a value; the texts of the
-- messages stand as the reason and what it quotes.
use rosbag2_dynamic_recorder.Base.{ℕ, String, ◌≡◌, refl, Bool, true, false, List, Option}
use rosbag2_dynamic_recorder.Base.Seconds.{Seconds}
use rosbag2_dynamic_recorder.Results.Status.{StatusMsg}
use rosbag2_dynamic_recorder.Results.ProfileMsg.{ProfileMsg}

-- A reply of a service: the fields that the client reads of any response. A response type that lacks
-- a field has none there.
pub record Response : Type 0 where
  pub return_code : Option ℕ
  pub error_string : Option String
  pub subscribed_topics : Option (List String)
  pub unsubscribed_topics : Option (List String)
  pub unavailable_topics : Option (List String)
  pub not_subscribed_topics : Option (List String)
  pub success : Bool
  pub paused : Bool
  pub topics : List String
  pub status : StatusMsg Seconds
  pub profiles : List ProfileMsg
  pub active_profile : String

-- Why a request could not be built.
pub data Reason : Type 0 where
  not_a_topic_name : Reason
  no_topic_name : String → Reason
  no_type_after : String → Reason
  nothing_selected : Reason
  not_a_time : Reason
  unreadable_time : String → Reason
  bad_time_of_day : String → Reason
  unknown_mode : Reason

-- A Python exception that is no DynrecError.
pub data Fault : Type 0 where
  overflow_error value_error assertion_error : Fault

-- `call_failed` has the code, the detail that the message quotes and the response, whose error_string
-- is the exception's; `snapshot_failed` is the CallFailed of a snapshot, which has no response;
-- `fault` is an exception that the program does not mean to raise.
pub data Error : Type 0 where
  recorder_not_found : Error
  ambiguous_recorder : List String → Error
  service_unavailable : String → Error
  call_timeout : String → Error
  call_failed : ℕ → String → Response → Error
  snapshot_failed : Error
  invalid_request : Reason → Error
  fault : Fault → Error

-- What a function returns or raises.
pub data Result {ℓ} (Value : Type ℓ) : Type ℓ where
  err : Error → Result Value
  ok : Value → Result Value

-- `if test: raise error`
abbrev pub raise_if : Bool → Error → Result (Unit {0})
raise_if test error = elim test [ true ↦ err error | false ↦ ok tt ]

infixl 5 ◌>>=◌
abbrev pub ◌>>=◌ {ℓ κ} :
    {First : Type ℓ} {Next : Type κ} → Result First → (First → Result Next) → Result Next
first >>= next = elim first [ err error ↦ err error | ok value ↦ next value ]

infixl 5 ◌>>◌
abbrev pub ◌>>◌ {ℓ} : {Next : Type ℓ} → Result (Unit {0}) → Result Next → Result Next
first >> next = first >>= (λ done. next)

-- A chain that succeeds has succeeded in its first part.
pub >>=-eq-ok {ℓ κ} :
    {First : Type ℓ} {Next : Type κ} (first : Result First) (next : First → Result Next)
    {result : Next}
    → (first >>= next) ≡ ok result
    → (value : First) × (first ≡ ok value) × (next value ≡ ok result)
>>=-eq-ok (err error) next succeeds = cc
>>=-eq-ok (ok value) next succeeds = (value, refl, succeeds)

pub ok-injective {ℓ} : {A : Type ℓ} (a b : A) → ok a ≡ ok b → a ≡ b
ok-injective a b h = cc
