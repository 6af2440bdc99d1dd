-- ===== src/Client/Call.antt =====
-- `_call`, `_client_for` and `_checked` of packages/dynrec/dynrec/client.py: the one path to the
-- recorder.
use rosbag2_dynamic_recorder.Base.{
  ℕ, ◌+◌, String, Option, none, some, List, [], ◌∷◌, ◌==◌, str_eq, if◌then◌else◌,
}
use rosbag2_dynamic_recorder.Base.Text.{append, is_blank, str}
use rosbag2_dynamic_recorder.Errors.{
  Response, service_unavailable, call_timeout, call_failed, Result, ok, err,
}
use rosbag2_dynamic_recorder.Schedule.{Timing, Stamp}

pub data Request : Type 0 where
  get_status get_profiles get_subscribed_topics is_paused pause toggle_paused snapshot stop :
      Request
  subscribe_topics : List String → List String → String → String → Request
  unsubscribe_topics : List String → String → String → Request
  set_topics : List String → List String → String → String → Request
  set_profile : String → Request
  resume split_bagfile : Timing → Request
  record_bag : String → Stamp → Request

-- How a call ends: the service does not appear, no reply comes in time, the reply is none, or a
-- response.
pub data Reply : Type 0 where
  no_service no_reply no_response : Reply
  reply : Response → Reply

-- `getattr(response, 'return_code', 0)`
abbrev pub code_of : Response → ℕ
code_of response = elim response.return_code [ none ↦ 0 | some code ↦ code ]

-- `getattr(response, 'error_string', '') or 'return_code {}'.format(code)`
abbrev pub detail_of : Response → String
detail_of response = elim response.error_string [
  | none ↦ append "return_code " (str (code_of response))
  | some text ↦ if is_blank text then append "return_code " (str (code_of response)) else text
]

unfoldable pub checked : Response → Result Response
checked response =
    if code_of response == 0
    then ok response
    else err (call_failed (code_of response) (detail_of response) response)

unfoldable pub outcome : String → Reply → Result Response
unfolding checked
outcome service no_service = err (service_unavailable service)
outcome service no_reply = err (call_timeout service)
outcome service no_response = err (call_timeout service)
outcome service (reply response) = checked response

-- An entry of the log.
abbrev pub Entry : Type 0
Entry = Request × Reply

module _ (Server : Type 0) where
  -- `clients` is the dict from services to rclpy clients, here numbers; `created` counts the calls
  -- of create_client.
  pub record World : Type 0 where
    pub name : String
    pub clients : List (String × ℕ)
    pub created : ℕ
    pub log : List Entry
    pub server : Server

  abbrev pub M : Type 0 → Type 0
  M A = World → Result A × World

abbrev pub get_client : String → List (String × ℕ) → Option ℕ
get_client service [] = none
get_client service ((known, client) ∷ clients) =
    if str_eq service known then some client else get_client service clients

module _ {Server : Type 0} where
  -- The client of a service, created at the first call.
  unfoldable pub client_for : String → World Server → World Server
  client_for service w = elim (get_client service w.clients) [
    | some client ↦ w
    | none ↦ record w { clients = (service, w.created) ∷ w.clients; created = w.created + 1 }
  ]

  infixl 5 ◌>>=◌ ◌>>◌
  abbrev pub ◌>>=◌ : {A B : Type 0} → M Server A → (A → M Server B) → M Server B
  ◌>>=◌ m f w = let (r, w') = m w in elim r [ ok a ↦ f a w' | err e ↦ (err e, w') ]

  abbrev pub ◌>>◌ : {A B : Type 0} → M Server A → M Server B → M Server B
  m >> k = m >>= λ _. k

  abbrev pub pure : {A : Type 0} → A → M Server A
  pure a w = (ok a, w)

  -- What needs no recorder: building a request.
  abbrev pub lift : {A : Type 0} → Result A → M Server A
  lift r w = (r, w)

module _ {Server : Type 0} (serve : String → Request → Server → Reply × Server) where
  abbrev pub service_of : World Server → String → String
  service_of w verb = append w.name (append "/" verb)

  unfoldable pub call : String → Request → M Server Response
  unfolding client_for outcome
  call verb request w =
      let service = service_of w verb in
      let w' = client_for service w in
      let (answer, server) = serve service request w'.server in
      (outcome service answer, record w' { log = (request, answer) ∷ w'.log; server = server })
