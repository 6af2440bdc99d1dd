-- ===== src/Recorder/Service/Called.antt =====
-- The methods of packages/dynrec/dynrec/client.py, called on the node of
-- packages/rosbag2_dynamic_recorder.
use rosbag2_dynamic_recorder.Base.{◌≡◌, refl, ap, String, arith}
use rosbag2_dynamic_recorder.Errors.{Result, ok, err}
use rosbag2_dynamic_recorder.Client.Call.{
  World, client_for, call, M, ◌>>=◌, outcome, service_of, Request,
}
use rosbag2_dynamic_recorder.Recorder.Node.{Outside, Node}
use rosbag2_dynamic_recorder.Recorder.Service.{serve}

server-client_for : (service : String) (w : World Node) → (client_for service w).server ≡ w.server
unfolding client_for
server-client_for service w = ground arith

-- A step that succeeds is followed by the rest.
pub >>=-ok :
    {A B : Type 0} (m : M Node A) (f : A → M Node B) (w : World Node) {a : A}
    → (m w).0 ≡ ok a
    → (m >>= f) w ≡ f a (m w).1
>>=-ok {A} m f w h =
    ap (λ (r : Result A). elim r [ ok b ↦ f b (m w).1 | err e ↦ (err e, (m w).1) ]) h

module _ (outside : Outside) where
  -- A call has the outcome of what the node answers, and leaves the node that answered.
  pub call-serve :
      (verb : String) (request : Request) (w : World Node)
      → let service = service_of (serve outside) w verb in
        ((call (serve outside) verb request w).0
          ≡ outcome service (serve outside service request w.server).0)
        × ((call (serve outside) verb request w).1.server
            ≡ (serve outside service request w.server).1)
  unfolding call
  call-serve verb request w =
      rw (server-client_for (service_of (serve outside) w verb) w) (refl, refl)
