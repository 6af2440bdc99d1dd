-- ===== src/Client/Watch/Cancelled.antt =====
-- Cancelling a handle of packages/dynrec/dynrec/client.py.
use mathlib.Core.List.{Perm}
use mathlib.Core.List.Perm
use rosbag2_dynamic_recorder.Base.{
  ℕ, ◌==◌, ◌≡◌, refl, subst, true, false, List, [], ◌∷◌, ◌++◌, arith, inl, inr, Bool-cases,
}
use rosbag2_dynamic_recorder.Client.Watch.{
  Watching, cancel, drop_callback, on_status, on_event, cancel_status, cancel_event,
}

append-Perm :
    (callback : ℕ) (callbacks : List ℕ) → Perm (callbacks ++ callback ∷ []) (callback ∷ callbacks)
append-Perm callback [] = Perm.refl (callback ∷ [])
append-Perm callback (c ∷ callbacks) =
    Perm.trans (Perm.cons c (append-Perm callback callbacks)) (Perm.swap callback c callbacks)

drop_callback-append :
    (callback : ℕ) (callbacks : List ℕ)
    → Perm (drop_callback callback (callbacks ++ callback ∷ [])) callbacks
unfolding drop_callback
drop_callback-append callback [] =
    let same : (callback == callback) ≡ true = ground arith in rw same (Perm.refl [])
drop_callback-append callback (c ∷ callbacks) = elim (Bool-cases (callback == c)) [
  | inl same ↦
      let eq : callback ≡ c = ground arith in
      rw same (
        subst (λ d. Perm (callbacks ++ callback ∷ []) (d ∷ callbacks)) eq
          (append-Perm callback callbacks))
  | inr other ↦ rw other (Perm.cons c (drop_callback-append callback callbacks))
]

-- Cancelling the handle that on_status or on_event has just returned leaves the callbacks that were
-- registered before, each as often as before; cancelling it again, whatever was registered since, does
-- nothing.
cancel-Perm :
    (callback : ℕ) (w later : Watching)
    → let (live, after) = cancel (cancel_status callback) (true, on_status callback w) in
      let (live', after') = cancel (cancel_event callback) (true, on_event callback w) in
      Perm after.status_callbacks w.status_callbacks
      × Perm after'.event_callbacks w.event_callbacks
      × (cancel (cancel_status callback) (live, later) ≡ (false, later))
      × (cancel (cancel_event callback) (live', later) ≡ (false, later))
unfolding on_status on_event cancel_status cancel_event cancel
cancel-Perm callback w later = (
  drop_callback-append callback w.status_callbacks,
  drop_callback-append callback w.event_callbacks,
  refl,
  refl,
)
