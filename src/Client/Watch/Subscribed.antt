-- ===== src/Client/Watch/Subscribed.antt =====
-- What packages/dynrec/dynrec/client.py is subscribed to, after any calls of on_status and on_event
-- and any cancels.
use mathlib.Core.List.{append-nil}
use rosbag2_dynamic_recorder.Base.{
  ℕ, ◌≡◌, refl, sym, subst, ◌++◌, ◌⊎◌, inl, inr, String, List, [], ◌∷◌, ap, ◌∙◌,
}
use rosbag2_dynamic_recorder.Client.Watch.{
  Watching, watching, status_topics, event_topics, missing, on_status, on_event, cancel_status,
  cancel_event, drop_callback,
}

pub data Step : Watching → Watching → Type 0 where
  on_status_step : (w : Watching) (callback : ℕ) → Step w (on_status callback w)
  on_event_step : (w : Watching) (callback : ℕ) → Step w (on_event callback w)
  cancel_status_step : (w : Watching) (callback : ℕ) → Step w (cancel_status callback w)
  cancel_event_step : (w : Watching) (callback : ℕ) → Step w (cancel_event callback w)

pub data Reached : String → Watching → Type 0 where
  initial : (name : String) → Reached name (watching name)
  next : (name : String) (v w : Watching) → Reached name v → Step v w → Reached name w

-- All the topics are subscribed to, or none is and there is no callback either.
abbrev pub IsServed : List String → List String → List ℕ → Type 0
IsServed topics subs callbacks = ((subs ≡ []) × (callbacks ≡ [])) ⊎ (subs ≡ topics)

-- The calls made were those of what is held, the status first or the events first.
abbrev pub IsCreated : List String → List String → List String → Type 0
IsCreated created status events = (created ≡ status ++ events) ⊎ (created ≡ events ++ status)

abbrev pub IsWatching : String → Watching → Type 0
IsWatching name w =
    (w.name ≡ name)
    × IsServed (status_topics name) w.status_sub w.status_callbacks
    × IsServed (event_topics name) w.event_subs w.event_callbacks
    × IsCreated w.created w.status_sub w.event_subs

missing-IsServed :
    (topics subs : List String) (callbacks more : List ℕ)
    → IsServed topics subs callbacks
    → IsServed topics (subs ++ missing topics subs) more
missing-IsServed topics [] callbacks more h = inr refl
missing-IsServed topics (s ∷ subs) callbacks more (inl h) = cc
missing-IsServed topics (s ∷ subs) callbacks more (inr h) = inr (append-nil (s ∷ subs) ∙ h)

swap : (created a b : List String) → IsCreated created a b → IsCreated created b a
swap created a b (inl h) = inr h
swap created a b (inr h) = inl h

-- What is missing is created once.
missing-IsCreated :
    (topics created subs others : List String)
    → IsCreated created subs others
    → IsCreated (created ++ missing topics subs) (subs ++ missing topics subs) others
missing-IsCreated topics created [] others (inl h) = inr (ap (λ c. c ++ topics) h)
missing-IsCreated topics created [] others (inr h) =
    inr (ap (λ c. c ++ topics) (h ∙ append-nil others))
missing-IsCreated topics created (s ∷ subs) others h =
    subst (λ c. IsCreated c (s ∷ subs ++ []) others) (sym (append-nil created))
      (subst (λ held. IsCreated created held others) (sym (append-nil (s ∷ subs))) h)

drop_callback-IsServed :
    (topics subs : List String) (callback : ℕ) (callbacks : List ℕ)
    → IsServed topics subs callbacks
    → IsServed topics subs (drop_callback callback callbacks)
unfolding drop_callback
drop_callback-IsServed topics subs callback callbacks (inl h) =
    inl (h.0, ap (drop_callback callback) h.1)
drop_callback-IsServed topics subs callback callbacks (inr h) = inr h

Step-IsWatching :
    (name : String) (v w : Watching) → IsWatching name v → Step v w → IsWatching name w
unfolding on_status on_event cancel_status cancel_event
Step-IsWatching name _ _ (n, s, e, c) (on_status_step v callback) = (
  n,
  subst
      (λ m.
        IsServed (status_topics name) (v.status_sub ++ missing (status_topics m) v.status_sub)
          (v.status_callbacks ++ callback ∷ []))
      (sym n) (missing-IsServed _ v.status_sub v.status_callbacks _ s),
  e,
  missing-IsCreated (status_topics v.name) v.created v.status_sub v.event_subs c,
)
Step-IsWatching name _ _ (n, s, e, c) (on_event_step v callback) = (
  n,
  s,
  subst
      (λ m.
        IsServed (event_topics name) (v.event_subs ++ missing (event_topics m) v.event_subs)
          (v.event_callbacks ++ callback ∷ []))
      (sym n) (missing-IsServed _ v.event_subs v.event_callbacks _ e),
  swap _ (v.event_subs ++ missing (event_topics v.name) v.event_subs) v.status_sub (
      missing-IsCreated (event_topics v.name) v.created v.event_subs v.status_sub
        (swap v.created v.status_sub v.event_subs c)),
)
Step-IsWatching name _ _ (n, s, e, c) (cancel_status_step v callback) = (
  n,
  drop_callback-IsServed (status_topics name) v.status_sub callback v.status_callbacks s,
  e,
  c,
)
Step-IsWatching name _ _ (n, s, e, c) (cancel_event_step v callback) =
    (n, s, drop_callback-IsServed (event_topics name) v.event_subs callback v.event_callbacks e, c)

-- After any calls of on_status and on_event and any cancels, the client is subscribed to the status
-- topic, or not, and then it has no callback for it; the same goes for the event topics, all of them;
-- and it has called create_subscription once for each topic that it is subscribed to, and for no other.
pub Reached-IsWatching : (name : String) (w : Watching) → Reached name w → IsWatching name w
Reached-IsWatching _ _ (initial name) = (refl, inl (refl, refl), inl (refl, refl), inl refl)
Reached-IsWatching _ _ (next name v w r s) =
    Step-IsWatching name v w (Reached-IsWatching name v r) s
