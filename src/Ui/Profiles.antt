-- ===== src/Ui/Profiles.antt =====
-- _fetch_profiles of packages/rosbag2_dynamic_recorder_ui/rosbag2_dynamic_recorder_ui/ui_node.py. The
-- fuel is the number of times that rclpy.ok() says yes. Recorder.profiles raises DynrecErrors only.
use rosbag2_dynamic_recorder.Base.{
  ℕ, zero, suc, ◌≤◌, ◌≡◌, refl, ap, String, Bool, true, false, Option, none, some, List, [], ◌∷◌,
  is_empty, length, arith, if◌then◌else◌,
}
use rosbag2_dynamic_recorder.Errors.{Result, ok, err}
use rosbag2_dynamic_recorder.Results.Profiles.{Profiles, Profiled}
use rosbag2_dynamic_recorder.Client.Call.{Request, Reply, World}
use rosbag2_dynamic_recorder.Client.Operations.{profiles_op}

-- What is logged.
pub data Note : Type 0 where
  waiting : Note
  offering : ℕ → Note
  none_configured : Note

abbrev pub note_of : Profiled → Note
note_of profiles = if is_empty profiles then none_configured else offering (length profiles)

-- A round: what this attempt makes of the rounds that follow.
abbrev pub fetched :
    Bool → Option Profiled × List Note → Result Profiles → Option Profiled × List Note
fetched announced rest (ok ps) = (some ps.profiles, note_of ps.profiles ∷ [])
fetched announced (found, notes) (err e) = (found, if announced then notes else waiting ∷ notes)

module _ {Server : Type 0} (serve : String → Request → Server → Reply × Server) where
  -- The profiles that the node gets to offer, and what is logged.
  unfoldable pub fetch_profiles : ℕ → Bool → World Server → Option Profiled × List Note
  fetch_profiles zero announced w = (none, [])
  fetch_profiles (suc rounds) announced w =
      let (result, w') = profiles_op serve w in
      fetched announced (fetch_profiles rounds true w') result

  -- The world after a number of attempts.
  abbrev pub after_attempts : ℕ → World Server → World Server
  after_attempts zero w = w
  after_attempts (suc n) w = after_attempts n (profiles_op serve w).1

  -- How often it is logged that the node is waiting.
  abbrev pub waits : List Note → ℕ
  waits [] = 0
  waits (waiting ∷ notes) = suc (waits notes)
  waits (offering n ∷ notes) = waits notes
  waits (none_configured ∷ notes) = waits notes

  waits-note_of : (profiles : Profiled) → waits (note_of profiles ∷ []) ≡ 0
  waits-note_of [] = refl
  waits-note_of (p ∷ profiles) = refl

  waits-fetched :
      (announced : Bool) (rest : Option Profiled × List Note) (result : Result Profiles)
      → waits rest.1 ≡ 0
      → waits (fetched announced rest result).1 ≤ (if announced then 0 else 1)
  waits-fetched true rest (ok ps) h = ground (arith, waits-note_of ps.profiles)
  waits-fetched false rest (ok ps) h = ground (arith, waits-note_of ps.profiles)
  waits-fetched true (found, notes) (err e) h = omega (arith, h)
  waits-fetched false (found, notes) (err e) h = omega (arith, h)

  waits-fetch_profiles :
      (rounds : ℕ) (announced : Bool) (w : World Server)
      → waits (fetch_profiles rounds announced w).1 ≤ (if announced then 0 else 1)
  unfolding fetch_profiles
  waits-fetch_profiles zero true w = omega arith
  waits-fetch_profiles zero false w = omega arith
  waits-fetch_profiles (suc rounds) announced w =
      let (result, w') = profiles_op serve w in
      waits-fetched announced (fetch_profiles rounds true w') result
        (omega (arith, waits-fetch_profiles rounds true w'))

  fetched-found :
      (announced : Bool) (rest : Option Profiled × List Note) (result : Result Profiles)
      → (profiles : Profiled) × (rest.0 ≡ some profiles)
      → (profiles : Profiled) × ((fetched announced rest result).0 ≡ some profiles)
  fetched-found announced rest (ok ps) h = (ps.profiles, refl)
  fetched-found announced (found, notes) (err e) h = h

  fetch_profiles-found :
      (n : ℕ) (announced : Bool) (w : World Server) (ps : Profiles)
      → (profiles_op serve (after_attempts n w)).0 ≡ ok ps
      → (profiles : Profiled) × ((fetch_profiles (suc n) announced w).0 ≡ some profiles)
  unfolding fetch_profiles
  fetch_profiles-found zero announced w ps h =
      (ps.profiles, ap (λ result. (fetched announced (none, []) result).0) h)
  fetch_profiles-found (suc n) announced w ps h =
      let (result, w') = profiles_op serve w in
      fetched-found announced (fetch_profiles (suc n) true w') result
        (fetch_profiles-found n true w' ps h)

  -- As soon as the recorder would answer with its profiles, the node has profiles to offer: if the
  -- attempt after n others succeeds, one of the first n + 1 rounds ends the waiting. That it waits is
  -- logged once at most.
  pub fetch_profiles-answered :
      (n : ℕ) (w : World Server) (ps : Profiles)
      → (profiles_op serve (after_attempts n w)).0 ≡ ok ps
      → ((profiles : Profiled) × ((fetch_profiles (suc n) false w).0 ≡ some profiles))
        × (waits (fetch_profiles (suc n) false w).1 ≤ 1)
  fetch_profiles-answered n w ps h =
      (fetch_profiles-found n false w ps h, waits-fetch_profiles (suc n) false w)
