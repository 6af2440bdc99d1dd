-- ===== src/Results/Profiles.antt =====
-- Profiles of packages/dynrec/dynrec/results.py.
use rosbag2_dynamic_recorder.Base.{
  ◌≡◌, ◌≢◌, refl, sym, ap, ◌∙◌, String, Bool, true, false, Option, none, some, List, [], ◌∷◌, map,
  str_eq, if◌then◌else◌, Bool-cases, inl, inr,
}
use mathlib.Core.Bool.{true≢false}
use text.Mathlib.TextEquality.{eq_iff}
use rosbag2_dynamic_recorder.Errors.{Response}
use rosbag2_dynamic_recorder.Results.ProfileMsg.{ProfileMsg}

-- A dict from names to topics, in the order in which the names were first put in.
abbrev pub Profiled : Type 0
Profiled = List (String × List String)

-- `profiles[name] = topics`
unfoldable pub put : String → List String → Profiled → Profiled
put name topics [] = (name, topics) ∷ []
put name topics ((known, old) ∷ profiles) =
    let rest = put name topics profiles in
    if str_eq name known then (known, topics) ∷ profiles else (known, old) ∷ rest

unfoldable pub put_all : Profiled → List ProfileMsg → Profiled
unfolding put
put_all profiles [] = profiles
put_all profiles (p ∷ ps) = put_all (put p.name p.topics profiles) ps

pub record Profiles : Type 0 where
  pub profiles : Profiled
  pub active : String

unfoldable pub profiles_from_msg : Response → Profiles
unfolding put_all
profiles_from_msg response = record {
  profiles = put_all [] response.profiles;
  active = response.active_profile;
}

-- `names`, which `__iter__` goes through as well
abbrev pub profile_names : Profiles → List String
profile_names ps = map (λ p. p.0) ps.profiles

abbrev pub get : String → Profiled → Option (List String)
get name [] = none
get name ((known, topics) ∷ profiles) = if str_eq name known then some topics else get name profiles

-- `__getitem__`, none for KeyError
unfoldable pub topics_of : String → Profiles → Option (List String)
topics_of name ps = get name ps.profiles

-- The topics of the last profile of a name, or else what was known before.
abbrev pub last_named : String → Option (List String) → List ProfileMsg → Option (List String)
last_named name known [] = known
last_named name known (p ∷ ps) =
    last_named name (if str_eq name p.name then some p.topics else known) ps

swap_if :
    (b : Bool) (new old : List String) (rest : Option (List String))
    → (if b then some new else rest) ≡ (if b then some new else if b then some old else rest)
swap_if true new old rest = refl
swap_if false new old rest = refl

exclusive_if :
    (a b : Bool) (x y z : Option (List String))
    → (a ≡ true → b ≢ true)
    → (if a then x else if b then y else z) ≡ (if b then y else if a then x else z)
exclusive_if true true x y z h = absurd (h refl refl)
exclusive_if true false x y z h = refl
exclusive_if false true x y z h = refl
exclusive_if false false x y z h = refl

get-put :
    (name key : String) (topics : List String) (profiles : Profiled)
    → get name (put key topics profiles)
      ≡ (if str_eq name key then some topics else get name profiles)
unfolding put
get-put name key topics [] = refl
get-put name key topics ((known, old) ∷ profiles) = elim (Bool-cases (str_eq key known)) [
  | inl same ↦
      let e : key ≡ known = (eq_iff key known).0 same in
      rw (same, e) (swap_if (str_eq name known) topics old (get name profiles))
  | inr other ↦
      rw (other, get-put name key topics profiles)
        (exclusive_if (str_eq name known) (str_eq name key) (some old) (some topics)
          (get name profiles)
          (λ a b. true≢false (
            sym ((eq_iff key known).1 (sym ((eq_iff name key).0 b) ∙ (eq_iff name known).0 a))
            ∙ other)))
]

get-put_all :
    (name : String) (profiles : Profiled) (ps : List ProfileMsg)
    → get name (put_all profiles ps) ≡ last_named name (get name profiles) ps
unfolding put_all
get-put_all name profiles [] = refl
get-put_all name profiles (p ∷ ps) =
    get-put_all name (put p.name p.topics profiles) ps
    ∙ ap (λ known. last_named name known ps) (get-put name p.name p.topics profiles)

-- The topics of a profile are those that the response gives last under its name; a name that the
-- response does not have has none.
topics_of-profiles_from_msg :
    (name : String) (response : Response)
    → topics_of name (profiles_from_msg response) ≡ last_named name none response.profiles
unfolding topics_of profiles_from_msg
topics_of-profiles_from_msg name response = get-put_all name [] response.profiles
