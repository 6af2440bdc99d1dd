-- ===== src/Recorder/Profiles/Declared.antt =====
-- The profiles that packages/rosbag2_dynamic_recorder/src/recorder_config.cpp declares.
use text.Mathlib.TextEquality.{eq_iff}
use rosbag2_dynamic_recorder.Base.{
  ◌≡◌, refl, sym, subst, String, true, false, Option, none, some, List, [], ◌∷◌, ◌++◌, All, All-imp,
  arith, str_eq, inl, inr, Bool-cases,
}
use rosbag2_dynamic_recorder.Base.Text.{append}
use rosbag2_dynamic_recorder.Base.Sort.{IsSorted, sorted_by, sorted_by-IsSorted}
use rosbag2_dynamic_recorder.Discovery.{str_le, contains}
use rosbag2_dynamic_recorder.Discovery.Order.{str_le-total, str_le_trans, str_le-antisym}
use rosbag2_dynamic_recorder.Discovery.Distinct.{IsDistinct, contains-All}
use rosbag2_dynamic_recorder.Recorder.Profiles.{
  unique_after, unique, declare_profile, declare_each, declare_profiles,
}

-- In order and without duplicates.
abbrev pub IsSelection : List String → Type 0
IsSelection topics = IsSorted str_le topics × IsDistinct topics

not_after :
    (x y : String) (ys : List String)
    → str_le x y ≡ true
    → str_eq x y ≡ false
    → All (λ z. str_le y z ≡ true) ys
    → contains x ys ≡ false
not_after x y ys le other h = elim (Bool-cases (contains x ys)) [
  | inr absent ↦ absent
  | inl found ↦
      let back = contains-All (λ z. str_le y z ≡ true) x ys h found in
      ground (arith, other, (eq_iff x y).1 (str_le-antisym x y le back))
]

unique_after-IsSelection :
    (x : String) (ys : List String) → IsSorted str_le (x ∷ ys) → IsSelection (x ∷ unique_after x ys)
unfolding unique_after
unique_after-IsSelection x [] h = ((tt, tt), (refl, tt))
unique_after-IsSelection x (y ∷ ys) h =
    let (sorted, distinct) = unique_after-IsSelection y ys h.1 in
    elim (Bool-cases (str_eq x y)) [
      | inl same ↦ rw same (
          subst (λ z. IsSelection (z ∷ unique_after y ys)) (sym ((eq_iff x y).0 same))
            (sorted, distinct))
      | inr other ↦ rw other (
        ((h.0.0, All-imp (unique_after y ys) (λ z. str_le_trans x y z h.0.0) sorted.0), sorted),
        (ground (arith, other, not_after x y (unique_after y ys) h.0.0 other sorted.0), distinct),
      )
    ]

unique-IsSelection : (xs : List String) → IsSorted str_le xs → IsSelection (unique xs)
unfolding unique
unique-IsSelection [] h = (tt, tt)
unique-IsSelection (x ∷ xs) h = unique_after-IsSelection x xs h

-- A name, and topics in order and without duplicates.
abbrev pub IsProfile : String × List String → Type 0
IsProfile (name, topics) = (str_eq name "" ≡ false) × IsSelection topics

abbrev pub AllDeclared : {Params : Type 0} → Option (List (String × List String) × Params) → Type 0
AllDeclared none = Unit
AllDeclared (some (profiles, params)) = All IsProfile profiles

All-append :
    (xs ys : List (String × List String))
    → All IsProfile xs
    → All IsProfile ys
    → All IsProfile (xs ++ ys)
All-append [] ys h k = k
All-append (x ∷ xs) ys h k = (h.0, All-append xs ys h.1 k)

with_rest :
    {Params : Type 0} (profile : List (String × List String))
    (rest : Option (List (String × List String) × Params))
    → All IsProfile profile
    → AllDeclared rest
    → AllDeclared
        (elim rest [ none ↦ none | some (profiles, params) ↦ some (profile ++ profiles, params) ])
with_rest profile none h k = tt
with_rest profile (some (profiles, params)) h k = All-append profile profiles h k

with_first :
    {Params : Type 0} (first : Option (List (String × List String) × Params))
    (rest : Params → Option (List (String × List String) × Params))
    → AllDeclared first
    → ((params : Params) → AllDeclared (rest params))
    → AllDeclared (elim first [
      | none ↦ none
      | some (profile, params) ↦ elim (rest params) [
        | none ↦ none
        | some (profiles, params') ↦ some (profile ++ profiles, params')
      ]
    ])
with_first none rest h k = tt
with_first (some (profile, params)) rest h k = with_rest profile (rest params) h (k params)

with_topics :
    {Params : Type 0} (name : String)
    → str_eq name "" ≡ false
    → (topics : Option (List String × Params))
    → AllDeclared (elim topics [
      | none ↦ none
      | some (found, params) ↦ some ((name, unique (sorted_by str_le found)) ∷ [], params)
    ])
with_topics name named none = tt
with_topics name named (some (found, params)) = (
  (
    named,
    unique-IsSelection (sorted_by str_le found)
        (sorted_by-IsSorted str_le str_le-total str_le_trans found),
  ),
  tt,
)

with_names :
    {Params : Type 0} (each : List String → Params → Option (List (String × List String) × Params))
    → ((names : List String) (params : Params) → AllDeclared (each names params))
    → (names : Option (List String × Params))
    → AllDeclared (elim names [ none ↦ none | some (found, params) ↦ each found params ])
with_names each h none = tt
with_names each h (some (found, params)) = h found params

module _ {Params : Type 0} (declare : String → Params → Option (List String × Params)) where
  declare_profile-IsProfile :
      (name : String) (params : Params) → AllDeclared (declare_profile declare name params)
  unfolding declare_profile
  declare_profile-IsProfile name params = elim (Bool-cases (str_eq name "")) [
    | inl empty ↦ rw empty tt
    | inr named ↦ rw named (with_topics name named (declare (append "profiles." name) params))
  ]

  declare_each-IsProfile :
      (names : List String) (params : Params) → AllDeclared (declare_each declare names params)
  unfolding declare_each
  declare_each-IsProfile [] params = tt
  declare_each-IsProfile (name ∷ names) params =
      with_first (declare_profile declare name params) (declare_each declare names)
        (declare_profile-IsProfile name params) (declare_each-IsProfile names)

  pub declare_profiles-IsProfile : (params : Params) → AllDeclared (declare_profiles declare params)
  unfolding declare_profiles
  declare_profiles-IsProfile params =
      with_names (declare_each declare) declare_each-IsProfile (declare "profile_names" params)
