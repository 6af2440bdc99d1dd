-- ===== src/Launch/Parameters.antt =====
-- recorder_parameters of packages/rosbag2_dynamic_recorder/launch/dynamic_recorder.launch.py: which
-- parameters the recorder gets.
use rosbag2_dynamic_recorder.Base.{
  ◌≡◌, refl, sym, ap, ◌∙◌, String, Option, none, some, List, [], ◌∷◌, ◌++◌, map, is_empty,
  if◌then◌else◌,
}
use mathlib.Core.List.{append-nil}
use rosbag2_dynamic_recorder.Launch.{
  as_text, as_bool, as_int, as_float, apart, Argument, arguments, Parameter, texts, Parameters,
  Readers, put_first, with_topics, topic_list, parse_as, typed_parameters, recorder_parameters,
}

-- The names of the arguments that have a type.
abbrev pub typed_names : List Argument → List String
typed_names [] = []
typed_names ((name, default, apart) ∷ rest) = typed_names rest
typed_names ((name, default, kind) ∷ rest) = name ∷ typed_names rest

abbrev pub names_of : Parameters → List String
names_of parameters = map (λ p. p.0) parameters

some-injective : {A : Type 0} (a b : A) → some a ≡ some b → a ≡ b
some-injective a b h = cc

put_first-names :
    (name : String) (value : Option Parameter) (rest : Option Parameters) (ps : Parameters)
    → put_first name value rest ≡ some ps
    → (qs : Parameters) × (rest ≡ some qs) × (names_of ps ≡ name ∷ names_of qs)
put_first-names name (some value) (some rest) ps h =
    (rest, refl, ap names_of (sym (some-injective ((name, value) ∷ rest) ps h)))
put_first-names name none rest ps h = cc
put_first-names name (some value) none ps h = cc

-- What a typed argument adds.
Named : List String → Option Parameters → Type 0
Named names found = (ps : Parameters) → found ≡ some ps → names_of ps ≡ names

put_first-Named :
    (name : String) (names : List String) (value : Option Parameter) (rest : Option Parameters)
    → Named names rest
    → Named (name ∷ names) (put_first name value rest)
unfolding Named
put_first-Named name names value rest h ps e =
    let (qs, same, first) = put_first-names name value rest ps e in
    first ∙ ap (λ more. name ∷ more) (h qs same)

names_of-append : (ps qs : Parameters) → names_of (ps ++ qs) ≡ names_of ps ++ names_of qs
names_of-append [] qs = refl
names_of-append (p ∷ ps) qs = ap (λ more. p.0 ∷ more) (names_of-append ps qs)

-- The name that a list of topics adds.
abbrev pub topics_name : List String → List String
topics_name topics = if is_empty topics then [] else "topics" ∷ []

with_topics-names :
    (names : List String) (found : Option Parameters) (topics : Option (List String))
    (ps : Parameters)
    → Named names found
    → with_topics found topics ≡ some ps
    → (listed : List String) × (topics ≡ some listed) × (names_of ps ≡ names ++ topics_name listed)
unfolding Named
with_topics-names names (some qs) (some []) ps h e =
    ([], refl, ap names_of (sym (some-injective qs ps e)) ∙ h qs refl ∙ sym (append-nil names))
with_topics-names names (some qs) (some (t ∷ ts)) ps h e = (
  t ∷ ts,
  refl,
  ap names_of (sym (some-injective (qs ++ ("topics", texts (t ∷ ts)) ∷ []) ps e))
      ∙ names_of-append qs (("topics", texts (t ∷ ts)) ∷ [])
      ∙ ap (λ more. more ++ "topics" ∷ []) (h qs refl),
)
with_topics-names names none topics ps h e = cc
with_topics-names names (some qs) none ps h e = cc

module _ (readers : Readers) (value : String → String) where
  typed_parameters-Named :
      (rest : List Argument) → Named (typed_names rest) (typed_parameters readers value rest)
  unfolding typed_parameters Named
  typed_parameters-Named [] ps e = ap names_of (sym (some-injective [] ps e))
  typed_parameters-Named ((name, default, apart) ∷ rest) ps e = typed_parameters-Named rest ps e
  typed_parameters-Named ((name, default, as_text) ∷ rest) ps e =
      put_first-Named name (typed_names rest) (parse_as readers as_text (value name))
        (typed_parameters readers value rest) (typed_parameters-Named rest) ps e
  typed_parameters-Named ((name, default, as_bool) ∷ rest) ps e =
      put_first-Named name (typed_names rest) (parse_as readers as_bool (value name))
        (typed_parameters readers value rest) (typed_parameters-Named rest) ps e
  typed_parameters-Named ((name, default, as_int) ∷ rest) ps e =
      put_first-Named name (typed_names rest) (parse_as readers as_int (value name))
        (typed_parameters readers value rest) (typed_parameters-Named rest) ps e
  typed_parameters-Named ((name, default, as_float) ∷ rest) ps e =
      put_first-Named name (typed_names rest) (parse_as readers as_float (value name))
        (typed_parameters readers value rest) (typed_parameters-Named rest) ps e

  -- If the arguments can be read, the recorder gets one parameter for each argument that has a type,
  -- under its name and in their order, and then `topics`, exactly when the list of topics is not empty.
  pub recorder_parameters-names :
      (ps : Parameters)
      → recorder_parameters readers value ≡ some ps
      → (listed : List String) × (topic_list readers (value "topics") ≡ some listed)
        × (names_of ps ≡ typed_names arguments ++ topics_name listed)
  unfolding recorder_parameters
  recorder_parameters-names ps e =
      with_topics-names (typed_names arguments) (typed_parameters readers value arguments)
        (topic_list readers (value "topics")) ps (typed_parameters-Named arguments) e
