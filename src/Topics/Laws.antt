-- ===== src/Topics/Laws.antt =====
-- parse_topic_specs of packages/dynrec/dynrec/topics.py reads back what is written as TOPIC or
-- TOPIC:TYPE, and accepts nothing else.
use Prim.Native.Char.{Char, code}
use Prim.Native.String.{◌∷◌ as char_cons}
use mathlib.Core.List.{append_assoc, append-nil}
use text.Mathlib.TextEquality.{Char-path}
use rosbag2_dynamic_recorder.Base.{
  String, ◌≡◌, refl, sym, ap, ap₂, subst, ◌∙◌, Bool, true, false, not, ◌&&◌, List, [], ◌∷◌, ◌++◌,
  map, All, ◌==◌, inl, inr, Bool-cases, arith, if◌then◌else◌,
}
use rosbag2_dynamic_recorder.Base.Text.{append, is_blank, partition}
use rosbag2_dynamic_recorder.Errors.{Error, ok, ◌>>◌, raise_if, >>=-eq-ok, ok-injective}
use rosbag2_dynamic_recorder.Topics.{
  Item, spec, other, Values, items_of, several, parse_item, parse_items, type_names,
  parse_topic_specs,
}

-- No character of the text is a colon.
unfoldable pub no_colon : String → Bool
no_colon String.[] = true
no_colon (String.◌∷◌ c s) = not (code c == b':') && no_colon s

-- A topic with its type, or with a blank text for none, as it is written.
pub written : String × String → String
unfolding append
written (topic, type_name) =
    if is_blank type_name then topic else append topic (String.◌∷◌ ":" type_name)

abbrev pub IsSpec : String × String → Type 0
IsSpec (topic, type_name) = (is_blank topic ≡ false) × (no_colon topic ≡ true)

partition-no_colon : (s : String) → no_colon s ≡ true → partition b':' s ≡ (s, false, "")
unfolding partition no_colon
partition-no_colon String.[] h = refl
partition-no_colon (String.◌∷◌ c s) h = ground (arith, partition-no_colon s)

partition-append :
    (s t : String) → no_colon s ≡ true → partition b':' (append s (String.◌∷◌ ":" t)) ≡ (s, true, t)
unfolding partition no_colon append
partition-append String.[] t h = refl
partition-append (String.◌∷◌ c s) t h = ground (arith, partition-append s t)

blank-eq : (s : String) → is_blank s ≡ true → "" ≡ s
blank-eq String.[] h = refl
blank-eq (String.◌∷◌ c s) h = cc

partition-written :
    (p : String × String) → IsSpec p → partition b':' (written p) ≡ (p.0, not (is_blank p.1), p.1)
unfolding written
partition-written (topic, type_name) h = elim (Bool-cases (is_blank type_name)) [
  | inl blank ↦ rw blank (
      partition-no_colon topic h.1
      ∙ ap (λ (t : String). (topic, false, t)) (blank-eq type_name blank))
  | inr full ↦ rw full (partition-append topic type_name h.1)
]

parse_item-written : (p : String × String) → IsSpec p → parse_item (spec (written p)) ≡ ok p
unfolding parse_item
parse_item-written p h = rw (partition-written p h, h.0) (ground arith)

-- What the parts of a partition are.
rejoin : String × Bool × String → String
rejoin (before, found, after) = if found then append before (String.◌∷◌ ":" after) else before

rejoin-cons :
    (c : Char) (parts : String × Bool × String)
    → rejoin (char_cons c parts.0, parts.1, parts.2) ≡ char_cons c (rejoin parts)
unfolding rejoin append
rejoin-cons c (before, found, after) = ground arith

partition-rejoin : (s : String) → rejoin (partition b':' s) ≡ s
unfolding partition rejoin append
partition-rejoin String.[] = refl
partition-rejoin (String.◌∷◌ c s) = elim (Bool-cases (code c == b':')) [
  | inl colon ↦ rw colon (ap (λ (d : Char). char_cons d s) (Char-path ":" c (ground arith)))
  | inr not_colon ↦
      rw not_colon (rejoin-cons c (partition b':' s) ∙ ap (char_cons c) (partition-rejoin s))
]

partition-before : (s : String) → no_colon (partition b':' s).0 ≡ true
unfolding partition no_colon
partition-before String.[] = refl
partition-before (String.◌∷◌ c s) = elim (Bool-cases (code c == b':')) [
  | inl colon ↦ rw colon
  | inr not_colon ↦ rw not_colon (ground (arith, partition-before s))
]

partition-after : (s : String) → (partition b':' s).1 ≡ false → (partition b':' s).2 ≡ ""
unfolding partition
partition-after String.[] h = refl
partition-after (String.◌∷◌ c s) h = elim (Bool-cases (code c == b':')) [
  | inl colon ↦ cc (rw colon at h)
  | inr not_colon ↦ rw not_colon (partition-after s (rw not_colon at h))
]

pair_of_ok :
    (before after : String) (bad : Bool) (f : Error) (p : String × String)
    → (raise_if bad f >> ok (before, after)) ≡ ok p
    → (before, after) ≡ p
pair_of_ok before after true f p h = cc
pair_of_ok before after false f p h = ok-injective (before, after) p h

rejoin-written :
    (before after : String) (found : Bool) (f : Error) (p : String × String)
    → (found ≡ false → after ≡ "")
    → (raise_if (found && is_blank after) f >> ok (before, after)) ≡ ok p
    → rejoin (before, found, after) ≡ written (before, after)
unfolding rejoin written
rejoin-written before after true f p b h = elim (Bool-cases (is_blank after)) [
  | inl blank ↦ cc (rw blank at h)
  | inr full ↦ rw full
]
rejoin-written before after false f p b h = rw (b refl)

accepted_parts :
    (value before after : String) (found : Bool) (p : String × String) (e f : Error)
    → no_colon before ≡ true
    → (found ≡ false → after ≡ "")
    → rejoin (before, found, after) ≡ value
    → (raise_if (is_blank before) e >> (raise_if (found && is_blank after) f >> ok (before, after)))
      ≡ ok p
    → IsSpec p × (value ≡ written p)
unfolding rejoin written
accepted_parts value before after found p e f n b j h = elim (Bool-cases (is_blank before)) [
  | inl blank ↦ cc (rw blank at h)
  | inr full ↦
      let k = rw full at h in
      subst (λ q. IsSpec q × (value ≡ written q))
        (pair_of_ok before after (found && is_blank after) f p k)
        ((full, n), sym j ∙ rejoin-written before after found f p b k)
]

-- An item that is accepted is one as it is written.
parse_item-accepted :
    (item : Item) (p : String × String)
    → parse_item item ≡ ok p
    → IsSpec p × (item ≡ spec (written p))
unfolding parse_item
parse_item-accepted other p h = cc
parse_item-accepted (spec value) p h =
    let (before, found, after) = partition b':' value in
    let (good, e) =
      accepted_parts value before after found p _ _ (partition-before value) (partition-after value)
        (partition-rejoin value) h in
    (good, ap spec e)

abbrev pub written_items : List (String × String) → List Item
written_items ps = map (λ p. spec (written p)) ps

parse_items-written :
    (ps : List (String × String)) (topics types : List String)
    → All IsSpec ps
    → parse_items topics types (written_items ps)
      ≡ ok (topics ++ map (λ p. p.0) ps, types ++ map (λ p. p.1) ps)
unfolding parse_items
parse_items-written [] topics types h =
    ap₂ (λ a b. ok (a, b)) (sym (append-nil topics)) (sym (append-nil types))
parse_items-written (p ∷ ps) topics types h = rw (parse_item-written p h.0) (
    parse_items-written ps (topics ++ p.0 ∷ []) (types ++ p.1 ∷ []) h.1
    ∙ ap₂ (λ a b. ok (a, b)) (append_assoc topics (p.0 ∷ []) _) (append_assoc types (p.1 ∷ []) _))

-- The topics and types that the services get for a list of topics with their types.
abbrev pub arrays : List (String × String) → List String × List String
arrays ps = (map (λ p. p.0) ps, type_names (map (λ p. p.1) ps))

-- Topics without a colon, written as TOPIC or as TOPIC:TYPE, are read back as the topics and the
-- types, and as no types at all where no topic has one.
pub parse_topic_specs-written :
    (ps : List (String × String))
    → All IsSpec ps
    → parse_topic_specs (several (written_items ps)) ≡ ok (arrays ps)
unfolding parse_topic_specs
parse_topic_specs-written ps h = rw (parse_items-written ps [] [] h)

parse_items-accepted :
    (items : List Item) (topics types : List String) (r : List String × List String)
    → parse_items topics types items ≡ ok r
    → (ps : List (String × String)) × All IsSpec ps × (items ≡ written_items ps)
unfolding parse_items
parse_items-accepted [] topics types r h = ([], tt, refl)
parse_items-accepted (item ∷ items) topics types r h =
    let (p, e, k) = >>=-eq-ok (parse_item item) _ h in
    let (good, same) = parse_item-accepted item p e in
    let (ps, all_good, rest) = parse_items-accepted items _ _ r k in
    (p ∷ ps, (good, all_good), ap₂ ◌∷◌ same rest)

-- Whatever is accepted is a list of topics written as TOPIC or TOPIC:TYPE, each topic non-empty and
-- without a colon, and the result is those topics and types.
pub parse_topic_specs-accepted :
    (values : Values) (r : List String × List String)
    → parse_topic_specs values ≡ ok r
    → (ps : List (String × String)) × All IsSpec ps
      × (items_of values ≡ written_items ps)
      × (r ≡ arrays ps)
unfolding parse_topic_specs
parse_topic_specs-accepted values r h =
    let (parsed, e, k) = >>=-eq-ok (parse_items [] [] (items_of values)) _ h in
    let (ps, good, same) = parse_items-accepted (items_of values) [] [] parsed e in
    let again = ap (λ (items : List Item). parse_topic_specs (several items)) same in
    (ps, good, same, ok-injective r (arrays ps) (sym h ∙ again ∙ parse_topic_specs-written ps good))
