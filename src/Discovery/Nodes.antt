-- ===== src/Discovery/Nodes.antt =====
-- recorder_nodes of packages/dynrec/dynrec/discovery.py lists the recorders, each once.
use text.Mathlib.TextEquality.{eq_iff}
use mathlib.Core.Bool.{false≢true}
use rosbag2_dynamic_recorder.Base.{
  String, ◌≡◌, refl, sym, ap, subst, ◌∙◌, Bool, true, false, ◌&&◌, ◌||◌, List, [], ◌∷◌, any, str_eq,
  inl, inr, Bool-cases, bool_ext, ◌⊎◌, arith, if◌then◌else◌,
}
use rosbag2_dynamic_recorder.Base.Sort.{insert_by, sorted_by, any-sorted_by}
use rosbag2_dynamic_recorder.Base.Text.{append, ends_with, ends_with_iff, drop_last-append}
use rosbag2_dynamic_recorder.Discovery.{
  Service, contains, add_to_set, is_recorder, stem, found_in, recorder_nodes, get_status_suffix,
  get_status_type, str_le,
}

-- The service is the get_status of the node: its name, and one of its types.
abbrev pub is_status_of : String → Service → Bool
is_status_of node (name, types) =
    str_eq name (append node get_status_suffix) && contains get_status_type types

-- `stem` is the only node whose get_status has a name that ends so.
stem-append : (node : String) → stem (append node get_status_suffix) ≡ node
stem-append node = drop_last-append node get_status_suffix

stem-eq :
    (node name : String)
    → ends_with name get_status_suffix ≡ true
    → str_eq node (stem name) ≡ str_eq name (append node get_status_suffix)
stem-eq node name h =
    let (u, e) = (ends_with_iff name get_status_suffix).0 h in
    let f : stem name ≡ u = ap stem e ∙ stem-append u in
    bool_ext _ _
      (λ p.
        (eq_iff name _).1
          (e ∙ ap (λ (n : String). append n get_status_suffix) (sym ((eq_iff node _).0 p ∙ f))))
      (λ p. (eq_iff node _).1 (sym (ap stem ((eq_iff name _).0 p) ∙ stem-append node)))

-- The test of the loop and the name that it adds say whether the service is that of a node.
is_recorder-stem :
    (node : String) (service : Service)
    → (is_recorder service && str_eq node (stem service.0)) ≡ is_status_of node service
is_recorder-stem node (name, types) = elim (Bool-cases (ends_with name get_status_suffix)) [
  | inl ends ↦
      rw (ends, stem-eq node name ends)
        (and_comm (contains get_status_type types) (str_eq name (append node get_status_suffix)))
  | inr other ↦ rw other (sym (not_status node name types other))
]
  where
    and_comm : (a b : Bool) → (a && b) ≡ (b && a)
    and_comm a b = ground arith

    not_status :
        (n m : String) (ts : List String)
        → ends_with m get_status_suffix ≡ false
        → is_status_of n (m, ts) ≡ false
    not_status n m ts h = elim (Bool-cases (str_eq m (append n get_status_suffix))) [
      | inl same ↦
          absurd
            (false≢true (sym h ∙ (ends_with_iff m get_status_suffix).1 (n, (eq_iff m _).0 same)))
      | inr differ ↦ rw differ
    ]

contains-add_to_set :
    (node name : String) (found : List String)
    → contains node (add_to_set name found) ≡ (str_eq node name || contains node found)
contains-add_to_set node name found = elim (Bool-cases (contains name found)) [
  | inl old ↦
      rw old (bool_ext _ _ (λ p. ground arith) (λ p. again (Bool-cases (str_eq node name)) old p))
  | inr new ↦ rw new
]
  where
    again :
        ((str_eq node name ≡ true) ⊎ (str_eq node name ≡ false))
        → contains name found ≡ true
        → (str_eq node name || contains node found) ≡ true
        → contains node found ≡ true
    again (inl same) old p =
        subst (λ n. contains n found ≡ true) (sym ((eq_iff node name).0 same)) old
    again (inr differ) old p = rw differ at p

contains-found_in :
    (node : String) (found : List String) (services : List Service)
    → contains node (found_in found services)
      ≡ (contains node found || any (is_status_of node) services)
contains-found_in node found [] = ground arith
contains-found_in node found (service ∷ services) = elim (Bool-cases (is_recorder service)) [
  | inl recorder ↦ rw recorder (
      contains-found_in node (add_to_set (stem service.0) found) services
      ∙ (ground
          (arith, contains-add_to_set node (stem service.0) found, is_recorder-stem node service)))
  | inr other_service ↦
      rw other_service
        (contains-found_in node found services ∙ (ground (arith, is_recorder-stem node service)))
]

-- A node is listed exactly when the graph offers its get_status with the type of this package: what
-- the node is called does not matter.
pub contains-recorder_nodes :
    (node : String) (services : List Service)
    → contains node (recorder_nodes services) ≡ any (is_status_of node) services
unfolding recorder_nodes
contains-recorder_nodes node services =
    any-sorted_by str_le (str_eq node) (found_in [] services) ∙ contains-found_in node [] services

-- No name stands twice.
abbrev pub IsDistinct : List String → Type 0
IsDistinct [] = Unit
IsDistinct (name ∷ names) = (contains name names ≡ false) × IsDistinct names

found_in-IsDistinct :
    (found : List String) (services : List Service)
    → IsDistinct found
    → IsDistinct (found_in found services)
found_in-IsDistinct found [] d = d
found_in-IsDistinct found (service ∷ services) d =
    found_in-IsDistinct (if is_recorder service then add_to_set (stem service.0) found else found)
      services (ground arith)

str_eq_comm : (s t : String) → str_eq s t ≡ str_eq t s
str_eq_comm s t =
    bool_ext _ _ (λ p. (eq_iff t s).1 (sym ((eq_iff s t).0 p)))
      (λ p. (eq_iff s t).1 (sym ((eq_iff t s).0 p)))

contains-insert_by :
    (x y : String) (ys : List String)
    → contains x (insert_by str_le y ys) ≡ (str_eq x y || contains x ys)
unfolding insert_by
contains-insert_by x y [] = refl
contains-insert_by x y (z ∷ ys) = elim (Bool-cases (str_le y z)) [
  | inl before ↦ rw before
  | inr after ↦ rw (after, contains-insert_by x y ys) (ground arith)
]

insert_by-IsDistinct :
    (name : String) (names : List String)
    → contains name names ≡ false
    → IsDistinct names
    → IsDistinct (insert_by str_le name names)
unfolding insert_by
insert_by-IsDistinct name [] h d = (refl, tt)
insert_by-IsDistinct name (other ∷ names) h d = elim (Bool-cases (str_le name other)) [
  | inl before ↦ rw before (h, d)
  | inr after ↦ rw after (
    contains-insert_by other name names ∙ (rw (str_eq_comm other name) (ground arith)),
    insert_by-IsDistinct name names (ground arith) d.1,
  )
]

sorted_by-IsDistinct :
    (names : List String) → IsDistinct names → IsDistinct (sorted_by str_le names)
unfolding sorted_by
sorted_by-IsDistinct [] d = tt
sorted_by-IsDistinct (name ∷ names) d =
    insert_by-IsDistinct name (sorted_by str_le names)
      (any-sorted_by str_le (str_eq name) names ∙ d.0) (sorted_by-IsDistinct names d.1)

-- No node is listed twice, however often the graph lists its service.
recorder_nodes-IsDistinct : (services : List Service) → IsDistinct (recorder_nodes services)
unfolding recorder_nodes
recorder_nodes-IsDistinct services =
    sorted_by-IsDistinct (found_in [] services) (found_in-IsDistinct [] services tt)
