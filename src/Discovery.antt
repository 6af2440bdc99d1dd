-- ===== src/Discovery.antt =====
-- packages/dynrec/dynrec/discovery.py: finding the recorder on the graph, and which one is meant.
pub mod Nodes
pub mod Choice
pub mod Order
pub mod Distinct
use Prim.Native.String.{compare}
use Prim.Native.Nat.{Ordering}
use rosbag2_dynamic_recorder.Base.{
  ℕ, String, Bool, true, false, ◌&&◌, Option, none, some, List, [], ◌∷◌, ◌++◌, any, str_eq, length,
  ltb, if◌then◌else◌,
}
use rosbag2_dynamic_recorder.Base.Sort.{sorted_by}
use rosbag2_dynamic_recorder.Base.Text.{append, ends_with, drop_last, len, strip, is_blank}
use rosbag2_dynamic_recorder.Errors.{recorder_not_found, ambiguous_recorder, Result, ok, err}

abbrev pub get_status_type : String
get_status_type = "rosbag2_dynamic_recorder_interfaces/srv/GetStatus"

abbrev pub get_status_suffix : String
get_status_suffix = "/get_status"

-- A service's name and its types.
abbrev pub Service : Type 0
Service = String × List String

-- Python's `<=` on texts.
abbrev pub str_le : String → String → Bool
str_le s t = elim (compare s t) [ Ordering.gt ↦ false | _ ↦ true ]

abbrev pub contains : String → List String → Bool
contains s = any (λ t. str_eq s t)

-- `found.add(name)`; the order of a set shows nowhere, since it is sorted.
abbrev pub add_to_set : String → List String → List String
add_to_set name found = if contains name found then found else name ∷ found

abbrev pub is_recorder : Service → Bool
is_recorder (name, types) = ends_with name get_status_suffix && contains get_status_type types

-- `name[:-len(GET_STATUS_SUFFIX)]`
abbrev pub stem : String → String
stem name = drop_last (len get_status_suffix) name

abbrev pub found_in : List String → List Service → List String
found_in found [] = found
found_in found (service ∷ services) =
    found_in (if is_recorder service then add_to_set (stem service.0) found else found) services

unfoldable pub recorder_nodes : List Service → List String
unfolding ends_with drop_last len sorted_by
recorder_nodes services = sorted_by str_le (found_in [] services)

unfoldable pub node_name : String → String
unfolding append strip
node_name requested = append "/" (strip b'/' requested)

-- No name is asked for: None, or an empty text.
abbrev pub unnamed : Option String → Bool
unnamed none = true
unnamed (some requested) = is_blank requested

abbrev pub the_only_one : List String → Result String
the_only_one [] = err recorder_not_found
the_only_one (name ∷ []) = ok name
the_only_one (name ∷ other ∷ more) = err (ambiguous_recorder (name ∷ other ∷ more))

unfoldable pub choose_recorder : List String → Option String → Result String
choose_recorder discovered none = the_only_one discovered
choose_recorder discovered (some requested) =
    if is_blank requested then the_only_one discovered else ok (node_name requested)
