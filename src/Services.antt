-- ===== src/Services.antt =====
-- packages/dynrec/dynrec/services.py: whether a service type is the stock one of the installed rosbag2 or
-- this project's copy. The modules and their types are given.
use rosbag2_dynamic_recorder.Base.{
  String, Bool, true, Option, none, some, List, [], ◌∷◌, map, if◌then◌else◌,
}
use rosbag2_dynamic_recorder.Base.Text.{append, split_on}

-- The part of a type that tells its shapes apart: the type itself, its request or its response.
pub data Part : Type 0 where
  itself request response : Part

-- getattr for a module, none where it has no such type, and hasattr for a part of a type.
pub record Python (Interface : Type 0) : Type 0 where
  pub stock : String → Option Interface
  pub own : String → Option Interface
  pub has_field : Interface → Part → String → Bool

module _ {Interface : Type 0} (python : Python Interface) where
  abbrev pub matches : Interface → Part → Option String → Bool
  matches interface part none = true
  matches interface part (some field) = python.has_field interface part field

  abbrev pub resolve_stock : Option Interface → String → Part → Option String → Option Interface
  resolve_stock none name part field = python.own name
  resolve_stock (some stock) name part field =
      if matches stock part field then some stock else python.own name

  -- `_resolve`, none for an AttributeError.
  unfoldable pub resolve : String → Part → Option String → Option Interface
  resolve name part field = resolve_stock (python.stock name) name part field

  -- The types that rosbag2 0.34 reshaped.
  unfoldable pub reshaped : List (String × Option Interface)
  unfolding resolve
  reshaped =
      ("Record", resolve "Record" request (some "start_time"))
      ∷ ("Resume", resolve "Resume" request (some "resume_mode"))
      ∷ ("SplitBagfile", resolve "SplitBagfile" request (some "split_mode"))
      ∷ ("Stop", resolve "Stop" response (some "return_code"))
      ∷ ("MessagesLostEvent", resolve "MessagesLostEvent" itself none)
      ∷ []

  -- The types that are the same in every version of rosbag2.
  unfoldable pub unchanged : List (String × Option Interface)
  unchanged =
      map (λ name. (name, python.stock name))
        ("IsPaused" ∷ "Pause" ∷ "Snapshot" ∷ "TogglePaused" ∷ [])

-- `'/'.join((module[0], module[1], name))`, none for an IndexError.
abbrev pub joined_name : List String → String → Option String
joined_name (owner ∷ kind ∷ parts) name =
    some (append owner (append "/" (append kind (append "/" name))))
joined_name _ name = none

-- Of a type by its `__module__` and its `__name__`.
unfoldable pub type_name : String → String → Option String
unfolding split_on append
type_name module_path name = joined_name (split_on 46 module_path) name
