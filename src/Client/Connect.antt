-- ===== src/Client/Connect.antt =====
-- How a client of packages/dynrec/dynrec/client.py comes up and goes down: _poll_for_recorders,
-- discover, Recorder.__init__ and close, and what a missing service is explained with. rclpy's node and
-- Python's clock are a parameter. The rounds of the polling are counted by fuel.
pub mod Polling
pub mod Lifecycle
use rosbag2_dynamic_recorder.Base.{
  ℕ, zero, suc, ◌+◌, ◌/◌, String, Bool, true, false, not, ◌&&◌, Option, none, some, List, [], ◌∷◌,
  keep, is_empty, leb, str_eq, if◌then◌else◌,
}
use rosbag2_dynamic_recorder.Base.Int.{ℤ, pos_part}
use rosbag2_dynamic_recorder.Base.Text.{append, str}
use rosbag2_dynamic_recorder.Errors.{Result, ok, err}
use rosbag2_dynamic_recorder.Discovery.{
  Service, contains, recorder_nodes, node_name, choose_recorder,
}

-- Times are in nanoseconds: `time.sleep(0.05)`.
abbrev pub poll_period : ℕ
poll_period = 50_000_000

-- What is outside the program: the graph as the node sees it, time.monotonic and time.sleep.
pub record Surroundings (Outside : Type 0) : Type 0 where
  pub get_services : Outside → List Service × Outside
  pub monotonic : Outside → ℕ × Outside
  pub sleep : ℕ → Outside → Outside

-- `discovered and (requested is None or node_name(requested) in discovered)`
unfoldable pub is_found : Option String → List String → Bool
unfolding node_name
is_found none discovered = not (is_empty discovered)
is_found (some requested) discovered =
    not (is_empty discovered) && contains (node_name requested) discovered

-- `_unique_node_name`, of the process id and the next number of the counter.
unfoldable pub unique_node_name : ℕ → ℕ → String
unfolding append str
unique_node_name pid n = append "dynrec_client_" (append (str pid) (append "_" (str n)))

-- The private context with its node and thread; `shutdowns` counts how often they are shut down.
pub record Ros : Type 0 where
  pub closed : Bool
  pub shutdowns : ℕ

abbrev pub open_ros : Ros
open_ros = record { closed = false; shutdowns = 0 }

unfoldable pub close : Ros → Ros
close ros = if ros.closed then ros else record { closed = true; shutdowns = ros.shutdowns + 1 }

-- What `__init__` leaves in the object, or the exception, and the private context either way.
pub record Connection : Type 0 where
  pub discovered : List String
  pub chosen : Result String
  pub ros : Ros

-- The part of `__init__` that can fail, with what was discovered.
unfoldable pub connected : List String → Option String → Connection
unfolding choose_recorder close
connected discovered requested = elim (choose_recorder discovered requested) [
  | ok name ↦ record { discovered = discovered; chosen = ok name; ros = open_ros }
  | err e ↦ record { discovered = discovered; chosen = err e; ros = close open_ros }
]

module _ {Outside : Type 0} (around : Surroundings Outside) where
  -- The loop, with a deadline.
  unfoldable pub poll : ℕ → ℕ → Option String → Outside → Option (List String × Outside)
  unfolding recorder_nodes is_found
  poll zero deadline requested o = none
  poll (suc fuel) deadline requested o =
      let (services, o1) = around.get_services o in
      let discovered = recorder_nodes services in
      let (now, o2) = around.monotonic o1 in
      let rest = poll fuel deadline requested (around.sleep poll_period o2) in
      if is_found requested discovered
      then some (discovered, o1)
      else if leb deadline now
      then some (discovered, o2)
      else rest

  -- `max(0.0, timeout)` has no more whole periods than are counted here.
  abbrev pub rounds : ℤ → ℕ
  rounds timeout = suc (suc (pos_part timeout / poll_period))

  unfoldable pub poll_for_recorders : ℤ → Option String → Outside → Option (List String × Outside)
  unfolding poll
  poll_for_recorders timeout requested o =
      let (start, o') = around.monotonic o in
      poll (rounds timeout) (start + pos_part timeout) requested o'

  unfoldable pub close_after : Option (List String × Outside) → Option (List String × Ros)
  unfolding close
  close_after none = none
  close_after (some (discovered, o)) = some (discovered, close open_ros)

  unfoldable pub connect_after : Option String → Option (List String × Outside) → Option Connection
  unfolding connected
  connect_after requested none = none
  connect_after requested (some (discovered, o)) = some (connected discovered requested)

  -- The recorders, and the private context afterwards.
  unfoldable pub discover : ℤ → Outside → Option (List String × Ros)
  unfolding poll_for_recorders close_after
  discover timeout o = close_after (poll_for_recorders timeout none o)

  unfoldable pub connect : ℤ → Option String → Outside → Option Connection
  unfolding poll_for_recorders connect_after
  connect timeout requested o = connect_after requested (poll_for_recorders timeout requested o)

abbrev pub join : String → List String → String
unfolding append
join separator [] = ""
join separator (name ∷ []) = name
join separator (name ∷ other ∷ names) =
    append name (append separator (join separator (other ∷ names)))

-- `_unreachable_message`; `waited` is the timeout as `{:g}` writes it.
unfoldable pub unreachable_message : String → String → String → List String → String
unfolding append
unreachable_message waited service name discovered =
    let message = append service (append " is not available after " (append waited "s.")) in
    let others = keep (λ other. not (str_eq other name)) discovered in
    if not (is_empty others)
    then append message (append " Recorders that are running: " (join ", " others))
    else if is_empty discovered
    then append message " No recorder was found on the graph at all."
    else message
