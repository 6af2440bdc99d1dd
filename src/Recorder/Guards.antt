-- ===== src/Recorder/Guards.antt =====
-- packages/rosbag2_dynamic_recorder/src/recorder_events.cpp: the timer that stops the recording for the disk.
-- The space, the clock and the bag's directory are given.
pub mod Stopped
use rosbag2_dynamic_recorder.Base.{ℕ, true, not, Option, none, some, List, if◌then◌else◌}
use rosbag2_dynamic_recorder.Recorder.Storage.{Limits, Space, LowDisk, Entry, low_disk, bag_too_big}
use rosbag2_dynamic_recorder.Recorder.Node.{Node, low_disk_event, bag_size_event, emit, stop}

-- The event first, so that it is in the recording that it ends.
unfoldable pub stop_for_low_disk : LowDisk → Node → Node
stop_for_low_disk low node =
    stop (record (emit (low_disk_event low.space.free_bytes low.space.total_bytes) node) {
      stopped_for_low_disk = true;
    })

unfoldable pub stop_for_max_bag_size : ℕ → Node → Node
stop_for_max_bag_size size node =
    stop (record (emit (bag_size_event size) node) { stopped_for_max_bag_size = true })

module _ {Percent : Type 0} (percent_of : ℕ → Percent → ℕ) (limits : Limits Percent) where
  unfoldable pub check_free_space : Space → Node → Node
  check_free_space space node =
      if not node.is_open then node else elim (low_disk percent_of limits space) [
        | none ↦ node
        | some low ↦ stop_for_low_disk low node
      ]

  unfoldable pub check_bag_size : ℕ → Option (List Entry) → Node → Node
  check_bag_size now entries node =
      if not node.is_open
      then node
      else let (too_big, guard) = bag_too_big percent_of limits now entries node.storage_guard in
        let measured = record node { storage_guard = guard } in
        elim too_big [ none ↦ measured | some size ↦ stop_for_max_bag_size size measured ]

  -- The timer.
  unfoldable pub check_storage : Space → ℕ → Option (List Entry) → Node → Node
  check_storage space now entries node = check_bag_size now entries (check_free_space space node)
