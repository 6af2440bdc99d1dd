-- ===== src/Recorder/Guards/Stopped.antt =====
-- What the timer of packages/rosbag2_dynamic_recorder/src/recorder_events.cpp stops.
use mathlib.Core.List.{append-nil}
use rosbag2_dynamic_recorder.Base.{
  ℕ, ◌≡◌, inl, inr, sym, Option-cases, refl, Bool, true, false, not, ◌&&◌, ◌||◌, Option, none, some,
  List, [], ◌∷◌, ◌++◌, arith, if◌then◌else◌,
}
use rosbag2_dynamic_recorder.Recorder.Storage.{Limits, Space, LowDisk, Entry, low_disk, bag_too_big}
use rosbag2_dynamic_recorder.Recorder.Node.{
  Node, Emitted, low_disk_event, bag_size_event, stop, subscribed_topics,
}
use rosbag2_dynamic_recorder.Recorder.Guards.{
  stop_for_low_disk, stop_for_max_bag_size, check_free_space, check_bag_size, check_storage,
}

abbrev pub is_fine : {A : Type 0} → Option A → Bool
is_fine none = true
is_fine (some a) = false

-- The event that explains a stop: the disk's before the bag's.
abbrev pub explained : Option LowDisk → Option ℕ → List Emitted
explained (some low) _ = low_disk_event low.space.free_bytes low.space.total_bytes ∷ []
explained none (some size) = bag_size_event size ∷ []
explained none none = []

-- What a tick does to a node that records, by what the two bounds say.
abbrev pub IsChecked : Option LowDisk → Option ℕ → Node → Node → Type 0
IsChecked low big node node' =
    (node'.is_open ≡ (is_fine low && is_fine big))
    × (node'.emitted ≡ node.emitted ++ explained low big)
    × (node'.stopped_for_low_disk ≡ (node.stopped_for_low_disk || not (is_fine low)))
    × (node'.stopped_for_max_bag_size
        ≡ (node.stopped_for_max_bag_size || (is_fine low && not (is_fine big))))
    × (subscribed_topics node
        ≡ (if node'.is_open then subscribed_topics node' else node'.topics_at_stop))

module _ {Percent : Type 0} (percent_of : ℕ → Percent → ℕ) (limits : Limits Percent) (space : Space)
    (now : ℕ) (entries : Option (List Entry)) where
  check_free_space-fine :
      (node : Node)
      → low_disk percent_of limits space ≡ none
      → check_free_space percent_of limits space node ≡ node
  unfolding check_free_space
  check_free_space-fine node fine = rw fine (ground arith)

  -- The bag is not looked at when the disk has stopped the recording.
  stopped_for_low_disk :
      (low : LowDisk) (node : Node)
      → node.is_open ≡ true
      → low_disk percent_of limits space ≡ some low
      → check_storage percent_of limits space now entries node ≡ stop_for_low_disk low node
  unfolding check_storage check_free_space check_bag_size stop_for_low_disk stop
  stopped_for_low_disk low node h is_low = rw h (rw is_low (rw h refl))

  stop_for_low_disk-IsChecked :
      (low : LowDisk) (big : Option ℕ) (node : Node)
      → node.is_open ≡ true
      → IsChecked (some low) big node (stop_for_low_disk low node)
  unfolding stop_for_low_disk stop subscribed_topics
  stop_for_low_disk-IsChecked low big node h = rw h (refl, refl, ground arith, ground arith, refl)

  check_bag_size-IsChecked :
      (node : Node)
      → node.is_open ≡ true
      → IsChecked none
          (bag_too_big percent_of limits now entries node.storage_guard).0
          node
          (check_bag_size percent_of limits now entries node)
  unfolding check_bag_size stop_for_max_bag_size stop subscribed_topics
  check_bag_size-IsChecked node h =
      elim (Option-cases (bag_too_big percent_of limits now entries node.storage_guard).0) [
        | inr (size, too_big) ↦
            rw h (rw too_big (rw h (refl, refl, ground arith, ground arith, refl)))
        | inl small ↦
            rw h
              (rw small (h, sym (append-nil node.emitted), ground arith, ground arith, rw h refl))
      ]

  -- One tick of the timer, for a node that records: it records afterwards exactly if the disk has space
  -- and the bag is not too big; the event that explains a stop is emitted, and no other, the disk's where
  -- both bounds are passed; the status's flag of that bound is set, and the other one stays; and the
  -- topics that are recorded stay, as the next recording's where it stops.
  pub check_storage-IsChecked :
      (node : Node)
      → node.is_open ≡ true
      → IsChecked
          (low_disk percent_of limits space)
          (bag_too_big percent_of limits now entries node.storage_guard).0
          node
          (check_storage percent_of limits space now entries node)
  unfolding check_storage
  check_storage-IsChecked node h = elim (Option-cases (low_disk percent_of limits space)) [
    | inr (low, is_low) ↦ rw (stopped_for_low_disk low node h is_low) (
        rw is_low (
          stop_for_low_disk-IsChecked low
            (bag_too_big percent_of limits now entries node.storage_guard).0 node h))
    | inl fine ↦ rw (check_free_space-fine node fine) (rw fine (check_bag_size-IsChecked node h))
  ]
