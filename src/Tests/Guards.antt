-- ===== src/Tests/Guards.antt =====
-- A tick of the storage timer of packages/rosbag2_dynamic_recorder, with both bounds passed.
use rosbag2_dynamic_recorder.Base.{ℕ, refl, ◌*◌, ◌/◌, true, some, [], ◌∷◌}
use rosbag2_dynamic_recorder.Recorder.Storage.{Limits, Space, file, low_disk, bag_too_big}
use rosbag2_dynamic_recorder.Recorder.Guards.{check_storage}
use rosbag2_dynamic_recorder.Recorder.Guards.Stopped.{IsChecked, check_storage-IsChecked}
use rosbag2_dynamic_recorder.Tests.Node.{node}

abbrev percent_of : ℕ → ℕ → ℕ
percent_of bytes percent = bytes * percent / 100

abbrev limits : Limits ℕ
limits = record { min_free_space = 0; min_free_space_percent = 10; max_bag_size = 50 }

abbrev space : Space
space = record { free_bytes = 99; total_bytes = 1000; valid = true }

check_storage-IsChecked_example :
    IsChecked
      (low_disk percent_of limits space)
      (bag_too_big percent_of limits 7 (some (file (some 80) ∷ [])) node.storage_guard).0
      node
      (check_storage percent_of limits space 7 (some (file (some 80) ∷ [])) node)
check_storage-IsChecked_example =
    check_storage-IsChecked percent_of limits space 7 (some (file (some 80) ∷ [])) node refl
