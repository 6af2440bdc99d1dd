-- ===== src/Recorder/Storage.antt =====
-- packages/rosbag2_dynamic_recorder/src/storage_guard.cpp: when the recorder has to stop for the disk. The
-- file system and the clock are given. `percent_of` is what a double makes of a percentage of the bytes.
pub mod Guarded
use rosbag2_dynamic_recorder.Base.{
  ℕ, ◌+◌, ◌-◌, ◌==◌, ◌%◌, String, Bool, true, false, not, ◌&&◌, Option, none, some, List, [], ◌∷◌,
  max, leb, ltb, if◌then◌else◌,
}

-- A bound of 0 is none.
pub record Limits (Percent : Type 0) : Type 0 where
  pub min_free_space : ℕ
  pub min_free_space_percent : Percent
  pub max_bag_size : ℕ

pub record Space : Type 0 where
  pub free_bytes : ℕ
  pub total_bytes : ℕ
  pub valid : Bool

-- The space, and the threshold that it is below.
pub record LowDisk : Type 0 where
  pub space : Space
  pub threshold : ℕ

-- What the directory iterator comes to: an entry that is no regular file, a file with its size if it can
-- be read, or an error that ends the walk.
pub data Entry : Type 0 where
  other : Entry
  file : Option ℕ → Entry
  unreadable : Entry

-- The cached size of the bag and when it was measured, 0 for never.
pub record StorageGuard : Type 0 where
  pub cached_bag_size : ℕ
  pub cached_at : ℕ

unfoldable pub reset : StorageGuard → StorageGuard
reset guard = record { cached_bag_size = 0; cached_at = 0 }

-- Sums of uint64.
abbrev pub add_size : ℕ → Option ℕ → ℕ
add_size total none = total
add_size total (some size) = (total + size) % 18_446_744_073_709_551_616

unfoldable pub total_size : ℕ → List Entry → ℕ
total_size total [] = total
total_size total (other ∷ entries) = total_size total entries
total_size total (file size ∷ entries) = total_size (add_size total size) entries
total_size total (unreadable ∷ entries) = total

-- The measured size, which is cached. `entries` is the directory now, none where there is no directory.
unfoldable pub measure_bag_size : ℕ → Option (List Entry) → StorageGuard → ℕ × StorageGuard
unfolding total_size
measure_bag_size now entries guard =
    let size : ℕ = elim entries [ none ↦ 0 | some found ↦ total_size 0 found ] in
    (size, record { cached_bag_size = size; cached_at = now })

-- `cache_ttl` is how long a measurement serves. The clock is read for the test and again when the size
-- has been measured.
unfoldable pub bag_size : ℕ → ℕ → ℕ → Option (List Entry) → StorageGuard → ℕ × StorageGuard
unfolding measure_bag_size
bag_size cache_ttl now later entries guard =
    if not (guard.cached_at == 0) && ltb (now - guard.cached_at) cache_ttl
    then (guard.cached_bag_size, guard)
    else measure_bag_size later entries guard

module _ {Percent : Type 0} (percent_of : ℕ → Percent → ℕ) where
  -- The stricter of the two bounds.
  abbrev pub threshold_of : Limits Percent → Space → ℕ
  threshold_of limits space =
      max limits.min_free_space (percent_of space.total_bytes limits.min_free_space_percent)

  unfoldable pub low_disk : Limits Percent → Space → Option LowDisk
  low_disk limits space =
      if not space.valid
      then none
      else if leb (threshold_of limits space) space.free_bytes
      then none
      else some (record { space = space; threshold = threshold_of limits space })

  -- The size that is above the cap; it is measured, never taken from the cache.
  unfoldable pub bag_too_big :
      Limits Percent → ℕ → Option (List Entry) → StorageGuard → Option ℕ × StorageGuard
  unfolding measure_bag_size
  bag_too_big limits now entries guard =
      if limits.max_bag_size == 0
      then (none, guard)
      else let (size, measured) = measure_bag_size now entries guard in
        (if leb size limits.max_bag_size then none else some size, measured)
