-- ===== src/Recorder/Storage/Guarded.antt =====
-- What the cache of packages/rosbag2_dynamic_recorder/src/storage_guard.cpp may answer. `dir` is the bag's
-- directory at each time; a new bag resets the guard.
use rosbag2_dynamic_recorder.Base.{
  ℕ, ◌+◌, ◌-◌, ◌==◌, ◌≤◌, ◌≡◌, ◌⊎◌, refl, not, ◌&&◌, Option, List, arith, ltb, inl, inr, Bool-cases,
}
use rosbag2_dynamic_recorder.Recorder.Storage.{
  Limits, Entry, StorageGuard, reset, measure_bag_size, bag_size, bag_too_big,
}

module _ {Percent : Type 0} (percent_of : ℕ → Percent → ℕ) (limits : Limits Percent) (cache_ttl : ℕ)
    (dir : ℕ → Option (List Entry)) where
  -- The size of the bag at a time.
  abbrev pub size_at : ℕ → ℕ
  unfolding measure_bag_size
  size_at time =
      (measure_bag_size time (dir time) (record { cached_bag_size = 0; cached_at = 0 })).0

  -- The guard at a time, with the time of the last reset. The clock is past 0 and does not go back.
  pub data Reached : ℕ → ℕ → StorageGuard → Type 0 where
    reset_step : (guard : StorageGuard) (now : ℕ) → 1 ≤ now → Reached now now (reset guard)
    size_step :
        {clock since : ℕ} {guard : StorageGuard} (now later : ℕ)
        → Reached clock since guard
        → clock ≤ now
        → now ≤ later
        → Reached later since (bag_size cache_ttl now later (dir later) guard).1
    guard_step :
        {clock since : ℕ} {guard : StorageGuard} (now : ℕ)
        → Reached clock since guard
        → clock ≤ now
        → Reached now since (bag_too_big percent_of limits now (dir now) guard).1

  -- What is cached was measured since the last reset.
  pub record IsCached (clock since : ℕ) (guard : StorageGuard) : Type 0 where
    pub begun : 1 ≤ since
    pub going : since ≤ clock
    pub measured :
        (guard.cached_at ≡ 0)
        ⊎ ((since ≤ guard.cached_at)
            × (guard.cached_at ≤ clock)
            × (guard.cached_bag_size ≡ size_at guard.cached_at))

  Reached-IsCached :
      {clock since : ℕ} {guard : StorageGuard}
      → Reached clock since guard
      → IsCached clock since guard
  unfolding reset bag_size bag_too_big measure_bag_size
  Reached-IsCached (reset_step guard now h) = record {
    begun = h;
    going = omega arith;
    measured = inl refl;
  }
  Reached-IsCached (size_step now later r h k) = ground (arith, Reached-IsCached r)
  Reached-IsCached (guard_step now r h) = ground (arith, Reached-IsCached r)

  -- The size that the status reports is one that the bag, and no earlier bag, has had since the question
  -- or within the time that a measurement serves before it.
  pub bag_size-fresh :
      {clock since : ℕ} {guard : StorageGuard} (now later : ℕ)
      → Reached clock since guard
      → clock ≤ now
      → now ≤ later
      → (time : ℕ) × (since ≤ time)
        × (time ≤ later)
        × (now ≤ time + cache_ttl)
        × ((bag_size cache_ttl now later (dir later) guard).0 ≡ size_at time)
  unfolding bag_size measure_bag_size
  bag_size-fresh {clock} {since} {guard} now later r h k =
      let c = Reached-IsCached r in
      elim (Bool-cases (not (guard.cached_at == 0) && ltb (now - guard.cached_at) cache_ttl)) [
        | inl warm ↦
            rw warm (guard.cached_at, ground arith, ground arith, ground arith, ground arith)
        | inr cold ↦ rw cold (later, omega arith, omega arith, omega arith, refl)
      ]
