-- ===== src/Client/Connect/Polling.antt =====
-- _poll_for_recorders of packages/dynrec/dynrec/client.py ends.
use native.Mathlib.Nat.{div-add-mod, mod-lt}
use rosbag2_dynamic_recorder.Base.{
  ℕ, zero, suc, ◌+◌, ◌*◌, ◌/◌, ◌≤◌, ◌<◌, ◌≡◌, refl, ◌⊎◌, inl, inr, String, true, Option, some, List,
  leb, leb→le, Bool-cases, arith,
}
use rosbag2_dynamic_recorder.Base.Int.{ℤ, pos_part}
use rosbag2_dynamic_recorder.Discovery.{recorder_nodes}
use rosbag2_dynamic_recorder.Client.Connect.{
  Surroundings, is_found, poll, poll_for_recorders, poll_period,
}

module _ {Outside : Type 0} (around : Surroundings Outside) where
  abbrev pub reading : Outside → ℕ
  reading o = (around.monotonic o).0

  -- time.monotonic never goes back, and time.sleep waits no less than it is told to.
  pub record IsClock : Type 0 where
    pub services_keep : (o : Outside) → reading o ≤ reading (around.get_services o).1
    pub monotonic_keeps : (o : Outside) → reading o ≤ reading (around.monotonic o).1
    pub sleep_adds : (n : ℕ) (o : Outside) → reading o + n ≤ reading (around.sleep n o)

  -- The recorders are those of one look at the graph, after which what was asked for was there or
  -- the deadline had come.
  abbrev pub IsPolled : ℕ → Option String → List String → Type 0
  IsPolled deadline requested discovered =
      (seen : Outside) × (discovered ≡ recorder_nodes (around.get_services seen).0)
      × ((is_found requested discovered ≡ true) ⊎ (deadline ≤ reading (around.get_services seen).1))

  abbrev Returns : ℕ → ℕ → Option String → Outside → Type 0
  unfolding poll
  Returns fuel deadline requested o =
      (discovered : List String) × (o' : Outside) × (poll around fuel deadline requested o
        ≡ some (discovered, o'))
      × IsPolled deadline requested discovered

  -- The outside after a round that goes on.
  abbrev slept : Outside → Outside
  slept o = around.sleep poll_period (around.monotonic (around.get_services o).1).1

  slept_later : (o : Outside) → IsClock → reading o + poll_period ≤ reading (slept o)
  slept_later o clock =
      let o1 = (around.get_services o).1 in
      omega (
        arith,
        clock.services_keep o,
        clock.monotonic_keeps o1,
        clock.sleep_adds poll_period (around.monotonic o1).1,
      )

  poll_round :
      (fuel deadline : ℕ) (requested : Option String) (o : Outside)
      → (reading (around.get_services o).1 < deadline → Returns fuel deadline requested (slept o))
      → Returns (suc fuel) deadline requested o
  unfolding poll
  poll_round fuel deadline requested o next =
      let o1 = (around.get_services o).1 in
      let discovered = recorder_nodes (around.get_services o).0 in
      elim (Bool-cases (is_found requested discovered)) [
        | inl found ↦ (discovered, o1, rw found refl, (o, refl, inl found))
        | inr missing ↦ elim (Bool-cases (leb deadline (reading o1))) [
          | inl late ↦ (
            discovered,
            (around.monotonic o1).1,
            rw (missing, late) refl,
            (o, refl, inr (leb→le _ _ late)),
          )
          | inr early ↦
              let (d, o', e, polled) = next (ground (arith, early)) in
              (d, o', rw (missing, early) e, polled)
        ]
      ]

  poll-Returns :
      (fuel deadline : ℕ) (requested : Option String) (o : Outside)
      → IsClock
      → deadline ≤ reading o + fuel * poll_period
      → Returns (suc fuel) deadline requested o
  poll-Returns zero deadline requested o clock h =
      poll_round zero deadline requested o
        (λ early. absurd (omega (arith, early, h, clock.services_keep o)))
  poll-Returns (suc fuel) deadline requested o clock h =
      poll_round (suc fuel) deadline requested o (λ early.
        poll-Returns fuel deadline requested (slept o) clock
          (omega (arith, h, slept_later o clock)))

  -- Whatever the graph does, the polling comes to an end, with the recorders that it saw in one look
  -- at the graph: then what was asked for was among them, or the timeout had passed since the start.
  pub poll_for_recorders-returns :
      (timeout : ℤ) (requested : Option String) (o : Outside)
      → IsClock
      → (discovered : List String) × (o' : Outside) × (poll_for_recorders around timeout requested o
          ≡ some (discovered, o'))
        × IsPolled (reading o + pos_part timeout) requested discovered
  unfolding poll_for_recorders
  poll_for_recorders-returns timeout requested o clock =
      poll-Returns (suc (pos_part timeout / poll_period)) (reading o + pos_part timeout) requested
        (around.monotonic o).1 clock
        (omega (
          arith,
          clock.monotonic_keeps o,
          div-add-mod (pos_part timeout) poll_period,
          mod-lt (pos_part timeout) {m = poll_period} (omega arith),
        ))
