-- ===== src/Cli/Format/Bytes.antt =====
-- format_bytes of packages/rosbag2_dynamic_recorder_cli/rosbag2_dynamic_recorder_cli/format.py: the unit
-- that it chooses.
use rosbag2_dynamic_recorder.Base.{
  ℕ, ◌*◌, ◌≤◌, ◌<◌, ◌≡◌, refl, ◌⊎◌, inl, inr, String, Bool-cases, ltb, ltb→lt, arith, List, [], ◌∷◌,
}
use rosbag2_dynamic_recorder.Cli.Format.{scaled, units}

-- The size is the whole of the unit, and fits: no smaller unit would do, nor is a larger one needed.
abbrev pub Fits : ℕ → ℕ × String → String → Type 0
Fits count (size, unit) last = (count < size * 1024) ⊎ (unit ≡ last)

largest : String → List String → String
largest unit [] = unit
largest unit (larger ∷ more) = largest larger more

scaled-Fits :
    (count size : ℕ) (unit : String) (more : List String)
    → Fits count (scaled count size unit more) (largest unit more)
unfolding scaled largest
scaled-Fits count size unit [] = inr refl
scaled-Fits count size unit (larger ∷ more) = elim (Bool-cases (ltb count (size * 1024))) [
  | inl fits ↦ rw fits (inl (ltb→lt count (size * 1024) fits))
  | inr above ↦ rw above (scaled-Fits count (size * 1024) larger more)
]

scaled-le :
    (count size : ℕ) (unit : String) (more : List String)
    → (size ≤ count) ⊎ (size ≡ 1)
    → ((scaled count size unit more).0 ≤ count) ⊎ ((scaled count size unit more).0 ≡ 1)
unfolding scaled
scaled-le count size unit [] h = h
scaled-le count size unit (larger ∷ more) h = elim (Bool-cases (ltb count (size * 1024))) [
  | inl fits ↦ rw fits h
  | inr above ↦ rw above (scaled-le count (size * 1024) larger more (inl (ground (arith, above))))
]

-- The unit of a size is the largest that the size reaches: the number of units is below 1024, unless
-- the unit is the TiB, and at least 1, unless the unit is the byte.
scaled-units :
    (count : ℕ)
    → let (size, unit) = scaled count 1 "B" units in
      ((count < size * 1024) ⊎ (unit ≡ "TiB")) × ((size ≤ count) ⊎ (size ≡ 1))
unfolding largest
scaled-units count = (scaled-Fits count 1 "B" units, scaled-le count 1 "B" units (inr refl))
