-- ===== src/Discovery/Choice.antt =====
-- node_name and choose_recorder of packages/dynrec/dynrec/discovery.py.
use Prim.Native.Char.{Char, code}
use Prim.Native.String.{◌∷◌ as char_cons}
use rosbag2_dynamic_recorder.Base.{
  ℕ, String, ◌≡◌, ◌≢◌, ◌⊎◌, refl, ap, Bool, true, false, ◌&&◌, Option, none, some, List, [], ◌∷◌,
  ◌==◌, str_eq, inl, inr, Bool-cases, arith, if◌then◌else◌,
}
use rosbag2_dynamic_recorder.Base.Text.{append, strip, lstrip, rstrip, is_blank}
use rosbag2_dynamic_recorder.Errors.{Result, ok, err, ok-injective}
use rosbag2_dynamic_recorder.Discovery.{node_name, unnamed, the_only_one, choose_recorder}

-- No such character in front.
abbrev starts_clean : ℕ → String → Bool
starts_clean k String.[] = true
starts_clean k (String.◌∷◌ c s) = if code c == k then false else true

starts_clean-lstrip : (k : ℕ) (s : String) → starts_clean k (lstrip k s) ≡ true
unfolding lstrip
starts_clean-lstrip k String.[] = refl
starts_clean-lstrip k (String.◌∷◌ c s) = elim (Bool-cases (code c == k)) [
  | inl strips ↦ rw strips (starts_clean-lstrip k s)
  | inr stays ↦ rw stays (rw stays)
]

lstrip_clean : (k : ℕ) (s : String) → starts_clean k s ≡ true → lstrip k s ≡ s
unfolding lstrip
lstrip_clean k String.[] h = refl
lstrip_clean k (String.◌∷◌ c s) h = elim (Bool-cases (code c == k)) [
  | inl strips ↦ cc (rw strips at h)
  | inr stays ↦ rw stays
]

starts_clean-rstrip :
    (k : ℕ) (s : String) → starts_clean k s ≡ true → starts_clean k (rstrip k s) ≡ true
unfolding rstrip
starts_clean-rstrip k String.[] h = refl
starts_clean-rstrip k (String.◌∷◌ c s) h = elim (Bool-cases (code c == k)) [
  | inl strips ↦ cc (rw strips at h)
  | inr stays ↦ rw stays (rw stays)
]

rstrip-rstrip : (k : ℕ) (s : String) → rstrip k (rstrip k s) ≡ rstrip k s
unfolding rstrip
rstrip-rstrip k String.[] = refl
rstrip-rstrip k (String.◌∷◌ c s) = elim (Bool-cases (code c == k && str_eq (rstrip k s) "")) [
  | inl gone ↦ rw gone
  | inr stays ↦ rw stays (rw (rstrip-rstrip k s, stays))
]

-- Stripping what was stripped, with or without one such character in front.
strip-cons-strip :
    (k : ℕ) (c : Char) (s : String) → code c ≡ k → strip k (char_cons c (strip k s)) ≡ strip k s
unfolding strip lstrip
strip-cons-strip k c s h =
    let clean = starts_clean-rstrip k (lstrip k s) (starts_clean-lstrip k s) in
    let same : (code c == k) ≡ true = ground arith in
    rw (same, lstrip_clean k (rstrip k (lstrip k s)) clean) (rstrip-rstrip k (lstrip k s))

-- A name that is spelled as the graph spells it stays so.
node_name-node_name : (requested : String) → node_name (node_name requested) ≡ node_name requested
unfolding node_name append
node_name-node_name requested = ap (char_cons "/") (strip-cons-strip b'/' "/" requested refl)

the_only_one-eq : (ds : List String) (n : String) → the_only_one ds ≡ ok n → ds ≡ n ∷ []
the_only_one-eq [] n h = cc
the_only_one-eq (d ∷ []) n h = ap (λ (x : String). x ∷ []) (ok-injective d n h)
the_only_one-eq (d ∷ e ∷ ds) n h = cc

-- Without a name the choice succeeds only where exactly one recorder was discovered, and takes it:
-- between several it never guesses.
pub choose_recorder-unnamed :
    (discovered : List String) (requested : Option String) (name : String)
    → unnamed requested ≡ true
    → choose_recorder discovered requested ≡ ok name
    → discovered ≡ name ∷ []
unfolding choose_recorder
choose_recorder-unnamed discovered none name u h = the_only_one-eq discovered name h
choose_recorder-unnamed discovered (some requested) name u h =
    the_only_one-eq discovered name (rw u at h)

-- The recorder that is chosen: without a name the only one that was discovered, and with a name that one,
-- whether it was discovered or not. The choice fails only without a name, where not exactly one recorder
-- was discovered.
abbrev pub IsChosen : List String → Option String → Result String → Type 0
IsChosen discovered requested (ok name) =
    ((unnamed requested ≡ true) × (discovered ≡ name ∷ []))
    ⊎ ((unnamed requested ≡ false)
        × (named : String) × (requested ≡ some named)
        × (name ≡ node_name named))
IsChosen discovered requested (err e) =
    (unnamed requested ≡ true) × ((name : String) → discovered ≢ name ∷ [])

the_only_one-IsChosen :
    (discovered : List String) (requested : Option String)
    → unnamed requested ≡ true
    → IsChosen discovered requested (the_only_one discovered)
the_only_one-IsChosen [] requested h = (h, λ name e. cc)
the_only_one-IsChosen (d ∷ []) requested h = inl (h, refl)
the_only_one-IsChosen (d ∷ e ∷ ds) requested h = (h, λ name same. cc)

pub choose_recorder-IsChosen :
    (discovered : List String) (requested : Option String)
    → IsChosen discovered requested (choose_recorder discovered requested)
unfolding choose_recorder
choose_recorder-IsChosen discovered none = the_only_one-IsChosen discovered none refl
choose_recorder-IsChosen discovered (some named) = elim (Bool-cases (is_blank named)) [
  | inl blank ↦ rw blank (the_only_one-IsChosen discovered (some named) blank)
  | inr written ↦ rw written (inr (written, named, refl, refl))
]
