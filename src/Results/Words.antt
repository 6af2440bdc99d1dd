-- ===== src/Results/Words.antt =====
-- The words for the action constants of packages/dynrec/dynrec/results.py.
use rosbag2_dynamic_recorder.Base.{
  ℕ, String, ◌≡◌, ◌≢◌, sym, ap, ◌∙◌, true, false, Option, none, some, List, [], ◌∷◌, arith, ◌==◌,
  str_eq, any, if◌then◌else◌, Option-cases, inl, inr,
}
use rosbag2_dynamic_recorder.Base.Text.{str, is_digits, str-injective, is_digits-str}
use mathlib.Core.Bool.{false≢true}
use text.Mathlib.TextEquality.{eq_iff}

-- A Python dict from constants to words, in order of insertion.
abbrev pub WordTable : Type 0
WordTable = List (ℕ × String)

abbrev pub subscription_actions : WordTable
subscription_actions = (0, "subscribed") ∷ (1, "unsubscribed") ∷ []

abbrev pub pause_actions : WordTable
pause_actions = (0, "paused") ∷ (1, "resumed") ∷ []

abbrev pub stop_actions : WordTable
stop_actions = (0, "stopped") ∷ []

abbrev pub schedule_actions : WordTable
schedule_actions = (0, "resume") ∷ (1, "split") ∷ (2, "record") ∷ []

abbrev pub schedule_modes : WordTable
schedule_modes = (0, "node") ∷ (1, "publish") ∷ (2, "receive") ∷ []

-- `names.get(action)`
unfoldable pub get_word : ℕ → WordTable → Option String
get_word k [] = none
get_word k ((j, w) ∷ names) = if j == k then some w else get_word k names

abbrev pub or_str : ℕ → Option String → String
or_str k none = str k
or_str k (some w) = w

-- `names.get(msg.action, str(msg.action))`
unfoldable pub action_name : WordTable → ℕ → String
unfolding get_word
action_name names action = or_str action (get_word action names)

-- Every word stands once in the table, and none is a number.
abbrev pub IsTable : WordTable → Type 0
IsTable [] = Unit
IsTable ((k, w) ∷ names) =
    (is_digits w ≡ false) × (any (λ r. str_eq r.1 w) names ≡ false) × IsTable names

get_word-not_digits :
    (k : ℕ) (w : String) (names : WordTable)
    → IsTable names
    → get_word k names ≡ some w
    → is_digits w ≡ false
unfolding get_word
get_word-not_digits k w [] h e = cc
get_word-not_digits k w ((j, v) ∷ names) h e = ground (arith, get_word-not_digits k w names h.2)

get_word-any :
    (k : ℕ) (w : String) (names : WordTable)
    → get_word k names ≡ some w
    → any (λ r. str_eq r.1 w) names ≡ true
unfolding get_word
get_word-any k w [] e = cc
get_word-any k w ((j, v) ∷ names) e = ground (arith, eq_iff v w, get_word-any k w names)

get_word-injective :
    (j k : ℕ) (w : String) (names : WordTable)
    → IsTable names
    → get_word j names ≡ some w
    → get_word k names ≡ some w
    → j ≡ k
unfolding get_word
get_word-injective j k w [] h e f = cc
get_word-injective j k w ((i, v) ∷ names) h e f = ground (
  arith,
  eq_iff v w,
  get_word-any j w names,
  get_word-any k w names,
  get_word-injective j k w names h.2,
)

word-ne-number :
    (k n : ℕ) (w : String) (names : WordTable)
    → IsTable names
    → get_word k names ≡ some w
    → w ≢ str n
word-ne-number k n w names h e f =
    false≢true (sym (get_word-not_digits k w names h e) ∙ ap is_digits f ∙ is_digits-str n)

-- No two action constants get the same word, the constants that the library does not know included:
-- such a constant is never read as an action that it is not.
action_name-injective :
    (names : WordTable) (j k : ℕ)
    → IsTable names
    → action_name names j ≡ action_name names k
    → j ≡ k
unfolding action_name
action_name-injective names j k h e = elim (Option-cases (get_word j names)) [
  | inl unknown_j ↦ elim (Option-cases (get_word k names)) [
    | inl unknown_k ↦ str-injective j k (rw (unknown_j, unknown_k) at e)
    | inr (w, known_k) ↦
        absurd (word-ne-number k j w names h known_k (sym (rw (unknown_j, known_k) at e)))
  ]
  | inr (v, known_j) ↦ elim (Option-cases (get_word k names)) [
    | inl unknown_k ↦ absurd (word-ne-number j k v names h known_j (rw (known_j, unknown_k) at e))
    | inr (w, known_k) ↦
        get_word-injective j k w names h (known_j ∙ ap some (rw (known_j, known_k) at e)) known_k
  ]
]
