-- ===== src/Base/Text/Fields.antt =====
-- str.split for one character.
use Prim.Native.Char.{Char, code}
use Prim.Native.String.{String, ◌∷◌ as char_cons}
use Prim.Native.Nat.{ℕ}
use mathlib.Core.List.{List, [], ◌∷◌}
use rosbag2_dynamic_recorder.Base.Tests.{◌==◌, if◌then◌else◌}

push_first : Char → List String → List String
push_first c [] = char_cons c "" ∷ []
push_first c (field ∷ fields) = char_cons c field ∷ fields

-- `s.split(c)`
unfoldable pub split_on : ℕ → String → List String
unfolding push_first
split_on k String.[] = "" ∷ []
split_on k (String.◌∷◌ c s) =
    let fields = split_on k s in if code c == k then "" ∷ fields else push_first c fields
