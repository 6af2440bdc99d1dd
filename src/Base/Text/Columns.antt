-- ===== src/Base/Text/Columns.antt =====
-- Python's format specifications that the program uses: numbers with a fixed number of decimals, with
-- leading zeros, and texts in columns.
use Prim.Native.String.{String}
use Prim.Native.Nat.{ℕ, zero, suc, ◌-◌, ◌*◌, ◌/◌, ◌%◌, ◌^◌}
use rosbag2_dynamic_recorder.Base.Int.{pos, negsuc}
use rosbag2_dynamic_recorder.Base.Seconds.{Seconds, round}
use rosbag2_dynamic_recorder.Base.Text.Digits.{str}
use rosbag2_dynamic_recorder.Base.Text.Affix.{append, len}

-- A number of copies of a text.
unfoldable pub copies : ℕ → String → String
unfolding append
copies zero s = ""
copies (suc n) s = append s (copies n s)

-- `'{:0nd}'.format(k)`
unfoldable pub with_zeros : ℕ → ℕ → String
unfolding copies append str len
with_zeros n k = append (copies (n - len (str k)) "0") (str k)

-- `'{:<n}'.format(s)` and `'{:>n}'.format(s)`
unfoldable pub left_in : ℕ → String → String
unfolding copies append len
left_in n s = append s (copies (n - len s) " ")

unfoldable pub right_in : ℕ → String → String
unfolding copies append len
right_in n s = append (copies (n - len s) " ") s

-- A number of units of the last decimal.
unfoldable pub decimals : ℕ → ℕ → String
unfolding append str with_zeros
decimals k n = append (str (n / 10 ^ k)) (append "." (with_zeros k (n % 10 ^ k)))

-- `'{:.kf}'.format(x)`, for a positive k.
unfoldable pub fixed : ℕ → Seconds → String
unfolding append decimals
fixed k x = elim x.num [
  | pos n ↦ decimals k (round (n * 10 ^ k) x.den)
  | negsuc n ↦ append "-" (decimals k (round (suc n * 10 ^ k) x.den))
]
