-- ===== src/Base/Text.antt =====
-- Texts character by character: Python's str methods that the program uses.
mod Digits
mod Affix
mod Numbers
mod Fields
mod Columns
unfoldable pub use Digits.{str, is_digits}
unfoldable pub use Digits.{value}
unfoldable pub use Numbers.{
  after_digits, drop_last_spaces, is_space, strip_spaces, is_digit, span_digits, decimal_prefix,
  decimal,
}
unfoldable pub use Fields.{split_on}
unfoldable pub use Columns.{copies, with_zeros, left_in, right_in, decimals, fixed}
pub use Digits.{str-injective, is_digits-str, value-str}
pub use Numbers.{
  decimal-str, decimal_prefix-unit, strip_spaces-digits, strip_spaces-plain, strip_spaces-str,
}
unfoldable pub use Affix.{
  append, starts_with, ends_with, drop_last, len, lstrip, rstrip, strip, partition,
}
pub use Affix.{ends_with_iff, drop_last-append, append-nil}
use Prim.Native.String.{String}
use mathlib.Core.Bool.{Bool, true, false}

-- `not s`
abbrev pub is_blank : String → Bool
is_blank String.[] = true
is_blank (String.◌∷◌ _ _) = false
