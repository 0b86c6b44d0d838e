-- ===== src/Scheduler/Cron/Atoi.antt =====
-- strconv.Atoi of Go's library for a 64-bit int: an optional sign and decimal digits.
use redxt.Common.{
  ℕ, ◌+◌, ◌-◌, ◌*◌, ◌==◌, ◌&&◌, Bool, [], ◌∷◌, all, ltb, leb, Option, none, some, Text, ℤ, pos,
  negsuc, if◌then◌else◌,
}

abbrev is_digit : ℕ → Bool
is_digit c = leb b'0' c && leb c b'9'

-- The value of digits behind others whose value is `n`.
abbrev digits_value : ℕ → Text → ℕ
digits_value n [] = n
digits_value n (c ∷ s) = digits_value (n * 10 + (c - b'0')) s

abbrev negated : ℕ → ℤ
negated n = if n == 0 then pos 0 else negsuc (n - 1)

abbrev magnitude : Text → Option ℕ
magnitude [] = none
magnitude (c ∷ s) = if all is_digit (c ∷ s) then some (digits_value 0 (c ∷ s)) else none

abbrev positive : Option ℕ → Option ℤ
positive none = none
positive (some n) = if ltb n 9223372036854775808 then some (pos n) else none

abbrev negative : Option ℕ → Option ℤ
negative none = none
negative (some n) = if leb n 9223372036854775808 then some (negated n) else none

unfoldable pub atoi : Text → Option ℤ
atoi [] = none
atoi (c ∷ s) =
    if c == b'-'
    then negative (magnitude s)
    else if c == b'+'
    then positive (magnitude s)
    else positive (magnitude (c ∷ s))
