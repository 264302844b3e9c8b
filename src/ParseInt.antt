-- ===== src/ParseInt.antt =====
-- strconv.ParseInt(s, 10, 64), which bridge.go and bridge_reconcile.go apply to the generation
-- that Redis holds. The error is one value here: the code looks only at whether there is one.
use Prim.Native.Char.{code}
use Prim.Native.String.{String}
use astron_claw.Prelude.{
  ℕ, ◌+◌, ◌-◌, ◌*◌, ◌^◌, ◌≡◌, refl, Bool, ◌&&◌, Option, none, some, ltb, leb, ◌==◌, if◌then◌else◌,
}
use astron_claw.Prelude.Int.{ℤ, pos, negsuc}

abbrev is_digit : ℕ → Bool
is_digit c = leb b'0' c && leb c b'9'

digits_loop : ℕ → String → Option ℕ
digits_loop acc String.[] = some acc
digits_loop acc (String.◌∷◌ c s) =
    let rest = digits_loop (acc * 10 + (code c - b'0')) s in
    if is_digit (code c) then rest else none

digits : String → Option ℕ
unfolding digits_loop
digits String.[] = none
digits (String.◌∷◌ c s) = digits_loop 0 (String.◌∷◌ c s)

-- in the range of int64, or ErrRange
positive : Option ℕ → Option ℤ
positive none = none
positive (some n) = if ltb n (2 ^ 63) then some (pos n) else none

negative : Option ℕ → Option ℤ
negative none = none
negative (some n) =
    if n == 0 then some (pos 0) else if leb n (2 ^ 63) then some (negsuc (n - 1)) else none

unfoldable pub parse_int : String → Option ℤ
unfolding digits positive negative
parse_int String.[] = none
parse_int (String.◌∷◌ c s) =
    if code c == b'-'
    then negative (digits s)
    else if code c == b'+'
    then positive (digits s)
    else positive (digits (String.◌∷◌ c s))

parse_int_max : parse_int "9223372036854775807" ≡ some (pos 9223372036854775807)
unfolding parse_int
parse_int_max = refl

parse_int_range : parse_int "9223372036854775808" ≡ none
unfolding parse_int
parse_int_range = refl

parse_int_minus : parse_int "-12" ≡ some (negsuc 11)
unfolding parse_int
parse_int_minus = refl

parse_int_junk : parse_int "1_2" ≡ none
unfolding parse_int
parse_int_junk = refl
