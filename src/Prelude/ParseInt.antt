-- ===== src/Prelude/ParseInt.antt =====
-- `parseInt(s, 10)` of JavaScript, and a field of a JSON body that is read as a number.
use Prim.Native.Char.{code}
use Prim.Native.String.{String, [], ◌∷◌}
use Prim.Native.Nat.{ℕ, zero, suc, ◌+◌, ◌-◌, ◌*◌}
use mathlib.Core.Bool.{Bool, ◌&&◌}
use mathlib.Core.Path.{◌≡◌, refl}
use billing_app_microservice.Prelude.Tests.{leb, nat_eq, if◌then◌else◌}
use billing_app_microservice.Prelude.Int.{pos, negsuc}
use billing_app_microservice.Prelude.Js.{Number, nan, num, number, trim}

abbrev is_digit : ℕ → Bool
is_digit c = leb 48 c && leb c 57

-- The digits up to the first other character.
abbrev digits_value : ℕ → String → ℕ
digits_value acc [] = acc
digits_value acc (c ∷ s) =
    let rest = digits_value (acc * 10 + (code c - 48)) s in if is_digit (code c) then rest else acc

abbrev unsigned : String → Number
unsigned [] = nan
unsigned (c ∷ s) = if is_digit (code c) then number (digits_value 0 (c ∷ s)) else nan

abbrev negate : Number → Number
negate nan = nan
negate (num (pos zero)) = num (pos zero)
negate (num (pos (suc n))) = num (negsuc n)
negate (num (negsuc n)) = num (pos (suc n))

abbrev signed : String → Number
signed [] = nan
signed (c ∷ s) =
    if nat_eq (code c) 45
    then negate (unsigned s)
    else if nat_eq (code c) 43
    then unsigned s
    else unsigned (c ∷ s)

unfoldable pub parse_int : String → Number
parse_int s = signed (trim s)

parse_int_tests :
    (parse_int " 12x" ≡ number 12) × (parse_int "-3" ≡ num (negsuc 2)) × (parse_int "x" ≡ nan)
unfolding parse_int trim
parse_int_tests = (refl, refl, refl)

-- A number, a text, or a field left out.
pub data Field : Type 0 where
  a_number : Number → Field
  a_text : String → Field
  left_out : Field

-- `typeof v === "number" ? v : parseInt(v, 10)`
unfoldable pub number_or_parsed : Field → Number
number_or_parsed (a_number n) = n
number_or_parsed (a_text s) = parse_int s
number_or_parsed left_out = nan
