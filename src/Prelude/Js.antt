-- ===== src/Prelude/Js.antt =====
-- What the services use of JavaScript itself: numbers, and operations on texts.
-- A number is `NaN` or an integer; fractions and infinities are not modelled. An amount of money is
-- counted in hundredths, the step of the column `Decimal(10, 2)`.
-- Case is changed for the letters a to z only. `trim` drops JavaScript's white space and line ends.
use Prim.Native.Char.{Char, code}
use Prim.Native.String.{String, [], ◌∷◌, ◌++◌}
use Prim.Native.Nat.{ℕ, zero, suc, ◌/◌, ◌%◌}
use mathlib.Core.Bool.{Bool, true, false, ◌&&◌, ◌||◌}
use mathlib.Core.Option.{Option, none, some}
use mathlib.Core.Path.{◌≡◌, refl}
use billing_app_microservice.Prelude.Tests.{ltb, leb, nat_eq, if◌then◌else◌}
use billing_app_microservice.Prelude.Int.{ℤ, pos, negsuc, ltb_ℤ, leb_ℤ}

pub data Number : Type 0 where
  nan : Number
  num : ℤ → Number

-- Every comparison with `NaN` is false.
abbrev pub num_lt : Number → Number → Bool
num_lt nan b = false
num_lt (num x) nan = false
num_lt (num x) (num y) = ltb_ℤ x y

abbrev pub num_le : Number → Number → Bool
num_le nan b = false
num_le (num x) nan = false
num_le (num x) (num y) = leb_ℤ x y

abbrev pub is_nan : Number → Bool
is_nan nan = true
is_nan (num x) = false

abbrev pub number : ℕ → Number
number n = num (pos n)

-- `!s` on a text that may be missing.
abbrev pub is_empty : String → Bool
is_empty [] = true
is_empty (c ∷ s) = false

-- `s || d`, for a text that may be missing.
abbrev pub text_or : Option String → String → String
text_or none d = d
text_or (some s) d = if is_empty s then d else s

abbrev pub is_missing : Option String → Bool
is_missing none = true
is_missing (some s) = is_empty s

abbrev in_range : ℕ → ℕ → ℕ → Bool
in_range lo hi c = leb lo c && leb c hi

unfoldable pub is_space : ℕ → Bool
is_space c =
    in_range 9 13 c
    || nat_eq c 0x20
    || nat_eq c 0xa0
    || nat_eq c 0x1680
    || in_range 0x2000 0x200a c
    || in_range 0x2028 0x2029 c
    || nat_eq c 0x202f
    || nat_eq c 0x205f
    || nat_eq c 0x3000
    || nat_eq c 0xfeff

pub trim_start : String → String
trim_start [] = []
trim_start (c ∷ s) = if is_space (code c) then trim_start s else c ∷ s

abbrev before_end : Char → String → String
before_end c [] = if is_space (code c) then [] else c ∷ []
before_end c (d ∷ s) = c ∷ d ∷ s

pub trim_end : String → String
trim_end [] = []
trim_end (c ∷ s) = before_end c (trim_end s)

before_end-kept :
    (c : Char) (s : String) → is_space (code c) ≡ false → is_empty (before_end c s) ≡ false
before_end-kept c [] h = rw h refl
before_end-kept c (d ∷ s) h = refl

unfoldable pub trim : String → String
unfolding trim_start trim_end is_space
trim s = trim_end (trim_start s)

-- A text that does not begin with white space keeps its first character.
pub is_empty-trim :
    (c : Char) (s : String) → is_space (code c) ≡ false → is_empty (trim (c ∷ s)) ≡ false
unfolding trim trim_start trim_end
is_empty-trim c s h = rw h (before_end-kept c (trim_end s) h)

-- The character at the place of `c` in the first text, taken from the second.
translate : String → String → Char → Char
translate [] to c = c
translate (f ∷ from) [] c = c
translate (f ∷ from) (t ∷ to) c = if nat_eq (code f) (code c) then t else translate from to c

upper : Char → Char
upper = translate "abcdefghijklmnopqrstuvwxyz" "ABCDEFGHIJKLMNOPQRSTUVWXYZ"

unfoldable pub to_upper_case : String → String
unfolding upper translate
to_upper_case [] = []
to_upper_case (c ∷ s) = upper c ∷ to_upper_case s

-- A number in decimal; the fuel is above its number of digits.
digit_at : String → ℕ → String
digit_at [] n = []
digit_at (c ∷ s) zero = c ∷ []
digit_at (c ∷ s) (suc n) = digit_at s n

digits_from : ℕ → ℕ → String → String
digits_from zero n after = after
digits_from (suc fuel) n after =
    let d = digit_at "0123456789" (n % 10) ++ after in
    let more = digits_from fuel (n / 10) d in if ltb n 10 then d else more

unfoldable pub show_ℕ : ℕ → String
unfolding digit_at digits_from
show_ℕ n = digits_from (suc n) n ""

unfoldable pub show : Number → String
unfolding show_ℕ
show nan = "NaN"
show (num (pos n)) = show_ℕ n
show (num (negsuc n)) = "-" ++ show_ℕ (suc n)

show_tests : (show (number 0) ≡ "0") × (show (number 120) ≡ "120") × (show (num (negsuc 6)) ≡ "-7")
unfolding show
show_tests = (refl, refl, refl)

trim_tests : (trim "  a b " ≡ "a b") × (trim " " ≡ "") × (to_upper_case "a-Zz1" ≡ "A-ZZ1")
unfolding trim to_upper_case
trim_tests = (refl, refl, refl)
