-- ===== src/Utils/Duration/Reading.antt =====
-- What `getExpirationTime` reads.
use Prim.Native.Char.{Char, code}
use Prim.Native.String.{String, [], ◌∷◌, ◌++◌}
use text.Mathlib.TextLemmas.{nil-append, cons-append}
use billing_app_microservice.Prelude.{ℕ, ◌+◌, ◌-◌, ◌*◌, true, false, some, ◌≡◌, arith}
use billing_app_microservice.Utils.Duration.{
  unit_seconds, is_digit, match_duration, get_expiration_time,
}

-- A text of decimal digits, and its value, most significant digit first.
abbrev pub AllDigits : String → Type 0
AllDigits [] = Unit
AllDigits (c ∷ s) = (is_digit (code c) ≡ true) × AllDigits s

abbrev pub value_from : ℕ → String → ℕ
value_from n [] = n
value_from n (c ∷ s) = value_from (n * 10 + (code c - b'0')) s

unit-not_digit : (u : Char) {k : ℕ} → unit_seconds (code u) ≡ some k → is_digit (code u) ≡ false
unit-not_digit u h = ground arith

match_duration-append :
    (n k : ℕ) (u : Char) (s : String)
    → AllDigits s
    → is_digit (code u) ≡ false
    → unit_seconds (code u) ≡ some k
    → match_duration true n (s ++ u ∷ []) ≡ some (value_from n s * k)
unfolding match_duration
match_duration-append n k u [] d not_digit unit = rw nil-append (rw (not_digit, unit))
match_duration-append n k u (c ∷ s) (d, ds) not_digit unit =
    rw cons-append (rw d (match_duration-append (n * 10 + (code c - b'0')) k u s ds not_digit unit))

-- One or more digits and a unit are read as the number times the seconds of the unit.
pub get_expiration_time-digits :
    (c u : Char) (s : String) (k : ℕ)
    → AllDigits (c ∷ s)
    → unit_seconds (code u) ≡ some k
    → get_expiration_time ((c ∷ s) ++ u ∷ []) ≡ value_from 0 (c ∷ s) * k
unfolding get_expiration_time match_duration
get_expiration_time-digits c u s k (d, ds) unit =
    rw cons-append (rw d (rw (match_duration-append _ k u s ds (unit-not_digit u unit) unit)))
