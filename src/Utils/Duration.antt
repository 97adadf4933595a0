-- ===== src/Utils/Duration.antt =====
-- `JWTService.getExpirationTime` of utils/src/jwt.ts: a duration such as "15m" in seconds.
pub mod Reading
use Prim.Native.Char.{code}
use Prim.Native.String.{String, [], ◌∷◌}
use billing_app_microservice.Prelude.{
  ℕ, ◌+◌, ◌-◌, ◌*◌, Bool, true, false, ◌&&◌, Option, none, some, leb, nat_eq, if◌then◌else◌,
}

-- `timeMap`
abbrev pub unit_seconds : ℕ → Option ℕ
unit_seconds u =
    if nat_eq u b's'
    then some 1
    else if nat_eq u b'm'
    then some 60
    else if nat_eq u b'h'
    then some 3600
    else if nat_eq u b'd'
    then some 86400
    else if nat_eq u b'w'
    then some 604800
    else if nat_eq u b'y'
    then some 31536000
    else none

abbrev pub is_digit : ℕ → Bool
is_digit c = leb b'0' c && leb c b'9'

-- The last character must be a unit, after at least one digit.
abbrev finish : Bool → ℕ → Option ℕ → String → Option ℕ
finish true value (some seconds) [] = some (value * seconds)
finish _ _ _ _ = none

-- The match of `^(\d+)([smhdwy])$`, with the value of the digits read so far.
unfoldable pub match_duration : Bool → ℕ → String → Option ℕ
match_duration seen value [] = none
match_duration seen value (c ∷ s) =
    let more = match_duration true (value * 10 + (code c - b'0')) s in
    if is_digit (code c) then more else finish seen value (unit_seconds (code c)) s

abbrev or_15_minutes : Option ℕ → ℕ
or_15_minutes none = 15 * 60
or_15_minutes (some n) = n

unfoldable pub get_expiration_time : String → ℕ
unfolding match_duration
get_expiration_time expires_in = or_15_minutes (match_duration false 0 expires_in)
