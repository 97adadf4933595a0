-- ===== src/Utils/Examples.antt =====
-- Runs of the token service with a signer that knows one user, one secret and one lifetime.
use billing_app_microservice.Prelude.{
  ℕ, ◌+◌, ◌*◌, ◌≤◌, ◌<◌, String, Bool, true, false, ◌&&◌, Option, none, some, ◌≡◌, ◌≢◌, refl, ltb,
  nat_eq, ◌==◌, if◌then◌else◌, arith, eq_iff,
}
use billing_app_microservice.Effect.{ok, err}
use billing_app_microservice.Utils.Errors.{Error}
use billing_app_microservice.Utils.Duration.{get_expiration_time, match_duration}
use billing_app_microservice.Utils.Jwt.{
  Payload, Verdict, verified, token_expired, invalid_token, issued, stamped, JsonWebToken,
  JwtConfig, Subject, generate_refresh_token, refresh_token, is_token_expired,
  get_token_remaining_time,
}
use billing_app_microservice.Utils.Jwt.Laws.{refresh_token-throws, remaining_time-expired}

-- The payload of the known user; a token is the name of its type.
abbrev pub known : String → Payload
known kind = record {
  id = "0";
  email = "E";
  role = "user";
  token_type = kind;
  iat = none;
  exp = none;
}

abbrev pub is_none : Option ℕ → Bool
is_none none = true
is_none (some n) = false

abbrev pub is_known : ℕ → Payload → String → ℕ → Bool
is_known now p secret n =
    nat_eq now 0
    && p.id == "0"
    && p.email == "E"
    && p.role == "user"
    && is_none p.iat
    && is_none p.exp
    && secret == "S"
    && nat_eq n 900

abbrev pub toy_sign : ℕ → Payload → String → ℕ → Option String
toy_sign now p secret n = if is_known now p secret n then some p.token_type else none

abbrev pub toy_verify : ℕ → String → String → Verdict
toy_verify now token secret =
    if secret == "S"
    then if ltb now 900 then verified (stamped (known token) 0 900) else token_expired
    else invalid_token

toy_signed :
    (now : ℕ) (p : Payload) (secret : String) (n : ℕ) {token : String}
    → toy_sign now p secret n ≡ some token
    → (now ≡ 0) × (p ≡ known token) × (secret ≡ "S") × (n ≡ 900)
toy_signed now p secret n {token} e =
    let i : p.id ≡ "0" = ground (arith, eq_iff p.id "0") in
    let m : p.email ≡ "E" = ground (arith, eq_iff p.email "E") in
    let r : p.role ≡ "user" = ground (arith, eq_iff p.role "user") in
    let k : p.token_type ≡ token = ground arith in
    let x : p.exp ≡ none = ground arith in
    let y : p.iat ≡ none = ground arith in
    (ground arith, cc, ground (arith, eq_iff secret "S"), ground arith)

pub toy_twice :
    (now : ℕ) (p : Payload) (secret : String) (n : ℕ) {e : ℕ}
    → p.exp ≡ some e
    → toy_sign now p secret n ≡ none
toy_twice now p secret n h = ground arith

pub toy_in_time :
    (now later : ℕ) (p : Payload) (secret : String) (n : ℕ) {token : String}
    → toy_sign now p secret n ≡ some token
    → later < issued p.iat now + n
    → toy_verify later token secret ≡ verified (stamped p now n)
toy_in_time now later p secret n {token} e h =
    let (a, b, c, d) = toy_signed now p secret n e in
    let h' : later < issued (known token).iat 0 + 900 = rw (a, b, d) at h in
    let early : later < 900 = ground arith in rw (a, b, c, d) (ground arith)

pub toy_late :
    (now later : ℕ) (p : Payload) (secret : String) (n : ℕ) {token : String}
    → toy_sign now p secret n ≡ some token
    → issued p.iat now + n ≤ later
    → toy_verify later token secret ≡ token_expired
toy_late now later p secret n e h =
    let (a, b, c, d) = toy_signed now p secret n e in rw c (ground arith)

pub toy_other :
    (now later : ℕ) (p : Payload) (secret other : String) (n : ℕ) {token : String}
    → toy_sign now p secret n ≡ some token
    → other ≢ secret
    → toy_verify later token other ≡ invalid_token
toy_other now later p secret other n e h =
    let (a, b, c, d) = toy_signed now p secret n e in ground (arith, eq_iff other "S")

abbrev pub toy : JsonWebToken
toy = record {
  sign = toy_sign;
  verify = toy_verify;
  decode = λ token. some (stamped (known token) 0 900);
  sign_twice = toy_twice;
  verify-sign = toy_in_time;
  verify-sign_late = toy_late;
  verify-sign_ne = toy_other;
}

abbrev pub config : JwtConfig
config = record {
  access_secret = "S";
  refresh_secret = "S";
  access_expires_in = "15m";
  refresh_expires_in = "15m";
}

abbrev pub known_user : Subject
known_user = record { id = "0"; email = "E"; role = "user"; iat = none; exp = none }

signed_refresh : generate_refresh_token toy config 0 known_user ≡ ok "refresh"
unfolding generate_refresh_token get_expiration_time match_duration
signed_refresh = refl

refresh_token-throws_example : (e : Error) × (refresh_token toy config 5 "refresh" ≡ err e)
refresh_token-throws_example =
    refresh_token-throws toy config 0 5 known_user "refresh" signed_refresh

remaining_time-expired_example :
    (is_token_expired toy 899001 "access" ≡ true → get_token_remaining_time toy 899001 "access" ≡ 0)
    × (is_token_expired toy 899001 "access" ≡ false
        → (899001 + get_token_remaining_time toy 899001 "access" * 1000 ≤ 900 * 1000)
          × (900 * 1000 < 899001 + get_token_remaining_time toy 899001 "access" * 1000 + 1000))
remaining_time-expired_example = remaining_time-expired toy 899001 "access" {e = 900} refl
