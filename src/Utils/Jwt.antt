-- ===== src/Utils/Jwt.antt =====
-- utils/src/jwt.ts, `JWTService`. The package jsonwebtoken is a parameter: an interface with the
-- behaviour that its documentation states.
pub mod Laws
use billing_app_microservice.Prelude.{
  ℕ, ◌+◌, ◌-◌, ◌*◌, ◌/◌, ◌≤◌, ◌<◌, String, Bool, true, false, Option, none, some, ◌≡◌, ◌≢◌, ltb,
  nat_eq, ◌==◌, if◌then◌else◌,
}
use billing_app_microservice.Effect.{Result, ok, err}
use billing_app_microservice.Utils.Errors.{Error, plain}
use billing_app_microservice.Utils.Duration.{get_expiration_time}

-- `JWTPayload`; times are in seconds.
pub record Payload : Type 0 where
  pub id : String
  pub email : String
  pub role : String
  pub token_type : String
  pub iat : Option ℕ
  pub exp : Option ℕ

-- What jsonwebtoken's `verify` answers or throws: `TokenExpiredError`, another
-- `JsonWebTokenError`, or an error of another class.
pub data Verdict : Type 0 where
  verified : Payload → Verdict
  token_expired invalid_token other_error : Verdict

-- The time that `expiresIn` is counted from: the payload's own `iat` where it has one.
abbrev pub issued : Option ℕ → ℕ → ℕ
issued none now = now
issued (some t) now = t

-- What `sign` adds to the payload.
abbrev pub stamped : Payload → ℕ → ℕ → Payload
stamped p now expires_in = record p {
  iat = some (issued p.iat now);
  exp = some (issued p.iat now + expires_in);
}

-- `now` is the reading of the clock, in seconds.
pub record JsonWebToken : Type 0 where
  -- `sign(payload, secret, { expiresIn })`; `none` is a throw.
  pub sign : (now : ℕ) → Payload → (secret : String) → (expires_in : ℕ) → Option String
  pub verify : (now : ℕ) → (token secret : String) → Verdict
  -- `decode(token)` reads the payload without any test; `none` for null.
  pub decode : (token : String) → Option Payload
  -- A payload that has an `exp` already is refused with the option `expiresIn`.
  pub sign_twice :
      (now : ℕ) (p : Payload) (secret : String) (n : ℕ) {e : ℕ}
      → p.exp ≡ some e
      → sign now p secret n ≡ none
  pub verify-sign :
      (now later : ℕ) (p : Payload) (secret : String) (n : ℕ) {token : String}
      → sign now p secret n ≡ some token
      → later < issued p.iat now + n
      → verify later token secret ≡ verified (stamped p now n)
  pub verify-sign_late :
      (now later : ℕ) (p : Payload) (secret : String) (n : ℕ) {token : String}
      → sign now p secret n ≡ some token
      → issued p.iat now + n ≤ later
      → verify later token secret ≡ token_expired
  pub verify-sign_ne :
      (now later : ℕ) (p : Payload) (secret other : String) (n : ℕ) {token : String}
      → sign now p secret n ≡ some token
      → other ≢ secret
      → verify later token other ≡ invalid_token

pub record JwtConfig : Type 0 where
  pub access_secret : String
  pub refresh_secret : String
  pub access_expires_in : String
  pub refresh_expires_in : String

-- The caller's part of the payload: `Omit<JWTPayload, 'tokenType'>`.
pub record Subject : Type 0 where
  pub id : String
  pub email : String
  pub role : String
  pub iat : Option ℕ
  pub exp : Option ℕ

abbrev pub payload_of : Subject → String → Payload
payload_of u kind = record {
  id = u.id;
  email = u.email;
  role = u.role;
  token_type = kind;
  iat = u.iat;
  exp = u.exp;
}

abbrev pub subject_of : Payload → Subject
subject_of p = record { id = p.id; email = p.email; role = p.role; iat = p.iat; exp = p.exp }

pub record TokenPair : Type 0 where
  pub access_token : String
  pub refresh_token : String
  pub access_token_expires_in : ℕ
  pub refresh_token_expires_in : ℕ

abbrev or_sign_error : Option String → Result String
or_sign_error none = err (plain "Bad \"options.expiresIn\"")
or_sign_error (some t) = ok t

infixl 5 ◌>>=◌
abbrev ◌>>=◌ : {A B : Type 0} → Result A → (A → Result B) → Result B
ok a >>= k = k a
err e >>= k = err e

-- The `catch` of the two verifying methods, with the kind of the token for its message; an error
-- of `verify` and the test of the type are told apart by their class.
abbrev checked : String → String → String → Verdict → Result Payload
checked kind late bad (verified p) =
    if p.token_type == kind then ok p else err (plain "Token verification failed")
checked kind late bad token_expired = err (plain late)
checked kind late bad invalid_token = err (plain bad)
checked kind late bad other_error = err (plain "Token verification failed")

module _ (j : JsonWebToken) (c : JwtConfig) (now : ℕ) where
  unfoldable pub generate_access_token : Subject → Result String
  generate_access_token u =
      or_sign_error (
        j.sign now (payload_of u "access") c.access_secret
          (get_expiration_time c.access_expires_in))

  unfoldable pub generate_refresh_token : Subject → Result String
  generate_refresh_token u = or_sign_error (
      j.sign now (payload_of u "refresh") c.refresh_secret
        (get_expiration_time c.refresh_expires_in))

  unfoldable pub generate_token_pair : Subject → Result TokenPair
  unfolding generate_access_token generate_refresh_token
  generate_token_pair u = do
    access ← generate_access_token u
    refresh ← generate_refresh_token u
    ok (record {
      access_token = access;
      refresh_token = refresh;
      access_token_expires_in = get_expiration_time c.access_expires_in;
      refresh_token_expires_in = get_expiration_time c.refresh_expires_in;
    })

  unfoldable pub verify_access_token : String → Result Payload
  verify_access_token token =
      checked "access" "Access token expired" "Invalid access token"
        (j.verify now token c.access_secret)

  unfoldable pub verify_refresh_token : String → Result Payload
  verify_refresh_token token =
      checked "refresh" "Refresh token expired" "Invalid refresh token"
        (j.verify now token c.refresh_secret)

  -- `const { tokenType, ...refreshPayload } = payload`
  unfoldable pub refresh_token : String → Result TokenPair
  unfolding generate_token_pair verify_refresh_token
  refresh_token token = do
    payload ← verify_refresh_token token
    generate_token_pair (subject_of payload)

-- `decoded.exp`, or null where `!decoded || !decoded.exp`.
abbrev pub expiry_of : Option Payload → Option ℕ
expiry_of none = none
expiry_of (some p) = elim p.exp [ none ↦ none | some e ↦ if nat_eq e 0 then none else some e ]

-- Here the clock is read in milliseconds, `Date.now()`.
module _ (j : JsonWebToken) (now_ms : ℕ) where
  unfoldable pub is_token_expired : String → Bool
  is_token_expired token = elim (expiry_of (j.decode token)) [
    | none ↦ true
    | some e ↦ ltb (e * 1000) now_ms
  ]

  -- `Math.max(0, Math.floor(remaining / 1000))`: below zero, the difference stops at 0 as well.
  unfoldable pub get_token_remaining_time : String → ℕ
  get_token_remaining_time token = elim (expiry_of (j.decode token)) [
    | none ↦ 0
    | some e ↦ (e * 1000 - now_ms) / 1000
  ]
