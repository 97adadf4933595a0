-- ===== src/Gateway/Auth.antt =====
-- api-gateway/src/middleware/auth.middleware.ts
use Prim.Native.Char.{code}
use Prim.Native.String.{[], ◌∷◌}
use text.Mathlib.Text.{starts_with}
use billing_app_microservice.Prelude.{ℕ, String, Option, none, some, nat_eq, if◌then◌else◌}
use billing_app_microservice.Prelude.Js.{is_empty}
use billing_app_microservice.Effect.{Result, ok, err}
use billing_app_microservice.Utils.Errors.{Error, unauthorized}
use billing_app_microservice.Utils.Response.{Response, respond_error}
use billing_app_microservice.Utils.Jwt.{JsonWebToken, JwtConfig, Payload, verify_access_token}

-- The headers that the gateway and the services read.
pub record Headers : Type 0 where
  pub authorization : Option String
  pub x_user_id : Option String
  pub x_user_email : Option String
  pub x_user_role : Option String

-- `next()` with the request as it is now, or a response.
pub data Handled : Type 0 where
  next : Headers → Handled
  answered : Response (Unit {0}) → Handled

-- `s.split(" ")[1]`: what stands between the first space and the second; `none` for `undefined`.
abbrev pub until_space : String → String
until_space [] = []
until_space (c ∷ s) = if nat_eq (code c) 0x20 then [] else c ∷ until_space s

abbrev pub second_word : String → Option String
second_word [] = none
second_word (c ∷ s) = if nat_eq (code c) 0x20 then some (until_space s) else second_word s

abbrev missing_header : Error
missing_header =
    unauthorized "Authorization header missing or invalid format (Bearer token required)"

-- `!authHeader || !authHeader.startsWith("Bearer ")`, and then the token.
unfoldable pub bearer_token : Option String → Result String
bearer_token none = err missing_header
bearer_token (some h) =
    if starts_with h "Bearer "
    then elim (second_word h) [ none ↦ ok "" | some t ↦ ok t ]
    else err missing_header

abbrev pub with_identity : Payload → Headers → Headers
with_identity p h = record h {
  x_user_id = some p.id;
  x_user_email = some p.email;
  x_user_role = some p.role;
}

abbrev require_id : Payload → Result Payload
require_id p = if is_empty p.id then err (unauthorized "Invalid or expired access token") else ok p

infixl 5 ◌>>=◌
abbrev ◌>>=◌ : {A B : Type 0} → Result A → (A → Result B) → Result B
ok a >>= k = k a
err e >>= k = err e

module _ (j : JsonWebToken) (c : JwtConfig) where
  unfoldable pub authenticate : (now : ℕ) → Headers → Result Payload
  authenticate now h = do
    token ← bearer_token h.authorization
    payload ← verify_access_token j c now token
    require_id payload

  abbrev decide : Headers → Result Payload → Handled
  decide h (ok p) = next (with_identity p h)
  decide h (err e) = answered (respond_error e)

  unfoldable pub auth_middleware : (now : ℕ) → Headers → Handled
  auth_middleware now h = decide h (authenticate now h)
