-- ===== src/Gateway/Login.antt =====
-- From a login at the user service to a request at the gateway: user-service/src/config,
-- api-gateway/src/config and the middleware between them.
use Prim.Native.Char.{code}
use Prim.Native.String.{[] as nil, ◌∷◌ as ◌⊳◌, ◌++◌ as ◌<>◌}
use Prim.Native.String.append
use billing_app_microservice.Prelude.{ℕ, String, false, Option, ◌≡◌, nat_eq}
use billing_app_microservice.Prelude.Js.{Number}
use billing_app_microservice.Effect.{ok}
use billing_app_microservice.Utils.Duration.{get_expiration_time}
use billing_app_microservice.Utils.Jwt.{JsonWebToken, Payload, payload_of, stamped}
use billing_app_microservice.User.Model.{User, UserTable, Bcrypt}
use billing_app_microservice.User.Service.{subject}
use billing_app_microservice.User.Settings as UserSettings
use billing_app_microservice.Gateway.Settings.{ProcessEnv, EnvConfig, validate_env}

-- The token has no space.
abbrev IsWord : String → Type 0
IsWord nil = Unit
IsWord (c ⊳ s) = (nat_eq (code c) 0x20 ≡ false) × IsWord s

module _ (t : UserTable) (b : Bcrypt) (j : JsonWebToken) (to_number : Option String → Number)
    (env : ProcessEnv) {g : EnvConfig} (started : validate_env env ≡ ok g) where
  -- What `jsonwebtoken` has stamped into the access token.
  abbrev claims_of : User → ℕ → Payload
  claims_of u now =
      stamped (payload_of (subject u) "access") now (get_expiration_time g.jwt_expires_in)
