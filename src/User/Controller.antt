-- ===== src/User/Controller.antt =====
-- user-service/src/controllers/userController.ts
use billing_app_microservice.Prelude.{ℕ, String}
use billing_app_microservice.Effect.{pure, ◌>>=◌}
use billing_app_microservice.Utils.StatusCode
use billing_app_microservice.Utils.Response.{Response, respond, handle}
use billing_app_microservice.Utils.Jwt.{JsonWebToken, JwtConfig}
use billing_app_microservice.User.Model.{UserTable, Bcrypt}
use billing_app_microservice.User.Service.{Registration, AuthResponse}
use billing_app_microservice.User.Service

module _ (t : UserTable) (b : Bcrypt) where
  abbrev pub register : (salt : String) → Registration → t.Store → Response (Unit {0}) × t.Store
  register salt body = handle (do
    done ← Service.register t b salt body
    pure (respond StatusCode.created done "User registered successfully"))

  abbrev pub login :
      JsonWebToken
      → JwtConfig
      → (now : ℕ) → (email password : String) → t.Store
      → Response AuthResponse × t.Store
  login j c now email password = handle (do
    result ← Service.login t b j c now email password
    pure (respond StatusCode.success result "Login successful"))
