-- ===== src/Gateway/Laws.antt =====
-- What the gateway guarantees to the services behind it.
use billing_app_microservice.Prelude.{
  ℕ, String, true, false, none, some, List, [], ◌∷◌, ◌≡◌, ◌≢◌, ◌⊎◌, arith, inl, inr, eq_iff,
}
use billing_app_microservice.Effect.{ok, err}
use billing_app_microservice.Utils.Errors.{Error, message_of}
use billing_app_microservice.Utils.Jwt.Laws.{verify_access-plain}
use billing_app_microservice.Utils.StatusCode
use billing_app_microservice.Utils.Response.{respond_error}
use billing_app_microservice.Utils.Jwt.{JsonWebToken, JwtConfig, verify_access_token}
use billing_app_microservice.Gateway.Auth.{
  Headers, answered, bearer_token, authenticate, auth_middleware,
}
use billing_app_microservice.Platform.Url.{path_with}
use billing_app_microservice.Gateway.Routes.{Forward, user_service, orchestrator, route}

module _ (j : JsonWebToken) (c : JwtConfig) (now : ℕ) (h : Headers) where
  -- A bearer token that the verification refuses, an expired one too, is answered with status 500.
  pub refused_token-status :
      {token : String} {e : Error}
      → bearer_token h.authorization ≡ ok token
      → verify_access_token j c now token ≡ err e
      → auth_middleware j c now h
        ≡ answered (record {
          success = false;
          status = StatusCode.error;
          message = message_of e;
          body = none;
        })
  unfolding auth_middleware authenticate respond_error
  refused_token-status {token} held refused =
      ground (arith, verify_access-plain j c now token refused)

-- Every request that goes to a service other than the user service has passed the middleware.
pub route-authenticated :
    (method : String) (path : List String) {f : Forward}
    → route method path ≡ some f
    → f.service ≢ user_service
    → f.authenticated ≡ true
unfolding route
route-authenticated method (api ∷ name ∷ []) e other = ground arith
route-authenticated method (api ∷ name ∷ a ∷ []) e other = ground arith
route-authenticated method (api ∷ name ∷ a ∷ b ∷ []) e other = ground arith
route-authenticated method (api ∷ name ∷ a ∷ b ∷ d ∷ rest) e other = ground arith
route-authenticated method (api ∷ []) e other = absurd (ground arith)
route-authenticated method [] e other = absurd (ground arith)

-- The orchestrator is reached by a POST to confirm, or to cancel with an id written into the path,
-- and by nothing else.
pub route-orchestrator :
    (method : String) (path : List String) {f : Forward}
    → route method path ≡ some f
    → f.service ≡ orchestrator
    → (method ≡ "POST")
      × ((f.path ≡ "bookings" ∷ "confirm" ∷ [])
          ⊎ ((id : String) × (f.path ≡ "bookings" ∷ path_with id "cancel")))
unfolding route
route-orchestrator method (api ∷ name ∷ []) e here = absurd (ground arith)
route-orchestrator method (api ∷ name ∷ a ∷ []) e here =
    (ground (arith, eq_iff method "POST"), inl (ground arith))
route-orchestrator method (api ∷ name ∷ id ∷ b ∷ []) e here =
    (ground (arith, eq_iff method "POST"), inr (id, ground arith))
route-orchestrator method (api ∷ name ∷ a ∷ b ∷ d ∷ rest) e here = absurd (ground arith)
route-orchestrator method (api ∷ []) e here = absurd (ground arith)
route-orchestrator method [] e here = absurd (ground arith)
