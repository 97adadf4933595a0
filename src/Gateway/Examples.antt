-- ===== src/Gateway/Examples.antt =====
-- Requests with a good token, with a refused one, and the routing of a few paths.
use billing_app_microservice.Platform.Express.{handler}
use billing_app_microservice.Orchestrator.Routes.{
  confirm_booking_saga, orchestrator_router, orchestrator_app,
}
use billing_app_microservice.Gateway.Reach.{IsGuarded, at_orchestrator, reach, reach-IsGuarded}
use billing_app_microservice.Prelude.{true, false, none, some, [], ◌∷◌, ◌≡◌, refl}
use billing_app_microservice.Effect.{ok, err}
use billing_app_microservice.Utils.StatusCode
use billing_app_microservice.Utils.Errors.{plain}
use billing_app_microservice.Utils.Jwt.{Payload, stamped, verify_access_token}
use billing_app_microservice.Utils.Examples.{toy, config, known}
use billing_app_microservice.Gateway.Auth.{Headers, answered, bearer_token, auth_middleware}
use billing_app_microservice.Platform.Url.{path_with, parts}
use billing_app_microservice.Gateway.Routes.{booking_routes, route}
use billing_app_microservice.Gateway.Laws.{refused_token-status}

abbrev request : Headers
request = record {
  authorization = some "Bearer access";
  x_user_id = some "someone else";
  x_user_email = none;
  x_user_role = some "admin";
}

abbrev claims : Payload
claims = stamped (known "access") 0 900

read : bearer_token (some "Bearer access") ≡ ok "access"
unfolding bearer_token
read = refl

refused : verify_access_token toy config 900 "access" ≡ err (plain "Access token expired")
unfolding verify_access_token
refused = refl

refused_token-status_example :
    auth_middleware toy config 900 request
    ≡ answered (record {
      success = false;
      status = StatusCode.error;
      message = "Access token expired";
      body = none;
    })
refused_token-status_example = refused_token-status toy config 900 request read refused

to_saga :
    reach "POST" ("api" ∷ "bookings" ∷ "confirm" ∷ [])
    ≡ some (true, at_orchestrator (handler confirm_booking_saga))
unfolding reach route booking_routes orchestrator_app orchestrator_router
to_saga = refl

reach-IsGuarded_example : IsGuarded "POST" true (at_orchestrator (handler confirm_booking_saga))
reach-IsGuarded_example = reach-IsGuarded "POST" ("api" ∷ "bookings" ∷ "confirm" ∷ []) to_saga

-- A cancellation of an id with a question mark is read as a confirmation.
odd_id :
    reach "POST" ("api" ∷ "bookings" ∷ "confirm?" ∷ "cancel" ∷ [])
    ≡ some (true, at_orchestrator (handler confirm_booking_saga))
unfolding reach route booking_routes path_with parts orchestrator_app orchestrator_router
odd_id = refl
