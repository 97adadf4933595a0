-- ===== src/User/Routes.antt =====
-- user-service/src/routes/userRoutes.ts and app.ts
use billing_app_microservice.Prelude.{◌&&◌, none, some, [], ◌∷◌, ◌==◌, if◌then◌else◌}
use billing_app_microservice.Platform.Express.{Router, Endpoint, app}

pub data UserCall : Type 0 where
  register login : UserCall

unfoldable pub user_router : Router UserCall
user_router method (a ∷ []) =
    if method == "POST" && a == "register"
    then some register
    else if method == "POST" && a == "login"
    then some login
    else none
user_router method _ = none

-- Here the router comes before the route of `/health`, which it does not take.
unfoldable pub user_app : Router (Endpoint UserCall)
user_app = app user_router (λ method path. none)
