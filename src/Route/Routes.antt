-- ===== src/Route/Routes.antt =====
-- route-service/src/routes/routeRoutes.ts and app.ts
use billing_app_microservice.Prelude.{String, ◌&&◌, none, some, [], ◌∷◌, ◌==◌, if◌then◌else◌}
use billing_app_microservice.Platform.Express.{Router, Endpoint, mount, app}

pub data RouteCall : Type 0 where
  create_route get_all_routes : RouteCall
  get_route_stops : (id : String) → RouteCall

unfoldable pub route_router : Router RouteCall
route_router method [] =
    if method == "POST"
    then some create_route
    else if method == "GET"
    then some get_all_routes
    else none
route_router method (id ∷ a ∷ []) =
    if method == "GET" && a == "stops" then some (get_route_stops id) else none
route_router method _ = none

unfoldable pub route_app : Router (Endpoint RouteCall)
route_app = app (mount "routes" route_router) route_router
