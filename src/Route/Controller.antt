-- ===== src/Route/Controller.antt =====
-- route-service/src/controllers/routeController.ts
use billing_app_microservice.Prelude.{String, List}
use billing_app_microservice.Effect.{pure, ◌>>=◌}
use billing_app_microservice.Utils.StatusCode
use billing_app_microservice.Utils.Response.{Response, respond, handle}
use billing_app_microservice.Route.Service.{Stop, Route, RouteTable, StopOrder}
use billing_app_microservice.Route.Service

module _ (t : RouteTable) (o : StopOrder) where
  abbrev pub create_route : (name : String) → List String → t.Store → Response Route × t.Store
  create_route name stops = handle (do
    route ← Service.create_route t o name stops
    pure (respond StatusCode.created route "Route created successfully"))

  abbrev pub get_all_routes : (List Route → List Route) → t.Store → Response (List Route) × t.Store
  get_all_routes by_created = handle (do
    routes ← Service.get_all_routes t o by_created
    pure (respond StatusCode.success routes "Routes retrieved successfully"))

  abbrev pub get_route_stops : String → t.Store → Response (List Stop) × t.Store
  get_route_stops id = handle (do
    stops ← Service.get_route_stops t o id
    pure (respond StatusCode.success stops "Route stops retrieved successfully"))
