-- ===== src/Trip/Routes.antt =====
-- trip-service/src/routes/busRoutes.ts, tripRoutes.ts and app.ts
use billing_app_microservice.Prelude.{String, ◌&&◌, none, some, [], ◌∷◌, ◌==◌, if◌then◌else◌}
use billing_app_microservice.Platform.Express.{Router, Endpoint, mount, app}

pub data TripCall : Type 0 where
  create_bus create_trip search_trips : TripCall
  get_bus_layout get_trip_with_layout get_trip_seats : (id : String) → TripCall

unfoldable pub bus_router : Router TripCall
bus_router method [] = if method == "POST" then some create_bus else none
bus_router method (id ∷ a ∷ []) =
    if method == "GET" && a == "layout" then some (get_bus_layout id) else none
bus_router method _ = none

unfoldable pub trip_router : Router TripCall
trip_router method [] =
    if method == "POST"
    then some create_trip
    else if method == "GET"
    then some search_trips
    else none
trip_router method (id ∷ []) = if method == "GET" then some (get_trip_with_layout id) else none
trip_router method (id ∷ a ∷ []) =
    if method == "GET" && a == "seats" then some (get_trip_seats id) else none
trip_router method _ = none

unfoldable pub trip_app : Router (Endpoint TripCall)
trip_app = app (mount "buses" bus_router) (mount "trips" trip_router)
