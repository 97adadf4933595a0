-- ===== src/Gateway/Routes.antt =====
-- api-gateway/src/app.ts, routes/*.ts and proxy/service.proxy.ts: to which service a request goes,
-- under which path, and whether the middleware runs before.
-- A path is the list of the parts between its slashes; the query string is left out.
use billing_app_microservice.Prelude.{
  String, Bool, true, false, ◌&&◌, Option, none, some, List, [], ◌∷◌, ◌==◌, if◌then◌else◌,
}
use billing_app_microservice.Platform.Url.{path_with}

pub data Service : Type 0 where
  user_service route_service trip_service booking_service payment_service orchestrator : Service

pub record Forward : Type 0 where
  pub service : Service
  pub path : List String
  pub authenticated : Bool

abbrev forward : Service → Bool → List String → Forward
forward service authenticated path = record {
  service = service;
  path = path;
  authenticated = authenticated;
}

-- routes/booking.routes.ts, below its mount point. For a cancellation the path is written anew, with
-- the id in it as the parameter was decoded, and read again by the orchestrator.
unfoldable pub booking_routes : (method : String) → List String → Forward
booking_routes method (a ∷ []) =
    if method == "POST" && a == "confirm"
    then forward orchestrator true ("bookings" ∷ "confirm" ∷ [])
    else forward booking_service true ("bookings" ∷ a ∷ [])
booking_routes method (id ∷ a ∷ []) =
    if method == "POST" && a == "cancel"
    then forward orchestrator true ("bookings" ∷ path_with id "cancel")
    else forward booking_service true ("bookings" ∷ id ∷ a ∷ [])
booking_routes method rest = forward booking_service true ("bookings" ∷ rest)

-- routes/auth.routes.ts and routes/route.routes.ts
abbrev auth_routes : List String → Forward
auth_routes rest = forward user_service false rest

abbrev route_routes : List String → Forward
route_routes rest = forward route_service true rest

-- routes/bus.routes.ts, routes/trip.routes.ts and routes/payment.routes.ts
abbrev bus_routes : List String → Forward
bus_routes rest = forward trip_service true ("buses" ∷ rest)

abbrev trip_routes : List String → Forward
trip_routes rest = forward trip_service true ("trips" ∷ rest)

abbrev payment_routes : List String → Forward
payment_routes rest = forward payment_service true ("payments" ∷ rest)

abbrev mounted : String → String → List String → Option Forward
mounted method name rest =
    if name == "auth"
    then some (auth_routes rest)
    else if name == "routes"
    then some (route_routes rest)
    else if name == "buses"
    then some (bus_routes rest)
    else if name == "trips"
    then some (trip_routes rest)
    else if name == "bookings"
    then some (booking_routes method rest)
    else if name == "payments"
    then some (payment_routes rest)
    else none

-- `none`: no proxy takes the request (`/health`, or 404).
unfoldable pub route : (method : String) → List String → Option Forward
unfolding booking_routes
route method (api ∷ name ∷ rest) = if api == "api" then mounted method name rest else none
route method _ = none
