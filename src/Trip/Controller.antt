-- ===== src/Trip/Controller.antt =====
-- trip-service/src/controllers/busController.ts and tripController.ts. The body of a request is
-- taken as it is; a path's parameter is one text.
use billing_app_microservice.Prelude.{String, Option, none, some, List}
use billing_app_microservice.Effect.{pure, ◌>>=◌}
use billing_app_microservice.Utils.StatusCode
use billing_app_microservice.Utils.Response.{Response, respond, handle}
use billing_app_microservice.Platform.Order.{TextOrder}
use billing_app_microservice.Trip.Model.{
  Seat, Bus, BusDto, BusTable, SeatOrder, Trip, TripDto, TripWithBus, TripTable,
}
use billing_app_microservice.Trip.Bus
use billing_app_microservice.Trip.Service

-- `typeof q === "string" ? q : ""`
abbrev pub query_text : Option String → String
query_text none = ""
query_text (some s) = s

module _ (b : BusTable) (o : SeatOrder) where
  abbrev pub create_bus : BusDto → b.Store → Response Bus × b.Store
  create_bus body = handle (do
    bus ← Bus.create_bus b o body
    pure (respond StatusCode.created bus "Bus registered with seat layout successfully"))

  abbrev pub get_bus_layout : String → b.Store → Response Bus × b.Store
  get_bus_layout id = handle (do
    bus ← Bus.get_bus_layout b o id
    pure (respond StatusCode.success bus "Bus layout retrieved successfully"))

module _ (t : TripTable) (b : BusTable) (o : SeatOrder) (p : TextOrder Trip)
    (dates : Service.Dates) where
  abbrev State : Type 0
  State = t.Store × b.Store

  abbrev pub create_trip : TripDto → State → Response Trip × State
  create_trip body = handle (do
    trip ← Service.create_trip t b o p dates body
    pure (respond StatusCode.created trip "Trip scheduled successfully"))

  abbrev pub search_trips :
      (route_id date : Option String) → State → Response (List TripWithBus) × State
  search_trips route_id date = handle (do
    trips ← Service.search_trips t b o p dates (query_text route_id) (query_text date)
    pure (respond StatusCode.success trips "Trips retrieved successfully"))

  abbrev pub get_trip_with_layout : String → State → Response TripWithBus × State
  get_trip_with_layout id = handle (do
    trip ← Service.get_trip_with_layout t b o p dates id
    pure (respond StatusCode.success trip "Trip details with seat layout retrieved successfully"))

  abbrev pub get_trip_seats : String → State → Response (List Seat) × State
  get_trip_seats id = handle (do
    seats ← Service.get_trip_seats t b o p dates id
    pure (respond StatusCode.success seats "Trip seat layout retrieved successfully"))
