-- ===== src/Trip/Service.antt =====
-- trip-service/src/services/tripService.ts and repositories/trip.repository.ts. The two tables are
-- the store. The database keeps `busId` a foreign key, so a trip's bus is missing only through a
-- fault, which Prisma reports as an error of its own.
use Prim.Native.Char.{code}
use Prim.Native.String.{[], ◌∷◌, ◌++◌}
use billing_app_microservice.Prelude.{
  String, Bool, Option, none, some, List, nat_eq, ◌&&◌, ◌==◌, if◌then◌else◌,
}
use mathlib.Core.List.{[], ◌∷◌}
use billing_app_microservice.Prelude.Js.{Number, is_nan, num_le, is_empty, trim}
use billing_app_microservice.Effect.{Action, pure, throw_if, or_throw, ◌>>=◌, ◌>>◌}
use billing_app_microservice.Utils.Errors.{validation, not_found, plain}
use billing_app_microservice.Platform.Table.{query}
use billing_app_microservice.Platform.Order.{TextOrder}
use billing_app_microservice.Trip.Model.{
  scheduled, Seat, BusTable, SeatOrder, Trip, TripDto, TripWithBus, TripTable,
}
use billing_app_microservice.Trip.Bus.{is_blank, find_bus_by_id, find_bus_with_seats}

-- `new Date(s).getTime()`
pub record Dates : Type 0 where
  pub time : String → Number

-- `s.split("T")[0]`
abbrev pub before_t : String → String
before_t [] = []
before_t (c ∷ s) = if nat_eq (code c) 0x54 then [] else c ∷ before_t s

abbrev pub status_or_scheduled : Option String → String
status_or_scheduled none = scheduled
status_or_scheduled (some s) = s

abbrev pub trip_of : Dates → TripDto → String → Trip
trip_of dates d id = record {
  id = id;
  route_id = trim d.route_id;
  bus_id = trim d.bus_id;
  departure_date = dates.time d.departure_date;
  departure_time = trim d.departure_time;
  status = status_or_scheduled d.status;
}

-- `where: { routeId, departureDate: { gte: startDate, lte: endDate } }`
abbrev pub is_on_day : String → Number → Number → Trip → Bool
is_on_day route_id start end x =
    (x.route_id == route_id) && (num_le start x.departure_date && num_le x.departure_date end)

-- `startDate` and `endDate` of a search
abbrev pub start_of_day : Dates → String → Number
start_of_day dates date = dates.time (before_t (trim date) ++ "T00:00:00.000Z")

abbrev pub end_of_day : Dates → String → Number
end_of_day dates date = dates.time (before_t (trim date) ++ "T23:59:59.999Z")

module _ (t : TripTable) (b : BusTable) (o : SeatOrder) (p : TextOrder Trip) (dates : Dates) where
  abbrev pub State : Type 0
  State = t.Store × b.Store

  abbrev pub on_trips : {A : Type 0} → Action t.Store A → Action State A
  on_trips m (x, y) = let (r, x') = m x in (r, (x', y))

  abbrev pub on_buses : {A : Type 0} → Action b.Store A → Action State A
  on_buses m (x, y) = let (r, y') = m y in (r, (x, y'))

  -- `include: { bus: { include: { seats: … } } }`
  abbrev pub include_bus : Trip → Action State TripWithBus
  include_bus x = do
    found ← on_buses (find_bus_with_seats b o x.bus_id)
    bus ← or_throw found (plain "Inconsistent query result")
    pure (record { trip = x; bus = bus })

  abbrev pub include_buses : List Trip → Action State (List TripWithBus)
  include_buses [] = pure []
  include_buses (x ∷ xs) = do y ← include_bus x; ys ← include_buses xs; pure (y ∷ ys)

  -- `create` with `bus: { connect: { id } }`
  abbrev pub create_trip_row : TripDto → Action State Trip
  create_trip_row d = do
    found ← on_buses (find_bus_by_id b o (trim d.bus_id))
    or_throw found (plain "No 'Bus' record was found for a nested connect")
    on_trips (t.create (trip_of dates d))

  abbrev pub find_trip_with_bus_and_seats : String → Action State (Option TripWithBus)
  find_trip_with_bus_and_seats id = do
    found ← on_trips (query (t.find_first (λ x. x.id == id)))
    elim found [ none ↦ pure none | some x ↦ (do y ← include_bus x; pure (some y)) ]

  abbrev pub find_trips_by_route_and_date :
      String → Number → Number → Action State (List TripWithBus)
  find_trips_by_route_and_date route_id start end = do
    xs ← on_trips (query (t.find_many (is_on_day route_id start end)))
    include_buses (p.order xs)

  unfoldable pub create_trip : TripDto → Action State Trip
  create_trip d = do
    throw_if (is_blank d.route_id) (validation "routeId is required")
    throw_if (is_blank d.bus_id) (validation "busId is required")
    throw_if (is_empty d.departure_date) (validation "departureDate is required")
    throw_if (is_blank d.departure_time)
        (validation "departureTime is required (e.g. '08:30 AM' or '14:00')")
    throw_if (is_nan (dates.time d.departure_date)) (validation "Invalid departureDate format")
    bus ← on_buses (find_bus_by_id b o (trim d.bus_id))
    or_throw bus (not_found ("Bus with ID '" ++ trim d.bus_id ++ "' not found"))
    create_trip_row d

  unfoldable pub search_trips : (route_id date : String) → Action State (List TripWithBus)
  search_trips route_id date = do
    throw_if (is_blank route_id) (validation "routeId is required for searching trips")
    throw_if (is_blank date) (validation "date query parameter is required (YYYY-MM-DD)")
    throw_if (is_nan (dates.time (trim date)))
        (validation "Invalid date format. Expected YYYY-MM-DD")
    find_trips_by_route_and_date (trim route_id) (start_of_day dates date) (end_of_day dates date)

  unfoldable pub get_trip_with_layout : String → Action State TripWithBus
  get_trip_with_layout trip_id = do
    throw_if (is_blank trip_id) (validation "Trip ID is required")
    trip ← find_trip_with_bus_and_seats (trim trip_id)
    or_throw trip (not_found "Trip not found")

  unfoldable pub get_trip_seats : String → Action State (List Seat)
  unfolding get_trip_with_layout
  get_trip_seats trip_id = do x ← get_trip_with_layout trip_id; pure x.bus.seats
