-- ===== src/Trip/Model.antt =====
-- trip-service/src/interface/busInterface.ts, tripInterface.ts and the enums of
-- generated/prisma/enums.ts. A bus is kept with its seats, as `include` reads it; an enum's value is
-- its name. A seat's own `id` and `busId` are left out, and the time columns.
use billing_app_microservice.Prelude.{String, Bool, ◌||◌, Option, List, [], ◌∷◌, ◌==◌}
use billing_app_microservice.Prelude.Js.{Number}
use billing_app_microservice.Platform.Table.{Table}
use billing_app_microservice.Platform.Order.{TextOrder}

abbrev pub bus_types : List String
bus_types = "AC_SEATER" ∷ "AC_SLEEPER" ∷ "NON_AC_SEATER" ∷ "NON_AC_SLEEPER" ∷ []

abbrev pub seat_types : List String
seat_types = "WINDOW" ∷ "AISLE" ∷ "UPPER_BERTH" ∷ "LOWER_BERTH" ∷ []

abbrev pub scheduled : String
scheduled = "SCHEDULED"

pub record Seat : Type 0 where
  pub seat_number : String
  pub seat_type : String

pub record Bus : Type 0 where
  pub id : String
  pub registration_number : String
  pub operator_name : String
  pub bus_type : String
  pub total_seats : Number
  pub seats : List Seat

-- `CreateBusDto`, whose seats are `CreateSeatDto`s.
pub record BusDto : Type 0 where
  pub registration_number : String
  pub operator_name : String
  pub bus_type : String
  pub total_seats : Number
  pub seats : List Seat

-- The unique columns of a bus: `id` and `registrationNumber`.
abbrev pub same_id_or_number : Bus → Bus → Bool
same_id_or_number a b = (a.id == b.id) || (a.registration_number == b.registration_number)

abbrev pub BusTable : Type 1
BusTable = Table Bus (λ b. b.id) same_id_or_number

-- `orderBy: { seatNumber: "asc" }`
abbrev pub SeatOrder : Type 0
SeatOrder = TextOrder Seat

-- A date is the number of milliseconds since 1970, `NaN` for an invalid one.
pub record Trip : Type 0 where
  pub id : String
  pub route_id : String
  pub bus_id : String
  pub departure_date : Number
  pub departure_time : String
  pub status : String

pub record TripDto : Type 0 where
  pub route_id : String
  pub bus_id : String
  pub departure_date : String
  pub departure_time : String
  pub status : Option String

-- A trip as it is read with `include: { bus: … }`.
pub record TripWithBus : Type 0 where
  pub trip : Trip
  pub bus : Bus

abbrev pub same_id : Trip → Trip → Bool
same_id a b = a.id == b.id

abbrev pub TripTable : Type 1
TripTable = Table Trip (λ t. t.id) same_id
