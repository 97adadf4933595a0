-- ===== src/Trip/Examples.antt =====
-- A bus with two seats, and a trip of it.
use mathlib.Core.List.Perm
use mathlib.Core.List.{Perm}
use billing_app_microservice.Prelude.{none, List, [], ◌∷◌, ◌≡◌, refl, select}
use billing_app_microservice.Prelude.Js.{number, trim, show_ℕ}
use billing_app_microservice.Effect.{ok}
use billing_app_microservice.Platform.Memory.{memory}
use billing_app_microservice.Platform.Order.{TextOrder}
use billing_app_microservice.Trip.Model.{
  Bus, BusDto, BusTable, SeatOrder, same_id_or_number, Trip, TripDto, TripTable, same_id,
}
use billing_app_microservice.Trip.Bus.{bus_of}
use billing_app_microservice.Trip.Service.{
  Dates, trip_of, is_on_day, start_of_day, end_of_day, create_trip, search_trips,
}
use billing_app_microservice.Trip.Schedule.{search_trips-ok}

abbrev buses : BusTable
buses = memory (λ b. b.id) same_id_or_number

abbrev trips : TripTable
trips = memory (λ x. x.id) same_id

abbrev seat_order : SeatOrder
seat_order = record { order = λ xs. xs; order-perm = λ xs. Perm.refl xs }

abbrev by_time : TextOrder Trip
by_time = record { order = λ xs. xs; order-perm = λ xs. Perm.refl xs }

abbrev dates : Dates
dates = record { time = λ s. number 7 }

abbrev dto : BusDto
dto = record {
  registration_number = "ka-01";
  operator_name = "Red";
  bus_type = "AC_SEATER";
  total_seats = number 2;
  seats =
      record { seat_number = "A1 "; seat_type = "WINDOW" }
      ∷ record { seat_number = "A2"; seat_type = "AISLE" }
      ∷ [];
}

abbrev bus : Bus
bus = bus_of dto "0"

abbrev request : TripDto
request = record {
  route_id = "R";
  bus_id = "0";
  departure_date = "2025-01-01";
  departure_time = "08:30";
  status = none;
}

abbrev trip : Trip
trip = trip_of dates request "0"

scheduled_trip :
    create_trip trips buses seat_order by_time dates request ([], bus ∷ [])
    ≡ (ok trip, (trip ∷ [], bus ∷ []))
unfolding create_trip trim show_ℕ
scheduled_trip = refl

found :
    search_trips trips buses seat_order by_time dates "R" "2025-01-01" (trip ∷ [], bus ∷ [])
    ≡ (ok (record { trip = trip; bus = bus } ∷ []), (trip ∷ [], bus ∷ []))
unfolding search_trips trim
found = refl

search_trips-ok_example :
    Perm (trip ∷ []) (
      select
        (is_on_day (trim "R") (start_of_day dates "2025-01-01") (end_of_day dates "2025-01-01"))
        (trip ∷ []))
    × (◌≡◌ {A = List Trip × List Bus} (trip ∷ [], bus ∷ []) (trip ∷ [], bus ∷ []))
search_trips-ok_example =
    search_trips-ok trips buses seat_order by_time dates "R" "2025-01-01" (trip ∷ []) (bus ∷ [])
      found
