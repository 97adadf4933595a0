-- ===== src/Trip/Bus.antt =====
-- trip-service/src/services/busService.ts and repositories/bus.repository.ts
use Prim.Native.String.{◌++◌}
use billing_app_microservice.Prelude.{
  ℕ, ◌+◌, String, Bool, true, false, not, ◌||◌, Option, none, some, List, [], ◌∷◌, length, any,
  nat_eq, ◌==◌, if◌then◌else◌, map,
}
use billing_app_microservice.Prelude.Int.{pos, negsuc}
use billing_app_microservice.Prelude.Js.{
  Number, nan, num, number, is_nan, num_le, is_empty, trim, to_upper_case, show, show_ℕ,
}
use billing_app_microservice.Effect.{
  Result, ok, err, Action, pure, throw_if, lift, or_throw, ◌>>=◌, ◌>>◌,
}
use billing_app_microservice.Utils.Errors.{validation, not_found, conflict}
use billing_app_microservice.Platform.Table.{query}
use billing_app_microservice.Trip.Model.{
  bus_types, seat_types, Seat, Bus, BusDto, BusTable, SeatOrder,
}

abbrev pub is_blank : String → Bool
is_blank s = is_empty s || is_empty (trim s)

-- `Object.values(enum).includes(s)`, and `set.has(s)`
unfoldable pub has : List String → String → Bool
has xs s = any (λ x. x == s) xs

-- `!totalSeats || totalSeats <= 0`
unfoldable pub is_bad_count : Number → Bool
is_bad_count n = is_nan n || num_le n (number 0)

-- `seats.length === totalSeats`
unfoldable pub equals_count : ℕ → Number → Bool
equals_count n nan = false
equals_count n (num (pos m)) = nat_eq n m
equals_count n (num (negsuc m)) = false

-- The loop over the seats: `i` counts them, `seen` are the trimmed numbers so far.
unfoldable pub check_seats : ℕ → List String → List Seat → Result (Unit {0})
check_seats i seen [] = ok tt
check_seats i seen (s ∷ seats) =
    let rest = check_seats (i + 1) (trim s.seat_number ∷ seen) seats in
    if is_blank s.seat_number
    then err (validation ("Seat at position " ++ show_ℕ (i + 1) ++ " has an invalid seatNumber"))
    else if not (has seat_types s.seat_type)
    then err (
        validation (
          "Seat " ++ s.seat_number
          ++ " has invalid seatType. Allowed values: WINDOW, AISLE, UPPER_BERTH, LOWER_BERTH"))
    else if has seen (trim s.seat_number)
    then err
        (validation ("Duplicate seatNumber '" ++ trim s.seat_number ++ "' provided in seat layout"))
    else rest

-- `seats.map(s => ({ seatNumber: s.seatNumber.trim(), seatType: s.seatType }))`
abbrev pub trim_number : Seat → Seat
trim_number s = record s { seat_number = trim s.seat_number }

abbrev pub bus_of : BusDto → String → Bus
bus_of d id = record {
  id = id;
  registration_number = to_upper_case (trim d.registration_number);
  operator_name = trim d.operator_name;
  bus_type = d.bus_type;
  total_seats = d.total_seats;
  seats = map trim_number d.seats;
}

-- What `createBus` throws before it asks the database.
unfoldable pub check_bus : {S : Type 0} → BusDto → Action S (Unit {0})
check_bus d = do
  throw_if (is_blank d.registration_number)
      (validation "Registration number is required and must be non-empty")
  throw_if (is_blank d.operator_name) (validation "Operator name is required and must be non-empty")
  throw_if (not (has bus_types d.bus_type)) (
      validation
        "Invalid busType. Allowed values: AC_SEATER, AC_SLEEPER, NON_AC_SEATER, NON_AC_SLEEPER")
  throw_if (is_bad_count d.total_seats) (validation "totalSeats must be a positive integer")
  throw_if (nat_eq (length d.seats) 0) (validation "Seats array is required")
  throw_if (not (equals_count (length d.seats) d.total_seats)) (
      validation (
        "Seats array length ("
        ++ show_ℕ (length d.seats)
        ++ ") must match totalSeats ("
        ++ show d.total_seats
        ++ ")"))
  lift (check_seats 0 [] d.seats)

abbrev pub is_some : {A : Type 0} → Option A → Bool
is_some none = false
is_some (some a) = true

module _ (t : BusTable) (o : SeatOrder) where
  -- `include: { seats: { orderBy: { seatNumber: "asc" } } }`
  abbrev pub with_seats : Bus → Bus
  with_seats b = record b { seats = o.order b.seats }

  abbrev pub seats_ordered : Option Bus → Option Bus
  seats_ordered none = none
  seats_ordered (some b) = some (with_seats b)

  abbrev pub find_by_registration_number : String → Action t.Store (Option Bus)
  find_by_registration_number n = query (t.find_first (λ b. b.registration_number == n))

  abbrev pub find_bus_by_id : String → Action t.Store (Option Bus)
  find_bus_by_id id = query (t.find_first (λ b. b.id == id))

  abbrev pub create_bus_with_seats : BusDto → Action t.Store Bus
  create_bus_with_seats d = do b ← t.create (bus_of d); pure (with_seats b)

  abbrev pub find_bus_with_seats : String → Action t.Store (Option Bus)
  find_bus_with_seats id = do found ← find_bus_by_id id; pure (seats_ordered found)

  unfoldable pub create_bus : BusDto → Action t.Store Bus
  create_bus d = do
    check_bus d
    existing ← find_by_registration_number (to_upper_case (trim d.registration_number))
    throw_if (is_some existing) (
        conflict (
          "Bus with registration number '"
          ++ to_upper_case (trim d.registration_number)
          ++ "' already exists"))
    create_bus_with_seats d

  unfoldable pub get_bus_layout : String → Action t.Store Bus
  get_bus_layout bus_id = do
    throw_if (is_blank bus_id) (validation "Bus ID is required")
    bus ← find_bus_with_seats (trim bus_id)
    or_throw bus (not_found "Bus not found")
