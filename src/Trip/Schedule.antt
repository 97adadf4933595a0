-- ===== src/Trip/Schedule.antt =====
-- Scheduling a trip, and searching for trips.
use mathlib.Core.List.{Perm}
use Prim.Native.String.{◌++◌ as ◌<>◌}
use billing_app_microservice.Prelude.{
  String, false, none, some, List, [], ◌∷◌, ◌++◌, ◌≡◌, sym, ◌∙◌, arith, first, select, map, inl,
  inr, ◌==◌, ◌&&◌,
}
use billing_app_microservice.Prelude.Js.{Number, num_le, is_nan, trim}
use billing_app_microservice.Effect.{ok, Result-cases, Outcome-cases}
use billing_app_microservice.Platform.Order.{TextOrder}
use billing_app_microservice.Trip.Model.{
  Bus, BusTable, SeatOrder, Trip, TripDto, TripWithBus, TripTable,
}
use billing_app_microservice.Trip.Service.{
  Dates, before_t, trip_of, is_on_day, start_of_day, end_of_day, State, create_trip, search_trips,
  include_buses,
}

-- What a trip that was scheduled looks like.
pub record IsNewTrip (dates : Dates) (d : TripDto) (buses : List Bus) (before after : List Trip)
    (r : Trip) : Type 0 where
  pub id : String
  pub row : r ≡ trip_of dates d id
  pub bus : Bus
  pub bus_exists : first (λ b. b.id == trim d.bus_id) buses ≡ some bus
  pub dated : is_nan r.departure_date ≡ false
  pub stored : after ≡ before ++ r ∷ []

-- A trip that is created is for a bus that exists, has a valid date, and is the one row that the
-- table of trips has gained; the table of buses is left alone.
pub create_trip-ok :
    (t : TripTable) (b : BusTable) (o : SeatOrder) (p : TextOrder Trip) (dates : Dates)
    (d : TripDto) (x : t.Store) (y : b.Store) {r : Trip} {x' : t.Store} {y' : b.Store}
    → create_trip t b o p dates d (x, y) ≡ (ok r, (x', y'))
    → (y' ≡ y) × IsNewTrip dates d (b.rows y) (t.rows x) (t.rows x') r
unfolding create_trip
create_trip-ok t b o p dates d x y {r} {x'} {y'} e =
    elim (Result-cases (b.find_first (λ b. b.id == trim d.bus_id) y)) [
      | inl (some bus, found) ↦ elim (Outcome-cases (t.create (trip_of dates d) x)) [
        | inl (c, x₁, made) ↦
            let (id, row, stored, _) = t.create_ok _ x made in
            let after : x₁ ≡ x' = ground arith in
            let answer : c ≡ r = ground arith in
            let date : is_nan (dates.time d.departure_date) ≡ false = ground arith in
            (
              ground arith,
              record {
                id = id;
                row = sym answer ∙ row;
                bus = bus;
                bus_exists = sym (b.find_first_ok _ y found);
                dated = rw (← answer, row) date;
                stored = rw (← after, ← answer) stored;
              },
            )
        | inr (z, x₁, thrown) ↦ absurd (ground arith)
      ]
      | inl (none, found) ↦ absurd (ground arith)
      | inr (z, thrown) ↦ absurd (ground arith)
    ]

include_buses-ok :
    (t : TripTable) (b : BusTable) (o : SeatOrder) (p : TextOrder Trip) (dates : Dates)
    (xs : List Trip) (x : t.Store) (y : b.Store) {zs : List TripWithBus} {s' : State t b o p dates}
    → include_buses t b o p dates xs (x, y) ≡ (ok zs, s')
    → (map (λ z. z.trip) zs ≡ xs) × (s' ≡ (x, y))
include_buses-ok t b o p dates [] x y e = (ground arith, ground arith)
include_buses-ok t b o p dates (a ∷ xs) x y e =
    elim (Result-cases (b.find_first (λ r. r.id == a.bus_id) y)) [
      | inl (some bus, found) ↦ elim (Outcome-cases (include_buses t b o p dates xs (x, y))) [
        | inl (zs, s₁, rest) ↦
            let (same, still) = include_buses-ok t b o p dates xs x y rest in
            (ground arith, ground arith)
        | inr (z, s₁, thrown) ↦ absurd (ground arith)
      ]
      | inl (none, found) ↦ absurd (ground arith)
      | inr (z, thrown) ↦ absurd (ground arith)
    ]

-- A time of the day that the search was asked for; the caller's text is trimmed, and what follows a
-- `T` in it is dropped.
abbrev pub instant : Dates → (date hour : String) → Number
instant dates date hour = dates.time (before_t (trim date) <> hour)

-- A search that is answered returns the trips of the trimmed route id that depart not before
-- T00:00:00.000Z and not after T23:59:59.999Z of the date asked for, every one once, in some order;
-- it changes nothing.
pub search_trips-ok :
    (t : TripTable) (b : BusTable) (o : SeatOrder) (p : TextOrder Trip) (dates : Dates)
    (route_id date : String) (x : t.Store) (y : b.Store) {zs : List TripWithBus}
    {s' : State t b o p dates}
    → search_trips t b o p dates route_id date (x, y) ≡ (ok zs, s')
    → Perm (map (λ z. z.trip) zs) (
        select
          (λ r.
            (r.route_id == trim route_id)
            && (num_le (instant dates date "T00:00:00.000Z") r.departure_date
                && num_le r.departure_date (instant dates date "T23:59:59.999Z")))
          (t.rows x))
      × (s' ≡ (x, y))
unfolding search_trips
search_trips-ok t b o p dates route_id date x y {zs} {s'} e =
    let on_day = is_on_day (trim route_id) (start_of_day dates date) (end_of_day dates date) in
    elim (Result-cases (t.find_many on_day x)) [
      | inl (xs, found) ↦ elim (Outcome-cases (include_buses t b o p dates (p.order xs) (x, y))) [
        | inl (ys, s₁, read) ↦
            let (same, still) = include_buses-ok t b o p dates (p.order xs) x y read in
            let answer : ys ≡ zs = ground arith in
            let after : s₁ ≡ s' = ground arith in
            (
              rw (← answer, same, ← t.find_many_ok on_day x found) (p.order-perm xs),
              sym after ∙ still,
            )
        | inr (z, s₁, thrown) ↦ absurd (ground arith)
      ]
      | inr (z, thrown) ↦ absurd (ground arith)
    ]
