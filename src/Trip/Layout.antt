-- ===== src/Trip/Layout.antt =====
-- The seat layout that a new bus gets.
use billing_app_microservice.Prelude.{
  ◌≤◌, String, true, false, none, List, [], ◌∷◌, ◌++◌, ◌≡◌, first, length, map, ◌==◌, All,
}
use billing_app_microservice.Prelude.Js.{trim, to_upper_case, number}
use billing_app_microservice.Trip.Model.{bus_types, seat_types, Seat, Bus, BusDto, SeatOrder}
use billing_app_microservice.Trip.Bus.{is_blank, has, trim_number, bus_of}

-- No two entries of the list have the same column.
abbrev pub IsDistinct : {A : Type 0} → (A → String) → List A → Type 0
IsDistinct column [] = Unit
IsDistinct column (x ∷ xs) = All (λ y. (column x == column y) ≡ false) xs × IsDistinct column xs

abbrev pub IsGoodSeat : Seat → Type 0
IsGoodSeat s = (is_blank s.seat_number ≡ false) × (has seat_types s.seat_type ≡ true)

-- A layout that `create_bus` accepts.
pub record IsLayout (d : BusDto) : Type 0 where
  pub typed : has bus_types d.bus_type ≡ true
  pub counted : d.total_seats ≡ number (length d.seats)
  pub some_seat : 1 ≤ length d.seats
  pub distinct : IsDistinct (λ s. trim s.seat_number) d.seats
  pub good : All IsGoodSeat d.seats

-- What a bus that was created looks like.
pub record IsNewBus (o : SeatOrder) (d : BusDto) (before after : List Bus) (r : Bus) : Type 0 where
  pub id : String
  pub answer : r ≡ record (bus_of d id) { seats = o.order (map trim_number d.seats) }
  pub stored : after ≡ before ++ bus_of d id ∷ []
  pub unknown :
      first (λ b. b.registration_number == to_upper_case (trim d.registration_number)) before ≡ none
  pub layout : IsLayout d
