-- ===== src/Booking/SeatMap.antt =====
-- The table of bookings seen from outside: which seat is taken on which leg of which trip. The map
-- forgets the rows, their order and their statuses; the operations of the service are the operations
-- on it.
pub mod Rows
pub mod Refine
pub mod Granted
mod Examples
use billing_app_microservice.Prelude.{
  ℕ, String, Bool, true, false, ◌&&◌, ◌||◌, not, List, ◌≡◌, any, ◌==◌,
}
use billing_app_microservice.Prelude.Int.{ℤ, leb_ℤ, ltb_ℤ}
use billing_app_microservice.Prelude.Js.{Number, nan, num}
use billing_app_microservice.Booking.Model.{Booking}
use billing_app_microservice.Booking.Repository.{is_active_for}
use billing_app_microservice.Booking.Overlap.{Leg}

-- The leg from stop `k` to stop `k + 1` is part of the journey.
abbrev pub on_leg : ℤ → Number → Number → Bool
on_leg k (num a) (num b) = leb_ℤ a k && ltb_ℤ k b
on_leg k _ _ = false

-- Of a trip, a seat and a leg.
abbrev pub SeatMap : Type 0
SeatMap = String → String → ℤ → Bool

-- At `now` the row has the seat on the leg.
abbrev pub takes : ℕ → String → String → ℤ → Booking → Bool
takes now trip seat k x = is_active_for now trip seat x && on_leg k x.from_stop_seq x.to_stop_seq

abbrev pub seat_map : ℕ → List Booking → SeatMap
seat_map now rows trip seat k = any (takes now trip seat k) rows

abbrev pub covers : String → String → Number → Number → SeatMap
covers trip seat from to x y k = trip == x && seat == y && on_leg k from to

-- The operations on a map.
abbrev pub IsOpen : String → String → Number → Number → SeatMap → Type 0
IsOpen trip seat from to m = (k : ℤ) → Leg k from to → m trip seat k ≡ false

abbrev pub reserve : String → String → Number → Number → SeatMap → SeatMap
reserve trip seat from to m x y k = m x y k || covers trip seat from to x y k

abbrev pub give_back : String → String → Number → Number → SeatMap → SeatMap
give_back trip seat from to m x y k = m x y k && not (covers trip seat from to x y k)
