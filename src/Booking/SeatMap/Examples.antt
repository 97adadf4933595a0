-- ===== src/Booking/SeatMap/Examples.antt =====
-- Runs of the booking service, seen on the seat map.
use billing_app_microservice.Prelude.{
  String, none, some, [], ◌∷◌, ◌≡◌, refl, arith, eq_iff, if◌then◌else◌,
}
use billing_app_microservice.Prelude.Int.{ℤ, pos}
use billing_app_microservice.Prelude.Js.{number, trim, to_upper_case, show_ℕ}
use billing_app_microservice.Effect.{ok}
use billing_app_microservice.Platform.Memory.{memory, locks}
use billing_app_microservice.Platform.Table.{find}
use billing_app_microservice.Booking.Model.{
  Booking, BookingTable, pending, confirmed, cancelled, same_id,
}
use billing_app_microservice.Booking.Segments.{is_blocking, has_segment_conflict}
use billing_app_microservice.Booking.Lock.{acquire_lock, release_lock, release_script}
use billing_app_microservice.Booking.Repository.{booking_of, set_status, is_active}
use billing_app_microservice.Booking.Service.{
  Env, Draws, new_hold, lock_key, check_availability, check_and_hold, create_hold, confirm_booking,
  release_booking,
}
use billing_app_microservice.Booking.Exclusive.{IsExclusive, meets}
use billing_app_microservice.Booking.SeatMap.{seat_map, reserve, give_back}
use billing_app_microservice.Booking.SeatMap.Refine.{
  IsReserved, create_hold-reserves, confirm_booking-reserves, release_booking-gives_back,
}

abbrev table : BookingTable
table = memory (λ b. b.id) same_id

-- A confirmed journey from stop 1 to stop 3, and a hold from 3 to 5 that ends at 900.
abbrev sold : Booking
sold = record {
  id = "0";
  trip_id = "T";
  seat_id = "A1";
  user_id = "U";
  from_stop_seq = number 1;
  to_stop_seq = number 3;
  status = confirmed;
  hold_expires_at = none;
}

abbrev waiting : Booking
waiting = record sold {
  id = "1";
  from_stop_seq = number 3;
  to_stop_seq = number 5;
  status = pending;
  hold_expires_at = some 900;
}

abbrev env : Env
env = record { hold_duration_minutes = 5; lock_ttl_ms = 5000 }

abbrev draws : Draws
draws = record { lock_value = "V"; searched_at = 100; held_at = 101 }

abbrev new : Booking
new = booking_of (new_hold env 101 "T" "A1" "U" (number 3) (number 5)) "1"

two-IsExclusive : IsExclusive 100 (sold ∷ waiting ∷ [])
unfolding meets
two-IsExclusive =
    ((record { other_id = ground (arith, eq_iff "0" "1"); apart = refl }, tt), (tt, tt))

held :
    create_hold table locks env draws "T" "A1" "U" (number 3) (number 5) (sold ∷ [], [])
    ≡ (ok new, (sold ∷ new ∷ [], []))
unfolding create_hold check_and_hold check_availability has_segment_conflict is_blocking
    to_upper_case acquire_lock release_lock release_script lock_key show_ℕ trim
held = refl

create_hold-reserves_example :
    IsReserved env draws "T" "A1" (number 3) (number 5) (sold ∷ []) (sold ∷ new ∷ [])
create_hold-reserves_example =
    create_hold-reserves table locks env draws "T" "A1" "U" (number 3) (number 5) (sold ∷ [], [])
      held

taken_over :
    confirm_booking table 100 "1" (sold ∷ waiting ∷ [])
    ≡ (ok (set_status confirmed waiting), sold ∷ set_status confirmed waiting ∷ [])
unfolding confirm_booking
taken_over = refl

-- After the end of the hold, too.
confirm_booking-reserves_example :
    seat_map 1000 (sold ∷ set_status confirmed waiting ∷ []) "T" "A1" (pos 4)
    ≡ reserve "T" "A1" (number 3) (number 5) (seat_map 1000 (sold ∷ waiting ∷ [])) "T" "A1" (pos 4)
confirm_booking-reserves_example =
    confirm_booking-reserves table 100 "1" (sold ∷ waiting ∷ []) two-IsExclusive taken_over 1000 "T"
      "A1" (pos 4)

released :
    release_booking table "1" (some "USER_CANCELLED") (sold ∷ waiting ∷ [])
    ≡ (ok (set_status cancelled waiting), sold ∷ set_status cancelled waiting ∷ [])
unfolding release_booking
released = refl

release_booking-gives_back_example :
    (was : Booking) × (find (λ z. z.id) "1" (sold ∷ waiting ∷ []) ≡ some was)
    × ((x y : String) (k : ℤ)
        → seat_map 100 (sold ∷ set_status cancelled waiting ∷ []) x y k ≡ (
            if is_active 100 was
            then give_back "T" "A1" (number 3) (number 5) (seat_map 100 (sold ∷ waiting ∷ [])) x y k
            else seat_map 100 (sold ∷ waiting ∷ []) x y k))
release_booking-gives_back_example =
    release_booking-gives_back table 100 "1" (some "USER_CANCELLED") (sold ∷ waiting ∷ [])
      two-IsExclusive released
