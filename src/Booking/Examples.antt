-- ===== src/Booking/Examples.antt =====
-- Runs of the booking service on a table with one confirmed booking.
use billing_app_microservice.Prelude.{true, false, none, some, [], ◌∷◌, ◌≡◌, refl, Any, ◌↔◌}
use billing_app_microservice.Prelude.Js.{number, trim, to_upper_case, show_ℕ}
use billing_app_microservice.Effect.{ok}
use billing_app_microservice.Platform.Memory.{memory, locks}
use billing_app_microservice.Booking.Model.{Booking, BookingTable, pending, confirmed, same_id}
use billing_app_microservice.Booking.Segments.{is_blocking, has_segment_conflict}
use billing_app_microservice.Booking.Lock.{acquire_lock, release_lock, release_script}
use billing_app_microservice.Booking.Deadline.{confirm_booking-at_deadline}
use billing_app_microservice.Booking.Repository.{is_active, update_status, booking_of}
use billing_app_microservice.Booking.Service.{
  Env, Draws, new_hold, lock_key, check_availability, check_and_hold, create_hold, confirm_booking,
}
use billing_app_microservice.Booking.Overlap.{Blocks, has_segment_conflict_iff}
use billing_app_microservice.Booking.Hold.{IsNewHold, create_hold-ok}

abbrev table : BookingTable
table = memory (λ b. b.id) same_id

-- A confirmed journey from stop 1 to stop 3, and a hold from 3 to 5 that ends at 900.
abbrev sold : Booking
sold = record {
  id = "0";
  trip_id = "T";
  seat_id = "A1";
  user_id = "U";
  from_stop_seq = number 1;
  to_stop_seq = number 3;
  status = confirmed;
  hold_expires_at = none;
}

abbrev waiting : Booking
waiting = record sold {
  id = "1";
  from_stop_seq = number 3;
  to_stop_seq = number 5;
  status = pending;
  hold_expires_at = some 900;
}

abbrev env : Env
env = record { hold_duration_minutes = 5; lock_ttl_ms = 5000 }

abbrev draws : Draws
draws = record { lock_value = "V"; searched_at = 100; held_at = 101 }

abbrev new : Booking
new = booking_of (new_hold env 101 "T" "A1" "U" (number 3) (number 5)) "1"

has_segment_conflict_iff_example :
    (has_segment_conflict
        (record { from_seq = number 1; to_seq = number 3; status = "CONFIRMED" } ∷ [])
        (number 2)
        (number 4)
      ≡ true)
    ↔ Any
        (Blocks (number 2) (number 4))
        (record { from_seq = number 1; to_seq = number 3; status = "CONFIRMED" } ∷ [])
has_segment_conflict_iff_example =
    has_segment_conflict_iff
      (record { from_seq = number 1; to_seq = number 3; status = "CONFIRMED" } ∷ []) (number 2)
      (number 4) refl (refl, tt)

held :
    create_hold table locks env draws "T" "A1" "U" (number 3) (number 5) (sold ∷ [], [])
    ≡ (ok new, (sold ∷ new ∷ [], []))
unfolding create_hold check_and_hold check_availability has_segment_conflict is_blocking
    to_upper_case acquire_lock release_lock release_script lock_key show_ℕ trim
held = refl

create_hold-ok_example :
    IsNewHold env draws "T" "A1" "U" (number 3) (number 5) (sold ∷ []) (sold ∷ new ∷ []) new
create_hold-ok_example =
    create_hold-ok table locks env draws "T" "A1" "U" (number 3) (number 5) (sold ∷ [], []) held

confirm_booking-at_deadline_example :
    (is_active 900 waiting ≡ false)
    × (confirm_booking table 900 "1" (sold ∷ waiting ∷ [])
        ≡ update_status table "1" confirmed (sold ∷ waiting ∷ []))
confirm_booking-at_deadline_example =
    confirm_booking-at_deadline table 900 "1" (sold ∷ waiting ∷ []) refl refl refl refl
