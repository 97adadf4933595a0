-- ===== src/Booking/Deadline.antt =====
-- The instant at which a hold ends.
use billing_app_microservice.Prelude.{ℕ, String, true, false, some, ◌≡◌, arith, ◌==◌}
use billing_app_microservice.Prelude.Js.{is_empty}
use billing_app_microservice.Effect.{ok}
use billing_app_microservice.Booking.Model.{Booking, BookingTable, confirmed, is_pending}
use billing_app_microservice.Booking.Repository.{is_active, update_status}
use billing_app_microservice.Booking.Service.{confirm_booking}

-- At the very millisecond at which a pending hold ends, it no longer counts as holding its seat, and
-- yet `confirmBooking` goes on to set it to CONFIRMED, if the search for it is answered.
pub confirm_booking-at_deadline :
    (t : BookingTable) (now : ℕ) (id : String) (s : t.Store) {x : Booking}
    → is_empty id ≡ false
    → t.find_first (λ b. b.id == id) s ≡ ok (some x)
    → is_pending x.status ≡ true
    → x.hold_expires_at ≡ some now
    → (is_active now x ≡ false) × (confirm_booking t now id s ≡ update_status t id confirmed s)
unfolding confirm_booking
confirm_booking-at_deadline t now id s {x} named found waiting ends = (ground arith, ground arith)
