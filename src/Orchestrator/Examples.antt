-- ===== src/Orchestrator/Examples.antt =====
-- Runs of the orchestrator against services with fixed answers.
use billing_app_microservice.Prelude.{◌<◌, none, some, [], ◌∷◌, ◌≡◌, ◌⊎◌, refl}
use billing_app_microservice.Prelude.Js.{number}
use billing_app_microservice.Effect.{Result, ok, err, is_ok}
use billing_app_microservice.Utils.Errors.{Error, conflict}
use billing_app_microservice.Booking.Model.{Booking, pending, confirmed}
use billing_app_microservice.Payment.Model.{succeeded}
use billing_app_microservice.Orchestrator.Clients.{
  ChargeResponse, payment_failed, user_cancelled, booking_cancelled,
}
use billing_app_microservice.Orchestrator.Trace.{
  Log, Answers, recorded, hold, confirm, release, charge, publish,
}
use billing_app_microservice.Orchestrator.Service.{
  ConfirmBookingInput, ConfirmBookingResult, hold_request, charge_request, after_hold,
  confirm_booking, cancel_booking,
}
use billing_app_microservice.Orchestrator.Compensation.{
  releases, IsUnheld, WasConfirmed, saga_compensates, paid_without_booking,
}
use billing_app_microservice.Orchestrator.Cancel.{after_refund, cancel_booking-calls}

abbrev booking : Booking
booking = record {
  id = "B";
  trip_id = "T";
  seat_id = "A1";
  user_id = "U";
  from_stop_seq = number 1;
  to_stop_seq = number 3;
  status = pending;
  hold_expires_at = some 900;
}

abbrev response : ChargeResponse
response = record { payment_id = "P"; status = succeeded; failure_reason = none }

abbrev accepting : Answers
accepting = record {
  to_hold = λ log. ok booking;
  to_confirm = λ log. ok (record booking { status = confirmed });
  to_release = λ log. ok booking;
  to_charge = λ log. ok response;
  to_refund = λ log. ok tt;
  to_publish = λ log. ok tt;
}

abbrev too_late : Answers
too_late = record accepting { to_confirm = λ log. err (conflict "Booking hold has expired") }

abbrev input : ConfirmBookingInput
input = record {
  trip_id = "T";
  seat_id = "A1";
  user_id = "U";
  from_stop_seq = number 1;
  to_stop_seq = number 3;
  amount = number 500;
  currency = none;
}

abbrev run_of : Answers → Result ConfirmBookingResult × Log
run_of a = confirm_booking (recorded a) "bookings" input []

saga_compensates_example :
    IsUnheld too_late "bookings" input []
    ⊎ ((h : Booking) × (too_late.to_hold [] ≡ ok h)
        × ((WasConfirmed too_late "bookings" input h.id (hold (hold_request input) ∷ [])
              × (releases h.id (run_of too_late).1 ≡ 0))
            ⊎ (0 < releases h.id (run_of too_late).1)))
saga_compensates_example = saga_compensates too_late "bookings" input []

paid_without_booking_example : after_hold (recorded too_late) "bookings" input "B" [] ≡ (
  err (conflict "Booking hold has expired"),
  release "B" payment_failed ∷ confirm "B" ∷ charge (charge_request input "B") ∷ [],
)
paid_without_booking_example =
    paid_without_booking too_late "bookings" input "B" [] {ch = response} refl refl refl

cancel_booking-calls_example :
    let (r, end) = cancel_booking (recorded accepting) "bookings" "now" "B" (some "P") [] in
    ((b : Booking) × (accepting.to_release (after_refund (some "P") []) ≡ ok b)
      × (end
          ≡ publish (booking_cancelled "B" (some "P") "now")
            ∷ release "B" user_cancelled
            ∷ after_refund (some "P") [])
      × (is_ok r
          ≡ is_ok (accepting.to_publish (release "B" user_cancelled ∷ after_refund (some "P") []))))
    ⊎ ((e : Error) × (accepting.to_release (after_refund (some "P") []) ≡ err e)
        × (r ≡ err e)
        × (end ≡ release "B" user_cancelled ∷ after_refund (some "P") []))
cancel_booking-calls_example =
    cancel_booking-calls accepting "bookings" "now" "B" (some "P") [] refl
