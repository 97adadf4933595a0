-- ===== src/Orchestrator/Refusals.antt =====
-- Runs of the orchestrator with the two services behind it in which the payment is declined, or the
-- answer of the charge is lost.
use billing_app_microservice.Prelude.{false, true, some, ◌≡◌, refl}
use billing_app_microservice.Prelude.Js.{number, trim, to_upper_case, show_ℕ}
use billing_app_microservice.Prelude.ParseInt.{number_or_parsed}
use billing_app_microservice.Effect.{ok, err}
use billing_app_microservice.Utils.Errors.{plain}
use billing_app_microservice.Utils.Response.{respond, respond_error}
use billing_app_microservice.Platform.Memory.{locks}
use billing_app_microservice.Booking.Model.{Booking}
use billing_app_microservice.Booking.Segments.{is_blocking, has_segment_conflict}
use billing_app_microservice.Booking.Lock.{acquire_lock, release_lock, release_script}
use billing_app_microservice.Booking.Repository.{booking_of}
use billing_app_microservice.Booking.Service.{
  new_hold, lock_key, check_availability, check_and_hold,
}
use billing_app_microservice.Booking.Service as BookingService
use billing_app_microservice.Booking.Controller as BookingHandlers
use billing_app_microservice.Payment.Model.{Payment}
use billing_app_microservice.Payment.Kept.{IsKeyPaid}
use billing_app_microservice.Payment.Repository.{payment_of}
use billing_app_microservice.Payment.Service.{
  charge, process_new, simulate_charge_outcome, new_payment, result_of,
}
use billing_app_microservice.Payment.Controller.{dto_of, process_charge}
use billing_app_microservice.Orchestrator.Clients.{Clients, payment_failed}
use billing_app_microservice.Orchestrator.Service.{
  ConfirmBookingResult, hold_request, charge_request, declined_result, settle, after_hold,
  confirm_booking,
}
use billing_app_microservice.Orchestrator.Wired.{
  World, fair, lost_answer, next_turn, charge_body, charge_answer, wired,
}
use billing_app_microservice.Orchestrator.Undone.{IsUndone, confirm_booking-IsUndone}
use billing_app_microservice.Orchestrator.Paid.{paid_key}
use billing_app_microservice.Orchestrator.Lost.{charged, confirm_booking-lost_charge}
use billing_app_microservice.Orchestrator.Sample.{axios, bookings, payments, env, input, starting}

abbrev clients : Clients (World bookings locks payments)
clients = wired bookings locks payments axios env 9

-- The charge is declined.
abbrev declined : World bookings locks payments
declined = starting fair 9

abbrev declined_end : World bookings locks payments
declined_end = (confirm_booking clients "booking-events" input declined).1

abbrev declined_payment : Payment
declined_payment =
    payment_of
      (new_payment (dto_of (charge_body bookings locks payments (charge_request input "0"))) false)
      "0"

abbrev declined_answer : ConfirmBookingResult
declined_answer =
    declined_result (charge_answer bookings locks payments (result_of false declined_payment))

run_declined :
    confirm_booking clients "booking-events" input declined ≡ (ok declined_answer, declined_end)
unfolding confirm_booking after_hold settle BookingHandlers.create_hold
    BookingHandlers.release_booking BookingService.create_hold BookingService.release_booking
    check_and_hold check_availability has_segment_conflict is_blocking to_upper_case acquire_lock
    release_lock release_script lock_key show_ℕ trim respond respond_error number_or_parsed
    process_charge charge process_new simulate_charge_outcome
run_declined = refl

confirm_booking-IsUndone_example : IsUndone bookings locks payments declined declined_end
confirm_booking-IsUndone_example =
    confirm_booking-IsUndone bookings locks payments axios env 9 "booking-events" input declined
      declined_end run_declined refl

-- The charge is made, and its answer is lost.
abbrev lost : World bookings locks payments
lost = starting lost_answer 3

abbrev held : World bookings locks payments
held = (clients.create_hold (hold_request input) lost).1

abbrev hold : Booking
hold = booking_of (new_hold env 101 "T" "A1" "U" (number 3) (number 5)) "0"

run_held : clients.create_hold (hold_request input) lost ≡ (ok hold, held)
unfolding BookingHandlers.create_hold BookingService.create_hold check_and_hold check_availability
    has_segment_conflict is_blocking to_upper_case acquire_lock release_lock release_script lock_key
    show_ℕ trim respond respond_error number_or_parsed
run_held = refl

abbrev payment : Payment
payment =
    payment_of
      (new_payment (dto_of (charge_body bookings locks payments (charge_request input "0"))) true)
      "0"

run_charged :
    (charged bookings locks payments axios env 9 "booking-events" input "0" held).0.body
    ≡ some (result_of true payment)
unfolding BookingHandlers.create_hold BookingService.create_hold check_and_hold check_availability
    has_segment_conflict is_blocking to_upper_case acquire_lock release_lock release_script lock_key
    show_ℕ trim respond respond_error number_or_parsed process_charge charge process_new
    simulate_charge_outcome
run_charged = refl

meets_lost : (next_turn bookings locks payments held.turns).weather ≡ lost_answer
meets_lost = refl

confirm_booking-lost_charge_example :
    let (outcome, end) = confirm_booking clients "booking-events" input lost in
    (outcome ≡ err (plain "timeout of 5000ms exceeded"))
    × (end
        ≡ (clients.release_booking "0" payment_failed
            (charged bookings locks payments axios env 9 "booking-events" input "0" held).1).1)
    × IsKeyPaid (paid_key "0") (payments.rows end.payments)
confirm_booking-lost_charge_example =
    confirm_booking-lost_charge bookings locks payments axios env 9 "booking-events" input lost held
      refl refl refl run_held meets_lost run_charged refl
