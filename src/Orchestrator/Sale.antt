-- ===== src/Orchestrator/Sale.antt =====
-- A confirmation that succeeds, down to the rows of the two databases.
use Prim.Native.String.{◌++◌ as ◌<>◌}
use billing_app_microservice.Prelude.{
  ℕ, String, true, some, [], ◌∷◌, ◌++◌, ◌≡◌, refl, sym, ◌∙◌, arith, first, ◌==◌,
}
use billing_app_microservice.Prelude.Js.{trim}
use billing_app_microservice.Effect.{ok}
use billing_app_microservice.Platform.Redis.{Redis}
use billing_app_microservice.Platform.Table.{write}
use billing_app_microservice.Booking.Model.{Booking, BookingTable, confirmed}
use billing_app_microservice.Booking.Repository.{booking_of, set_status}
use billing_app_microservice.Booking.Service.{Env, new_hold}
use billing_app_microservice.Booking.Overlap.{IsJourney}
use billing_app_microservice.Booking.Availability.{IsFree}
use billing_app_microservice.Payment.Model.{
  Payment, PaymentTable, PaymentStatus, is_succeeded, succeeded,
}
use billing_app_microservice.Orchestrator.Service.{
  ConfirmBookingInput, ConfirmBookingResult, hold_request, charge_request, confirm_booking,
}
use billing_app_microservice.Orchestrator.Success.{success-IsSaga, sold_event}
use billing_app_microservice.Orchestrator.Wired.{Axios, World, begin, wired}
use billing_app_microservice.Orchestrator.Calls.{
  hold-done, confirm-done, charge_call-done, publish-done,
}

status_of : (s : PaymentStatus) → is_succeeded s ≡ true → s ≡ succeeded
status_of s e = ground arith

-- What a sale has left behind: `at` is the time of the hold.
pub record IsSale (t : BookingTable) (r : Redis) (p : PaymentTable) (env : Env) (topic : String)
    (input : ConfirmBookingInput) (before after : World t r p) : Type 0 where
  pub at : ℕ
  pub free :
      IsFree at input.trip_id input.seat_id input.from_stop_seq input.to_stop_seq
        (t.rows before.bookings)
  pub forwards : IsJourney input.from_stop_seq input.to_stop_seq
  pub hold : Booking
  pub id : String
  pub row :
      hold
      ≡ booking_of
          (new_hold env at input.trip_id input.seat_id input.user_id input.from_stop_seq
            input.to_stop_seq)
          id
  pub sold :
      t.rows after.bookings
      ≡ write (λ b. b.id) hold.id (set_status confirmed) (t.rows before.bookings ++ hold ∷ [])
  pub payment : Payment
  pub stored :
      first (λ y. y.idempotency_key == trim ("booking-" <> hold.id)) (p.rows after.payments)
      ≡ some payment
  pub paid : payment.status ≡ succeeded

-- A confirmation that succeeds, with the two services behind the HTTP clients, has sold the seat: at
-- the time of the hold no row held it for an overlapping journey; the table of bookings has gained
-- one row, with the caller's data, which is CONFIRMED; and the table of payments has a payment that
-- succeeded, under the key of that booking. This is so for every delay and every lost call.
pub confirm_booking-IsSale :
    (t : BookingTable) (r : Redis) (p : PaymentTable) (axios : Axios) (env : Env) (rate : ℕ)
    (topic : String) (input : ConfirmBookingInput) (before after : World t r p)
    {x : ConfirmBookingResult}
    → confirm_booking (wired t r p axios env rate) topic input before ≡ (ok x, after)
    → x.success ≡ true
    → IsSale t r p env topic input before after
confirm_booking-IsSale t r p axios env rate topic input before after e good =
    let saga = success-IsSaga (wired t r p axios env rate) topic input before after e good in
    let (new, _) = hold-done t r p axios env (hold_request input) before saga.hold_call in
    let (y, there, status, same) =
      charge_call-done t r p axios env rate (charge_request input saga.hold.id) saga.held
        saga.charge_call in
    let (sold, kept) = confirm-done t r p axios env saga.hold.id saga.paid saga.confirm_call in
    let (rows, payments) =
      publish-done t r p axios env rate topic
        (sold_event (wired t r p axios env rate) topic input saga.hold.id saga.charged)
        saga.confirmed saga.publish_call in
    record {
      at = (begin t r p before).now;
      free = new.free;
      forwards = new.forwards;
      hold = saga.hold;
      id = new.id;
      row = new.row;
      sold = rw (rows, sold.stored, same, new.stored) refl;
      payment = y;
      stored = rw (payments, kept) there;
      paid = sym status ∙ status_of saga.charged.status saga.accepted;
    }
