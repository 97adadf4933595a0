-- ===== src/Orchestrator/Cancel.antt =====
-- Cancelling a booking, against services that answer anything.
use billing_app_microservice.Prelude.{
  String, false, Option, none, some, ◌∷◌, ◌≡◌, ◌⊎◌, arith, inl, inr, if◌then◌else◌,
}
use billing_app_microservice.Prelude.Js.{is_empty}
use billing_app_microservice.Effect.{is_ok, ok, err, Result-cases}
use billing_app_microservice.Utils.Errors.{Error}
use billing_app_microservice.Booking.Model.{Booking}
use billing_app_microservice.Orchestrator.Clients.{user_cancelled, booking_cancelled}
use billing_app_microservice.Orchestrator.Trace.{release, refund, publish, Log, Answers, recorded}
use billing_app_microservice.Orchestrator.Service.{cancel_booking}

-- The log after the refund step.
abbrev pub after_refund : Option String → Log → Log
after_refund none log = log
after_refund (some payment_id) log = if is_empty payment_id then log else refund payment_id ∷ log

-- A cancellation asks for the refund first, if it was given a payment id, then for the release,
-- whatever the refund's answer was, then it publishes if the release was accepted; it succeeds
-- exactly when the release and the publication were accepted.
pub cancel_booking-calls :
    (a : Answers) (topic now id : String) (payment : Option String) (log : Log)
    → is_empty id ≡ false
    → let (r, end) = cancel_booking (recorded a) topic now id payment log in
      ((b : Booking) × (a.to_release (after_refund payment log) ≡ ok b)
        × (end
            ≡ publish (booking_cancelled id payment now)
              ∷ release id user_cancelled
              ∷ after_refund payment log)
        × (is_ok r ≡ is_ok (a.to_publish (release id user_cancelled ∷ after_refund payment log))))
      ⊎ ((e : Error) × (a.to_release (after_refund payment log) ≡ err e)
          × (r ≡ err e)
          × (end ≡ release id user_cancelled ∷ after_refund payment log))
unfolding cancel_booking
cancel_booking-calls a topic now id payment log given =
    elim (Result-cases (a.to_release (after_refund payment log))) [
      | inl (b, done) ↦ inl (b, done, ground arith, ground arith)
      | inr (e, refused) ↦ inr (e, refused, ground arith, ground arith)
    ]
