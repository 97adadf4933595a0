-- ===== src/Orchestrator/Saga.antt =====
-- How the steps after a hold can end, against services that answer anything.
use billing_app_microservice.Prelude.{String, true, false, ◌∷◌, ◌≡◌, arith, inl, inr, Bool-cases}
use billing_app_microservice.Prelude.Js.{text_or}
use billing_app_microservice.Effect.{Result, ok, err, Result-cases}
use billing_app_microservice.Utils.Errors.{Error}
use billing_app_microservice.Booking.Model.{Booking}
use billing_app_microservice.Payment.Model.{is_succeeded}
use billing_app_microservice.Orchestrator.Clients.{
  ChargeResponse, Event, payment_failed, booking_confirmed, booking_failed,
}
use billing_app_microservice.Orchestrator.Trace.{
  confirm, release, charge, publish, Log, Answers, recorded,
}
use billing_app_microservice.Orchestrator.Service.{
  ConfirmBookingInput, ConfirmBookingResult, charge_request, confirmed_result, declined_result,
  after_hold,
}

module _ (a : Answers) (topic : String) (input : ConfirmBookingInput) (id : String)
    (log : Log) where
  abbrev pub charged_log : Log
  charged_log = charge (charge_request input id) ∷ log

  abbrev pub confirmed_event : ChargeResponse → Event
  confirmed_event ch =
      booking_confirmed id input.user_id input.trip_id input.seat_id input.amount
        (text_or input.currency "INR") ch.payment_id

  abbrev pub failed_event : ChargeResponse → Event
  failed_event ch = booking_failed id input.user_id (text_or ch.failure_reason "Payment declined")

  abbrev freed : Log → Log
  freed l = release id payment_failed ∷ l

  -- The seven endings: the answers that lead to each, the outcome, and the calls made.
  pub data Ending (r : Result ConfirmBookingResult) (end : Log) : Type 0 where
    paid :
        (ch : ChargeResponse) (b : Booking)
        → a.to_charge log ≡ ok ch
        → is_succeeded ch.status ≡ true
        → a.to_confirm charged_log ≡ ok b
        → r ≡ ok (confirmed_result b ch)
        → end ≡ publish (confirmed_event ch) ∷ confirm id ∷ charged_log
        → Ending r end
    paid_unpublished :
        (ch : ChargeResponse) (b : Booking) (e : Error)
        → a.to_charge log ≡ ok ch
        → is_succeeded ch.status ≡ true
        → a.to_confirm charged_log ≡ ok b
        → r ≡ err e
        → end ≡ publish (confirmed_event ch) ∷ confirm id ∷ charged_log
        → Ending r end
    paid_unconfirmed :
        (ch : ChargeResponse) (e : Error)
        → a.to_charge log ≡ ok ch
        → is_succeeded ch.status ≡ true
        → a.to_confirm charged_log ≡ err e
        → r ≡ err e
        → end ≡ freed (confirm id ∷ charged_log)
        → Ending r end
    declined :
        (ch : ChargeResponse)
        → a.to_charge log ≡ ok ch
        → is_succeeded ch.status ≡ false
        → r ≡ ok (declined_result ch)
        → end ≡ publish (failed_event ch) ∷ freed charged_log
        → Ending r end
    declined_unpublished :
        (ch : ChargeResponse) (e : Error)
        → a.to_charge log ≡ ok ch
        → is_succeeded ch.status ≡ false
        → r ≡ err e
        → end ≡ freed (publish (failed_event ch) ∷ freed charged_log)
        → Ending r end
    declined_unreleased :
        (ch : ChargeResponse) (e : Error)
        → a.to_charge log ≡ ok ch
        → is_succeeded ch.status ≡ false
        → r ≡ err e
        → end ≡ freed (freed charged_log)
        → Ending r end
    uncharged :
        (e : Error) → a.to_charge log ≡ err e → r ≡ err e → end ≡ freed charged_log → Ending r end

  abbrev outcome : Result ConfirmBookingResult × Log
  outcome = after_hold (recorded a) topic input id log

  paid-Ending :
      (ch : ChargeResponse)
      → a.to_charge log ≡ ok ch
      → is_succeeded ch.status ≡ true
      → Ending outcome.0 outcome.1
  unfolding after_hold
  paid-Ending ch c s = elim (Result-cases (a.to_confirm charged_log)) [
    | inl (b, k) ↦ elim (Result-cases (a.to_publish (confirm id ∷ charged_log))) [
      | inl (u, p) ↦ paid ch b c s k (ground arith) (ground arith)
      | inr (e, p) ↦ paid_unpublished ch b e c s k (ground arith) (ground arith)
    ]
    | inr (e, k) ↦ paid_unconfirmed ch e c s k (ground arith) (ground arith)
  ]

  declined-Ending :
      (ch : ChargeResponse)
      → a.to_charge log ≡ ok ch
      → is_succeeded ch.status ≡ false
      → Ending outcome.0 outcome.1
  unfolding after_hold
  declined-Ending ch c s = elim (Result-cases (a.to_release charged_log)) [
    | inl (b, k) ↦ elim (Result-cases (a.to_publish (freed charged_log))) [
      | inl (u, p) ↦ declined ch c s (ground arith) (ground arith)
      | inr (e, p) ↦ declined_unpublished ch e c s (ground arith) (ground arith)
    ]
    | inr (e, k) ↦ declined_unreleased ch e c s (ground arith) (ground arith)
  ]

  -- Every run of the steps after a hold ends in one of these ways.
  pub after_hold-Ending : Ending outcome.0 outcome.1
  unfolding after_hold
  after_hold-Ending = elim (Result-cases (a.to_charge log)) [
    | inl (ch, c) ↦ elim (Bool-cases (is_succeeded ch.status)) [
      | inl s ↦ paid-Ending ch c s
      | inr s ↦ declined-Ending ch c s
    ]
    | inr (e, c) ↦ uncharged e c (ground arith) (ground arith)
  ]
