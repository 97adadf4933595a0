-- ===== src/Orchestrator/Program.antt =====
-- booking-orchestrator/src/services/bookingOrchestrator.service.ts once more, as programs that stop
-- at each `await` for the answer of a service: the form in which sagas can be interleaved.
pub mod Runs
pub mod Bounds
use billing_app_microservice.Prelude.{String, Option, none, some, ◌||◌, if◌then◌else◌, Bool, true}
use billing_app_microservice.Prelude.Js.{text_or, number, num_le, is_empty}
use billing_app_microservice.Effect.{Result, ok, err, Action}
use billing_app_microservice.Utils.Errors.{Error, validation}
use billing_app_microservice.Booking.Model.{Booking}
use billing_app_microservice.Payment.Model.{is_succeeded}
use billing_app_microservice.Orchestrator.Clients.{
  Clients, ChargeResponse, payment_failed, user_cancelled, booking_confirmed, booking_failed,
  booking_cancelled,
}
use billing_app_microservice.Orchestrator.Trace.{
  Call, hold, confirm, release, charge, refund, publish,
}
use billing_app_microservice.Orchestrator.Service.{
  ConfirmBookingInput, ConfirmBookingResult, CancelBookingResult, hold_request, charge_request,
  confirmed_result, declined_result,
}

-- The value that a call resolves to.
abbrev pub Answer : Call → Type 0
Answer (hold q) = Booking
Answer (confirm id) = Booking
Answer (release id reason) = Booking
Answer (charge q) = ChargeResponse
Answer (refund id) = Unit {0}
Answer (publish e) = Unit {0}

pub data Program (A : Type 0) : Type 0 where
  finish : Result A → Program A
  await : (q : Call) → (Result (Answer q) → Program A) → Program A

-- What a program does with the answers of the clients.
module _ {W : Type 0} (c : Clients W) (topic : String) where
  abbrev pub ask : (q : Call) → Action W (Answer q)
  ask (hold q) = c.create_hold q
  ask (confirm id) = c.confirm_booking id
  ask (release id reason) = c.release_booking id reason
  ask (charge q) = c.charge q
  ask (refund id) = c.refund id
  ask (publish e) = c.publish topic e

  unfoldable pub run : {A : Type 0} → Program A → Action W A
  run (finish r) w = (r, w)
  run (await q k) w = let (r, w') = ask q w in run (k r) w'

module _ {A : Type 0} where
  abbrev pub on_answer : {B : Type 0} → (B → Program A) → (Error → Program A) → Result B → Program A
  on_answer k handle (ok b) = k b
  on_answer k handle (err e) = handle e

  abbrev pub rethrow : Error → Program A
  rethrow e = finish (err e)

  -- The `catch` of the saga while the hold is not confirmed.
  abbrev pub undo : String → Error → Program A
  undo id e = await (release id payment_failed) (λ _. rethrow e)

  abbrev pub checked : Bool → Error → Program A → Program A
  checked refused e k = if refused then rethrow e else k

abbrev pub say_confirmed :
    ConfirmBookingInput → String → ChargeResponse → Booking → Program ConfirmBookingResult
say_confirmed input id charged booking =
    await
      (publish (
        booking_confirmed id input.user_id input.trip_id input.seat_id input.amount
          (text_or input.currency "INR") charged.payment_id))
      (on_answer (λ _. finish (ok (confirmed_result booking charged))) rethrow)

abbrev pub say_failed : ConfirmBookingInput → String → ChargeResponse → Program ConfirmBookingResult
say_failed input id charged =
    await
      (publish
        (booking_failed id input.user_id (text_or charged.failure_reason "Payment declined")))
      (on_answer (λ _. finish (ok (declined_result charged))) (undo id))

abbrev pub on_charged : ConfirmBookingInput → String → ChargeResponse → Program ConfirmBookingResult
on_charged input id charged =
    if is_succeeded charged.status
    then await (confirm id) (on_answer (say_confirmed input id charged) (undo id))
    else await (release id payment_failed) (on_answer (λ _. say_failed input id charged) (undo id))

abbrev pub on_held : ConfirmBookingInput → String → Program ConfirmBookingResult
on_held input id =
    await (charge (charge_request input id)) (on_answer (on_charged input id) (undo id))

-- `confirmBooking`
unfoldable pub saga : ConfirmBookingInput → Program ConfirmBookingResult
saga input =
    checked (is_empty input.trip_id || is_empty input.seat_id || is_empty input.user_id)
      (validation "tripId, seatId, and userId are required")
      (checked (num_le input.to_stop_seq input.from_stop_seq)
        (validation "fromStopSeq and toStopSeq must be valid numbers with fromStopSeq < toStopSeq")
        (checked (num_le input.amount (number 0)) (validation "amount must be a positive number")
          (await (hold (hold_request input)) (on_answer (λ h. on_held input h.id) rethrow))))

abbrev pub say_cancelled : String → String → Option String → Program CancelBookingResult
say_cancelled timestamp id payment = await (release id user_cancelled) (
    on_answer
      (λ _. await (publish (booking_cancelled id payment timestamp)) (
        on_answer
          (λ _. finish (
            ok (record {
              success = true;
              booking_id = id;
              message = "Booking cancelled and released successfully";
            })))
          rethrow))
      rethrow)

abbrev pub with_refund : {A : Type 0} → Option String → Program A → Program A
with_refund none k = k
with_refund (some payment) k = if is_empty payment then k else await (refund payment) (λ _. k)

-- `cancelBooking`
unfoldable pub cancellation : String → String → Option String → Program CancelBookingResult
cancellation timestamp id payment =
    checked (is_empty id) (validation "bookingId is required for cancellation")
      (with_refund payment (say_cancelled timestamp id payment))
