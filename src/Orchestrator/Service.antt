-- ===== src/Orchestrator/Service.antt =====
-- booking-orchestrator/src/services/bookingOrchestrator.service.ts
use Prim.Native.String.{◌++◌}
use billing_app_microservice.Prelude.{
  String, Bool, true, false, ◌||◌, Option, none, some, if◌then◌else◌,
}
use billing_app_microservice.Prelude.Js.{Number, number, num_le, is_empty, text_or}
use billing_app_microservice.Effect.{Action, ok, err, pure, throw_if, catch, ◌>>=◌, ◌>>◌}
use billing_app_microservice.Utils.Errors.{Error, validation}
use billing_app_microservice.Booking.Model.{Booking}
use billing_app_microservice.Payment.Model.{is_succeeded}
use billing_app_microservice.Orchestrator.Clients.{
  Clients, HoldRequest, ChargeRequest, ChargeResponse, payment_failed, user_cancelled,
  booking_confirmed, booking_failed, booking_cancelled,
}

pub record ConfirmBookingInput : Type 0 where
  pub trip_id : String
  pub seat_id : String
  pub user_id : String
  pub from_stop_seq : Number
  pub to_stop_seq : Number
  pub amount : Number
  pub currency : Option String

pub record ConfirmBookingResult : Type 0 where
  pub success : Bool
  pub booking : Option Booking
  pub payment : Option ChargeResponse
  pub failure_reason : Option String

pub record CancelBookingResult : Type 0 where
  pub success : Bool
  pub booking_id : String
  pub message : String

abbrev pub hold_request : ConfirmBookingInput → HoldRequest
hold_request input = record {
  trip_id = input.trip_id;
  seat_id = input.seat_id;
  user_id = input.user_id;
  from_stop_seq = input.from_stop_seq;
  to_stop_seq = input.to_stop_seq;
}

abbrev pub charge_request : ConfirmBookingInput → String → ChargeRequest
charge_request input booking_id = record {
  booking_id = booking_id;
  user_id = input.user_id;
  amount = input.amount;
  currency = text_or input.currency "INR";
  idempotency_key = "booking-" ++ booking_id;
}

abbrev pub confirmed_result : Booking → ChargeResponse → ConfirmBookingResult
confirmed_result booking charged = record {
  success = true;
  booking = some booking;
  payment = some charged;
  failure_reason = none;
}

abbrev pub declined_result : ChargeResponse → ConfirmBookingResult
declined_result charged = record {
  success = false;
  booking = none;
  payment = some charged;
  failure_reason = some (text_or charged.failure_reason "Payment declined");
}

module _ {W : Type 0} (c : Clients W) (topic : String) where
  -- Inside the `try` the state has the variable `holdConfirmed` beside the world.
  abbrev remote : {A : Type 0} → Action W A → Action (W × Bool) A
  remote m s = let (a, w) = m s.0 in (a, (w, s.1))

  abbrev set_hold_confirmed : Action (W × Bool) (Unit {0})
  set_hold_confirmed s = (ok tt, (s.0, true))

  -- Payment succeeded: confirm the booking and say so.
  abbrev pub on_paid :
      ConfirmBookingInput → String → ChargeResponse → Action (W × Bool) ConfirmBookingResult
  on_paid input booking_id charged = do
    confirmed_booking ← remote (c.confirm_booking booking_id)
    set_hold_confirmed
    remote (
        c.publish topic (
          booking_confirmed booking_id input.user_id input.trip_id input.seat_id input.amount
            (text_or input.currency "INR") charged.payment_id))
    pure (confirmed_result confirmed_booking charged)

  -- Payment failed: release the hold and say so.
  abbrev pub on_declined :
      ConfirmBookingInput → String → ChargeResponse → Action (W × Bool) ConfirmBookingResult
  on_declined input booking_id charged = do
    remote (c.release_booking booking_id payment_failed)
    remote (
        c.publish topic (
          booking_failed booking_id input.user_id
            (text_or charged.failure_reason "Payment declined")))
    pure (declined_result charged)

  -- The body of the `try`: steps 2 and 3.
  unfoldable pub settle : ConfirmBookingInput → String → Action (W × Bool) ConfirmBookingResult
  settle input booking_id = do
    charged ← remote (c.charge (charge_request input booking_id))
    if is_succeeded charged.status
        then on_paid input booking_id charged
        else on_declined input booking_id charged

  -- The `catch`, step 4: release unless the hold was confirmed, ignore how that ends, throw again.
  abbrev pub compensate : {A : Type 0} → String → Error → Action (W × Bool) A
  compensate booking_id e s =
      if s.1
      then (err e, s)
      else (let (_, w) = c.release_booking booking_id payment_failed s.0 in (err e, (w, s.1)))

  unfoldable pub after_hold : ConfirmBookingInput → String → Action W ConfirmBookingResult
  unfolding settle
  after_hold input booking_id w =
      let (r, s) = catch (settle input booking_id) (compensate booking_id) (w, false) in (r, s.0)

  unfoldable pub confirm_booking : ConfirmBookingInput → Action W ConfirmBookingResult
  unfolding after_hold
  confirm_booking input = do
    throw_if (is_empty input.trip_id || is_empty input.seat_id || is_empty input.user_id)
        (validation "tripId, seatId, and userId are required")
    throw_if (num_le input.to_stop_seq input.from_stop_seq)
        (validation "fromStopSeq and toStopSeq must be valid numbers with fromStopSeq < toStopSeq")
    throw_if (num_le input.amount (number 0)) (validation "amount must be a positive number")
    hold ← c.create_hold (hold_request input)
    after_hold input hold.id

  -- `try { refund } catch { warn }`, if a payment id was given.
  abbrev pub refund_if_paid : Option String → Action W (Unit {0})
  refund_if_paid none = pure tt
  refund_if_paid (some payment_id) =
      if is_empty payment_id then pure tt else catch (c.refund payment_id) (λ e. pure tt)

  -- `timestamp` is `new Date().toISOString()`.
  unfoldable pub cancel_booking : String → String → Option String → Action W CancelBookingResult
  cancel_booking timestamp booking_id payment_id = do
    throw_if (is_empty booking_id) (validation "bookingId is required for cancellation")
    refund_if_paid payment_id
    c.release_booking booking_id user_cancelled
    c.publish topic (booking_cancelled booking_id payment_id timestamp)
    pure (record {
      success = true;
      booking_id = booking_id;
      message = "Booking cancelled and released successfully";
    })
