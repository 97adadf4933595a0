-- ===== src/Orchestrator/Controller.antt =====
-- booking-orchestrator/src/controllers/bookingOrchestrator.controller.ts. `parseFloat` is an
-- argument.
use billing_app_microservice.Prelude.{String, Option, none, some, if◌then◌else◌}
use billing_app_microservice.Prelude.Js.{text_or, Number, nan, is_empty, is_missing}
use billing_app_microservice.Prelude.ParseInt.{Field, a_number, a_text, left_out, number_or_parsed}
use billing_app_microservice.Effect.{pure, throw_if, ◌>>=◌, ◌>>◌}
use billing_app_microservice.Utils.Errors.{validation}
use billing_app_microservice.Utils.StatusCode
use billing_app_microservice.Utils.Response.{Response, respond, respond_fields, handle}
use billing_app_microservice.Orchestrator.Clients.{Clients}
use billing_app_microservice.Orchestrator.Service.{
  ConfirmBookingInput, ConfirmBookingResult, CancelBookingResult,
}
use billing_app_microservice.Orchestrator.Service

pub record SagaBody : Type 0 where
  pub trip_id : String
  pub seat_id : String
  pub from_stop_seq : Field
  pub to_stop_seq : Field
  pub amount : Field
  pub currency : Option String
  pub user_id : Option String

-- `header || body.userId`
abbrev pub user_of : Option String → Option String → Option String
user_of none body = body
user_of (some s) body = if is_empty s then body else some s

-- `typeof amount === "number" ? amount : parseFloat(amount)`
abbrev pub amount_of : (String → Number) → Field → Number
amount_of parse_float (a_number n) = n
amount_of parse_float (a_text s) = parse_float s
amount_of parse_float left_out = nan

abbrev pub input_of : (String → Number) → String → SagaBody → ConfirmBookingInput
input_of parse_float user body = record {
  trip_id = body.trip_id;
  seat_id = body.seat_id;
  user_id = user;
  from_stop_seq = number_or_parsed body.from_stop_seq;
  to_stop_seq = number_or_parsed body.to_stop_seq;
  amount = amount_of parse_float body.amount;
  currency = body.currency;
}

-- A result that is no success is answered with `AppResponse.error`, which does not read `data`.
abbrev pub saga_response : ConfirmBookingResult → Response ConfirmBookingResult
saga_response r =
    if r.success
    then respond StatusCode.success r "Booking confirmed and payment processed successfully"
    else respond_fields (some StatusCode.bad_request)
        (text_or r.failure_reason "Payment declined; booking hold released.")

module _ {W : Type 0} (c : Clients W) (topic : String) where
  unfoldable pub confirm_booking_saga :
      (parse_float : String → Number)
      → (x_user_id : Option String) → SagaBody
      → W
      → Response ConfirmBookingResult × W
  confirm_booking_saga parse_float x_user_id body = handle (do
    throw_if (is_missing (user_of x_user_id body.user_id))
        (validation "User ID is required. Please authenticate via API Gateway.")
    r ←
        Service.confirm_booking c topic
          (input_of parse_float (text_or (user_of x_user_id body.user_id) "") body)
    pure (saga_response r))

  unfoldable pub cancel_booking_saga :
      (timestamp booking_id : String)
      → (payment_id : Option String) → W
      → Response CancelBookingResult × W
  cancel_booking_saga timestamp booking_id payment_id = handle (do
    r ← Service.cancel_booking c topic timestamp booking_id payment_id
    pure (respond StatusCode.success r r.message))
