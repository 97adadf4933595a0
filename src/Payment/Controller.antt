-- ===== src/Payment/Controller.antt =====
-- payment-service/src/controllers/payment.controller.ts. A header or a field of the body that is
-- missing is `none`; a field's amount is what `Number` makes of it.
use billing_app_microservice.Prelude.{String, Bool, true, ◌||◌, Option, none, some, if◌then◌else◌}
use billing_app_microservice.Prelude.Js.{Number, number, is_nan, num_le, is_empty, trim}
use billing_app_microservice.Effect.{pure, throw_if, ◌>>=◌, ◌>>◌}
use billing_app_microservice.Utils.Errors.{validation}
use billing_app_microservice.Utils.StatusCode
use billing_app_microservice.Utils.Response.{Response, respond, handle}
use billing_app_microservice.Payment.Model.{Payment, PaymentTable, ChargeDto, ChargeResult}
use billing_app_microservice.Payment.Service.{Gateway, is_blank}
use billing_app_microservice.Payment.Service

pub record ChargeRequest : Type 0 where
  pub idempotency_key : Option String
  pub x_idempotency_key : Option String
  pub x_user_id : Option String
  pub user_id : Option String
  pub booking_id : Option String
  pub amount : Option Number
  pub currency : Option String

-- `a || b`
abbrev pub or_else : Option String → Option String → Option String
or_else none b = b
or_else (some s) b = if is_empty s then b else some s

-- `!s || !s.trim()` on a text that may be missing
abbrev pub is_absent : Option String → Bool
is_absent none = true
is_absent (some s) = is_blank s

abbrev pub text_of : Option String → String
text_of none = ""
text_of (some s) = s

-- `amount === undefined || isNaN(Number(amount)) || Number(amount) <= 0`
abbrev pub is_no_amount : Option Number → Bool
is_no_amount none = true
is_no_amount (some a) = is_nan a || num_le a (number 0)

-- `currency ? String(currency) : undefined`
abbrev pub currency_of : Option String → Option String
currency_of none = none
currency_of (some s) = if is_empty s then none else some s

abbrev pub key_of : ChargeRequest → Option String
key_of req = or_else req.idempotency_key req.x_idempotency_key

abbrev pub user_of : ChargeRequest → Option String
user_of req = or_else req.x_user_id req.user_id

abbrev pub dto_of : ChargeRequest → ChargeDto
dto_of req = record {
  booking_id = text_of req.booking_id;
  user_id = text_of (user_of req);
  amount = req.amount;
  currency = currency_of req.currency;
  idempotency_key = text_of (key_of req);
}

abbrev pub charge_response : ChargeResult → Response ChargeResult
charge_response r =
    if r.is_idempotent_replay
    then respond StatusCode.success r "Existing payment retrieved (idempotent replay)"
    else respond StatusCode.created r
        (if r.success then "Payment processed successfully" else "Payment failed during processing")

module _ (t : PaymentTable) where
  unfoldable pub process_charge :
      Gateway → ChargeRequest → t.Store → Response ChargeResult × t.Store
  process_charge g req = handle (do
    throw_if (is_absent (key_of req))
        (validation "Idempotency-Key header is required for processing a charge")
    throw_if (is_absent (user_of req))
        (validation "User ID is required. Please authenticate via API Gateway.")
    throw_if (is_absent req.booking_id) (validation "Booking ID is required")
    throw_if (is_no_amount req.amount) (validation "Amount must be a positive number")
    r ← Service.charge t g (dto_of req)
    pure (charge_response r))

  unfoldable pub process_refund : String → t.Store → Response Payment × t.Store
  process_refund id = handle (do
    throw_if (is_blank id) (validation "Payment ID is required")
    p ← Service.refund t (trim id)
    pure (respond StatusCode.success p "Payment refunded successfully"))

  unfoldable pub get_payment_by_id : String → t.Store → Response Payment × t.Store
  get_payment_by_id id = handle (do
    throw_if (is_blank id) (validation "Payment ID is required")
    p ← Service.get_payment t (trim id)
    pure (respond StatusCode.success p "Payment retrieved successfully"))
