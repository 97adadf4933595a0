-- ===== src/Payment/Service.antt =====
-- payment-service/src/services/payment.service.ts, `PaymentService`
use Prim.Native.String.{◌++◌}
use billing_app_microservice.Prelude.{
  ℕ, String, Bool, true, false, not, ◌||◌, Option, none, some, ltb, if◌then◌else◌,
}
use billing_app_microservice.Prelude.Js.{Number, number, num_le, is_empty, trim}
use billing_app_microservice.Effect.{Action, pure, throw_if, or_throw, ◌>>=◌, ◌>>◌}
use billing_app_microservice.Utils.Errors.{validation, not_found, conflict}
use billing_app_microservice.Payment.Model.{
  Payment, succeeded, failed, refunded, status_name, is_succeeded, is_refunded, PaymentTable,
  ChargeDto, ChargeResult,
}
use billing_app_microservice.Payment.Repository.{
  NewPayment, find_by_idempotency_key, create_payment, find_by_id, update_status,
}

-- The source of the simulated outcome: what the simulator answers, if there is one; and one reading
-- of `Math.random()` with the configured rate, both in the same unit.
pub record Gateway : Type 0 where
  pub simulator : Option Bool
  pub random : ℕ
  pub success_rate : ℕ

unfoldable pub simulate_charge_outcome : Gateway → Bool
simulate_charge_outcome g = elim g.simulator [ some b ↦ b | none ↦ ltb g.random g.success_rate ]

-- `!s || !s.trim()`
abbrev pub is_blank : String → Bool
is_blank s = is_empty s || is_empty (trim s)

abbrev pub or_text : String → String → String
or_text s d = if is_empty s then d else s

-- `dto.currency?.trim() || "INR"`
abbrev pub currency_or_inr : Option String → String
currency_or_inr none = "INR"
currency_or_inr (some c) = or_text (trim c) "INR"

-- `amount === undefined || Number(amount) <= 0`
abbrev pub is_bad_amount : Option Number → Bool
is_bad_amount none = true
is_bad_amount (some a) = num_le a (number 0)

abbrev amount_or : Option Number → Number
amount_or none = number 0
amount_or (some a) = a

abbrev pub replay_of : Payment → ChargeResult
replay_of p = record {
  success = is_succeeded p.status;
  payment_id = p.id;
  status = p.status;
  failure_reason = p.failure_reason;
  payment = p;
  is_idempotent_replay = true;
}

abbrev pub new_payment : ChargeDto → Bool → NewPayment
new_payment dto is_success = record {
  booking_id = trim dto.booking_id;
  user_id = trim dto.user_id;
  amount = amount_or dto.amount;
  currency = currency_or_inr dto.currency;
  status = if is_success then succeeded else failed;
  idempotency_key = trim dto.idempotency_key;
  failure_reason =
      if is_success then none else some "Card declined or insufficient funds (simulated)";
}

abbrev pub result_of : Bool → Payment → ChargeResult
result_of is_success p = record {
  success = is_succeeded (if is_success then succeeded else failed);
  payment_id = p.id;
  status = p.status;
  failure_reason = p.failure_reason;
  payment = p;
  is_idempotent_replay = false;
}

module _ (t : PaymentTable) where
  unfoldable pub process_new : Gateway → ChargeDto → Action t.Store ChargeResult
  process_new g dto = do
    let is_success = simulate_charge_outcome g
    created ← create_payment t (new_payment dto is_success)
    pure (result_of is_success created)

  unfoldable pub charge : Gateway → ChargeDto → Action t.Store ChargeResult
  charge g dto = do
    throw_if (is_blank dto.booking_id) (validation "Booking ID is required")
    throw_if (is_blank dto.user_id) (validation "User ID is required")
    throw_if (is_bad_amount dto.amount) (validation "Amount must be a positive number")
    throw_if (is_blank dto.idempotency_key) (validation "Idempotency key is required")
    existing ← find_by_idempotency_key t (trim dto.idempotency_key)
    elim existing [ some p ↦ pure (replay_of p) | none ↦ process_new g dto ]

  unfoldable pub get_payment : String → Action t.Store Payment
  get_payment payment_id = do
    throw_if (is_blank payment_id) (validation "Payment ID is required")
    found ← find_by_id t (trim payment_id)
    or_throw found (not_found ("Payment with ID '" ++ payment_id ++ "' not found"))

  unfoldable pub refund : String → Action t.Store Payment
  refund payment_id = do
    throw_if (is_blank payment_id) (validation "Payment ID is required")
    found ← find_by_id t (trim payment_id)
    payment ← or_throw found (not_found ("Payment with ID '" ++ payment_id ++ "' not found"))
    throw_if (is_refunded payment.status) (conflict "Payment has already been refunded")
    throw_if (not (is_succeeded payment.status)) (
        validation (
          "Cannot refund a payment that never succeeded (current status: "
          ++ status_name payment.status
          ++ ")"))
    update_status t payment.id refunded none
