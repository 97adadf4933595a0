-- ===== src/Payment/Repository.antt =====
-- payment-service/src/repositories/payment.repository.ts
use billing_app_microservice.Prelude.{String, Option, none, some, ◌==◌}
use billing_app_microservice.Prelude.Js.{Number}
use billing_app_microservice.Effect.{Action}
use billing_app_microservice.Platform.Table.{query}
use billing_app_microservice.Payment.Model.{Payment, PaymentStatus, PaymentTable}

pub record NewPayment : Type 0 where
  pub booking_id : String
  pub user_id : String
  pub amount : Number
  pub currency : String
  pub status : PaymentStatus
  pub idempotency_key : String
  pub failure_reason : Option String

abbrev pub payment_of : NewPayment → String → Payment
payment_of d id = record {
  id = id;
  booking_id = d.booking_id;
  user_id = d.user_id;
  amount = d.amount;
  currency = d.currency;
  status = d.status;
  idempotency_key = d.idempotency_key;
  failure_reason = d.failure_reason;
}

-- A reason that is left out (`undefined`) leaves the column alone.
abbrev pub set_status : PaymentStatus → Option (Option String) → Payment → Payment
set_status status none p = record p { status = status }
set_status status (some reason) p = record p { status = status; failure_reason = reason }

module _ (t : PaymentTable) where
  abbrev pub find_by_idempotency_key : String → Action t.Store (Option Payment)
  find_by_idempotency_key key = query (t.find_first (λ p. p.idempotency_key == key))

  abbrev pub create_payment : NewPayment → Action t.Store Payment
  create_payment d = t.create (payment_of d)

  abbrev pub find_by_id : String → Action t.Store (Option Payment)
  find_by_id id = query (t.find_first (λ p. p.id == id))

  abbrev pub update_status :
      String → PaymentStatus → Option (Option String) → Action t.Store Payment
  update_status id status reason = t.update id (set_status status reason)
