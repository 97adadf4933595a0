-- ===== src/Payment/Examples.antt =====
-- Runs of the payment service on an empty table and after one charge.
use billing_app_microservice.Prelude.{true, none, some, [], ◌∷◌, ◌≡◌, refl}
use billing_app_microservice.Prelude.Js.{number, trim, show_ℕ}
use billing_app_microservice.Effect.{ok, err}
use billing_app_microservice.Utils.Errors.{conflict}
use billing_app_microservice.Platform.Memory.{memory}
use billing_app_microservice.Payment.Model.{
  Payment, PaymentTable, ChargeDto, same_id_or_key, refunded,
}
use billing_app_microservice.Payment.Repository.{payment_of}
use billing_app_microservice.Payment.Service.{
  Gateway, simulate_charge_outcome, new_payment, result_of, replay_of, process_new, charge, refund,
}
use billing_app_microservice.Payment.Laws.{charge_idempotent}
use billing_app_microservice.Payment.Refund.{refund_once}

abbrev table : PaymentTable
table = memory (λ p. p.id) same_id_or_key

abbrev dto : ChargeDto
dto = record {
  booking_id = "B";
  user_id = "U";
  amount = some (number 500);
  currency = none;
  idempotency_key = " K ";
}

abbrev again : ChargeDto
again = record dto { amount = some (number 700); idempotency_key = "K" }

abbrev accepts : Gateway
accepts = record { simulator = some true; random = 0; success_rate = 0 }

abbrev declines : Gateway
declines = record { simulator = none; random = 5; success_rate = 5 }

abbrev taken : Payment
taken = payment_of (new_payment dto true) "0"

abbrev returned : Payment
returned = record taken { status = refunded }

charged : charge table accepts dto [] ≡ (ok (result_of true taken), taken ∷ [])
unfolding charge process_new simulate_charge_outcome trim show_ℕ
charged = refl

given_back : refund table "0" (taken ∷ []) ≡ (ok returned, returned ∷ [])
unfolding refund trim
given_back = refl

charge_idempotent_example :
    charge table declines again (taken ∷ []) ≡ (ok (replay_of taken), taken ∷ [])
unfolding trim
charge_idempotent_example =
    charge_idempotent table accepts declines dto again [] charged
      (record { booking = refl; user = refl; amount = refl; key = refl }) refl refl

refund_once_example :
    refund table "0" (returned ∷ [])
    ≡ (err (conflict "Payment has already been refunded"), returned ∷ [])
unfolding trim
refund_once_example = refund_once table "0" (taken ∷ []) given_back refl refl
