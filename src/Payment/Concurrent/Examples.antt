-- ===== src/Payment/Concurrent/Examples.antt =====
-- Interleavings of charges and refunds on the table in memory.
use billing_app_microservice.Prelude.{true, none, some, List, [], ◌∷◌, refl}
use billing_app_microservice.Prelude.Js.{number, trim, show_ℕ}
use billing_app_microservice.Platform.Memory.{memory}
use billing_app_microservice.Payment.Model.{Payment, PaymentTable, ChargeDto, same_id_or_key}
use billing_app_microservice.Payment.Repository.{payment_of}
use billing_app_microservice.Payment.Service.{Gateway, simulate_charge_outcome, new_payment}
use billing_app_microservice.Payment.Unique.{IsUnique}
use billing_app_microservice.Payment.Concurrent.{
  idle, creating, refunding, System, goes, charge_read, charge_write, refund_read, refund_write,
  Reach, here, next,
}
use billing_app_microservice.Payment.Concurrent.Rows.{mark, Grows}
use billing_app_microservice.Payment.Concurrent.Safety.{Reach-Grows}

abbrev table : PaymentTable
table = memory (λ p. p.id) same_id_or_key

abbrev dto : ChargeDto
dto = record {
  booking_id = "B";
  user_id = "U";
  amount = some (number 500);
  currency = none;
  idempotency_key = "K";
}

abbrev other_dto : ChargeDto
other_dto = record dto { booking_id = "C"; idempotency_key = "L" }

abbrev accepts : Gateway
accepts = record { simulator = some true; random = 0; success_rate = 0 }

abbrev taken : Payment
taken = payment_of (new_payment dto true) "0"

abbrev other_taken : Payment
other_taken = payment_of (new_payment other_dto true) "1"

abbrev quiet : List Payment → System table
quiet rows = record { rows = rows; pc = λ i. idle }

-- A refund and a charge, each between the two steps of the other.
abbrev both_read : System table
both_read =
    goes table (goes table (quiet (taken ∷ [])) 0 (refunding "0")) 1 (creating other_dto true)

abbrev both_written : System table
both_written =
    goes table
      (record (goes table (record both_read { rows = mark taken ∷ [] }) 0 idle) {
        rows = mark taken ∷ other_taken ∷ [];
      })
      1 idle

both_written-Reach : Reach table (quiet (taken ∷ [])) both_written
unfolding simulate_charge_outcome trim show_ℕ
both_written-Reach =
    next
      (next
        (next (next here (refund_read 0 "0" taken refl refl refl refl))
          (charge_read 1 accepts other_dto refl refl refl))
        (refund_write 0 "0" refl refl refl))
      (charge_write 1 other_dto true refl refl refl)

Reach-Grows_example :
    IsUnique (mark taken ∷ other_taken ∷ []) × Grows (taken ∷ []) (mark taken ∷ other_taken ∷ [])
Reach-Grows_example =
    Reach-Grows table (quiet (taken ∷ [])) both_written (λ i. refl) (tt, tt) both_written-Reach
