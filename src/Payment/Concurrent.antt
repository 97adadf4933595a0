-- ===== src/Payment/Concurrent.antt =====
-- payment-service/src/services/payment.service.ts run by many requests at once over one database. A
-- step is what a request does between two `await`s. A request's number is its place in `pc`.
pub mod Rows
pub mod Safety
pub mod Runs
mod Examples
use billing_app_microservice.Prelude.{
  ℕ, String, Bool, true, false, Option, none, some, ◌≡◌, nat_eq, if◌then◌else◌,
}
use billing_app_microservice.Prelude.Js.{trim}
use billing_app_microservice.Effect.{Result, ok}
use billing_app_microservice.Payment.Model.{
  Payment, PaymentTable, ChargeDto, refunded, is_succeeded,
}
use billing_app_microservice.Payment.Repository.{
  find_by_idempotency_key, create_payment, find_by_id, update_status,
}
use billing_app_microservice.Payment.Service.{Gateway, simulate_charge_outcome, new_payment}

-- Where a request stands: at which `await` of which operation.
pub data Pc : Type 0 where
  idle : Pc
  -- `charge`: before the insertion, with the outcome drawn
  creating : ChargeDto → (is_success : Bool) → Pc
  -- `refund`: before the write
  refunding : (id : String) → Pc

abbrev pub set_pc : ℕ → Pc → (ℕ → Pc) → ℕ → Pc
set_pc i p pc j = if nat_eq j i then p else pc j

module _ (t : PaymentTable) where
  pub record System : Type 0 where
    pub rows : t.Store
    pub pc : ℕ → Pc

  -- Request `i` goes on to `p`.
  abbrev pub goes : System → ℕ → Pc → System
  goes s i p = record s { pc = set_pc i p s.pc }

  pub data Step (s u : System) : Type 0 where
    charge_read :
        (i : ℕ) (g : Gateway) (dto : ChargeDto)
        → s.pc i ≡ idle
        → find_by_idempotency_key t (trim dto.idempotency_key) s.rows ≡ (ok none, s.rows)
        → u ≡ goes s i (creating dto (simulate_charge_outcome g))
        → Step s u
    charge_write :
        (i : ℕ) (dto : ChargeDto) (is_success : Bool) {a : Result Payment} {d : t.Store}
        → s.pc i ≡ creating dto is_success
        → create_payment t (new_payment dto is_success) s.rows ≡ (a, d)
        → u ≡ goes (record s { rows = d }) i idle
        → Step s u
    refund_read :
        (i : ℕ) (id : String) (p : Payment)
        → s.pc i ≡ idle
        → find_by_id t id s.rows ≡ (ok (some p), s.rows)
        → is_succeeded p.status ≡ true
        → u ≡ goes s i (refunding p.id)
        → Step s u
    refund_write :
        (i : ℕ) (id : String) {a : Result Payment} {d : t.Store}
        → s.pc i ≡ refunding id
        → update_status t id refunded none s.rows ≡ (a, d)
        → u ≡ goes (record s { rows = d }) i idle
        → Step s u
    -- A request ends where it stands: its process stops, or a call throws and has done nothing.
    stop : (i : ℕ) → u ≡ goes s i idle → Step s u

  -- What can be reached by any steps.
  pub data Reach (s : System) : System → Type 0 where
    here : Reach s s
    next : {u w : System} → Reach s u → Step u w → Reach s w
