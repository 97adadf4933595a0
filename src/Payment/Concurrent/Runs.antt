-- ===== src/Payment/Concurrent/Runs.antt =====
-- `charge` and `refund` as they are written are runs of the steps, one request at a time.
use billing_app_microservice.Prelude.{
  ℕ, String, true, none, some, ◌≡◌, ◌⊎◌, refl, sym, inl, inr, arith, ◌==◌,
}
use billing_app_microservice.Prelude.Js.{trim}
use billing_app_microservice.Effect.{ok, Outcome-cases, Result-cases}
use billing_app_microservice.Payment.Model.{
  Payment, PaymentTable, ChargeDto, ChargeResult, refunded, is_succeeded,
}
use billing_app_microservice.Payment.Repository.{
  find_by_idempotency_key, find_by_id, create_payment, update_status,
}
use billing_app_microservice.Payment.Service.{
  Gateway, simulate_charge_outcome, new_payment, process_new, charge, refund,
}
use billing_app_microservice.Payment.Concurrent.{
  Pc, idle, creating, refunding, set_pc, System, goes, charge_read, charge_write, refund_read,
  refund_write, Reach, here, next,
}

set_pc_self : (i : ℕ) (p : Pc) (f : ℕ → Pc) → set_pc i p f i ≡ p
set_pc_self i p f = ground arith

module _ (t : PaymentTable) (s : System t) (i : ℕ) where
  charge-parts :
      (g : Gateway) (dto : ChargeDto) {x : ChargeResult} {d : t.Store}
      → charge t g dto s.rows ≡ (ok x, d)
      → (d ≡ s.rows)
        ⊎ ((y : Payment) × (find_by_idempotency_key t (trim dto.idempotency_key) s.rows
              ≡ (ok none, s.rows))
            × (create_payment t (new_payment dto (simulate_charge_outcome g)) s.rows ≡ (ok y, d)))
  unfolding charge process_new
  charge-parts g dto e =
      elim (Result-cases
        (t.find_first (λ p. p.idempotency_key == trim dto.idempotency_key) s.rows)) [
          | inl (some p, found) ↦ inl (ground arith)
          | inl (none, found) ↦
              elim (Outcome-cases
                (create_payment t (new_payment dto (simulate_charge_outcome g)) s.rows)) [
                  | inl (y, d', made) ↦ inr (y, ground arith, ground arith)
                  | inr (x, d', thrown) ↦ absurd (ground arith)
                ]
          | inr (x, thrown) ↦ absurd (ground arith)
        ]

  refund-parts :
      (id : String) {y : Payment} {d : t.Store}
      → refund t id s.rows ≡ (ok y, d)
      → (p : Payment) × (find_by_id t (trim id) s.rows ≡ (ok (some p), s.rows))
        × (is_succeeded p.status ≡ true)
        × (update_status t p.id refunded none s.rows ≡ (ok y, d))
  unfolding refund
  refund-parts id e = elim (Result-cases (t.find_first (λ p. p.id == trim id) s.rows)) [
    | inl (some p, found) ↦ (p, ground arith, ground arith, ground arith)
    | inl (none, found) ↦ absurd (ground arith)
    | inr (x, thrown) ↦ absurd (ground arith)
  ]

  -- A `charge` that returns leaves the rows as the steps of one request leave them: none for a
  -- replay, the search and the insertion for a new payment.
  pub charge-Reach :
      (g : Gateway) (dto : ChargeDto) {x : ChargeResult} {d : t.Store}
      → s.pc i ≡ idle
      → charge t g dto s.rows ≡ (ok x, d)
      → (u : System t) × Reach t s u × (u.rows ≡ d) × (u.pc i ≡ idle)
  charge-Reach g dto {x} {d} at e = elim (charge-parts g dto e) [
    | inl same ↦ (s, here, sym same, at)
    | inr (y, absent, made) ↦
        let b = simulate_charge_outcome g in
        let s₁ : System t = goes t s i (creating dto b) in
        let s₂ : System t = goes t (record s₁ { rows = d }) i idle in
        (
          s₂,
          next (next here (charge_read i g dto at absent refl))
              (charge_write i dto b (set_pc_self i (creating dto b) s.pc) made refl),
          refl,
          set_pc_self i idle s₁.pc,
        )
  ]

  -- So does a `refund` that returns: the search and the write.
  pub refund-Reach :
      (id : String) {y : Payment} {d : t.Store}
      → s.pc i ≡ idle
      → refund t id s.rows ≡ (ok y, d)
      → (u : System t) × Reach t s u × (u.rows ≡ d) × (u.pc i ≡ idle)
  refund-Reach id {y} {d} at e =
      let (p, found, good, made) = refund-parts id e in
      let s₁ : System t = goes t s i (refunding p.id) in
      let s₂ : System t = goes t (record s₁ { rows = d }) i idle in
      (
        s₂,
        next (next here (refund_read i (trim id) p at found good refl))
            (refund_write i p.id (set_pc_self i (refunding p.id) s.pc) made refl),
        refl,
        set_pc_self i idle s₁.pc,
      )
