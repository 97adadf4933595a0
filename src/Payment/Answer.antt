-- ===== src/Payment/Answer.antt =====
-- What the answer to a charge over HTTP tells of the table.
use billing_app_microservice.Prelude.{
  true, false, none, some, [], ◌∷◌, ◌++◌, ◌≡◌, ◌⊎◌, inl, inr, arith, first, ap,
}
use billing_app_microservice.Effect.{Outcome-cases}
use billing_app_microservice.Utils.StatusCode
use billing_app_microservice.Utils.Response.{Response, respond, respond_error}
use billing_app_microservice.Payment.Model.{PaymentTable, ChargeResult}
use billing_app_microservice.Payment.Service.{Gateway, charge}
use billing_app_microservice.Payment.Laws.{has_key, charge-ok}
use billing_app_microservice.Payment.Controller.{
  ChargeRequest, dto_of, charge_response, process_charge,
}

charge_response_lem :
    (x : ChargeResult)
    → ((charge_response x).body ≡ some x)
      × (x.is_idempotent_replay ≡ true → (charge_response x).status ≡ StatusCode.success)
      × (x.is_idempotent_replay ≡ false → (charge_response x).status ≡ StatusCode.created)
unfolding respond
charge_response_lem x = (ground arith, λ e. ground arith, λ e. ground arith)

module _ (t : PaymentTable) (g : Gateway) (req : ChargeRequest) (s : t.Store) where
  -- The answer to a charge is a success in two ways only: with status 200, where the table is as it
  -- was and had a payment with the key; or with status 201, where the table had none and has gained
  -- the one payment that the answer carries.
  pub process_charge-status :
      {r : Response ChargeResult} {s' : t.Store}
      → process_charge t g req s ≡ (r, s')
      → r.success ≡ true
      → (x : ChargeResult) × (r.body ≡ some x)
        × (((r.status ≡ StatusCode.success)
              × (t.rows s' ≡ t.rows s)
              × (first (has_key (dto_of req)) (t.rows s) ≡ some x.payment))
            ⊎ ((r.status ≡ StatusCode.created)
                × (t.rows s' ≡ t.rows s ++ x.payment ∷ [])
                × (first (has_key (dto_of req)) (t.rows s) ≡ none)))
  unfolding process_charge respond_error
  process_charge-status {r} {s'} e good = elim (Outcome-cases (charge t g (dto_of req) s)) [
    | inl (x, s₁, done) ↦
        let after : s₁ ≡ s' = ground arith in
        let answer : charge_response x ≡ r = ground arith in
        let (body, again, first_time) = charge_response_lem x in
        elim (charge-ok t g (dto_of req) s done) [
          | inl replay ↦ (
            x,
            rw (← answer) body,
            inl (
              rw (← answer) (again (ap (λ z. z.is_idempotent_replay) replay.result)),
              rw (← after) replay.same,
              replay.stood,
            ),
          )
          | inr fresh ↦ (
            x,
            rw (← answer) body,
            inr (
              rw (← answer) (first_time (ap (λ z. z.is_idempotent_replay) fresh.result)),
              rw (← after) fresh.stored,
              fresh.absent,
            ),
          )
        ]
    | inr (x, s₁, thrown) ↦ absurd (ground arith)
  ]
