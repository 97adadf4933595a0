-- ===== src/Payment/Kept.antt =====
-- Payments under a key that did not fail, before and after the operations of the service.
use billing_app_microservice.Prelude.{
  String, none, some, List, [], ◌∷◌, ◌++◌, ◌≡◌, ◌≢◌, arith, inl, inr, ◌==◌, Any, Bool-cases, first,
  eq_iff,
}
use billing_app_microservice.Prelude.Js.{trim}
use billing_app_microservice.Effect.{Outcome-cases, Result-cases}
use billing_app_microservice.Platform.Table.{write}
use billing_app_microservice.Payment.Model.{Payment, PaymentTable, ChargeDto, failed, refunded}
use billing_app_microservice.Payment.Repository.{
  NewPayment, set_status, create_payment, update_status,
}
use billing_app_microservice.Payment.Service.{
  Gateway, charge, refund, process_new, new_payment, simulate_charge_outcome,
}

-- Some payment under the key has succeeded, be it refunded since.
abbrev pub IsKeyPaid : String → List Payment → Type 0
IsKeyPaid key = Any (λ y. (y.idempotency_key ≡ key) × (y.status ≢ failed))

append-IsKeyPaid :
    (key : String) (xs : List Payment) (r : Payment)
    → IsKeyPaid key xs
    → IsKeyPaid key (xs ++ r ∷ [])
append-IsKeyPaid key [] r h = absurd h
append-IsKeyPaid key (x ∷ xs) r (inl here) = inl here
append-IsKeyPaid key (x ∷ xs) r (inr there) = inr (append-IsKeyPaid key xs r there)

write-IsKeyPaid :
    (key id : String) (xs : List Payment)
    → IsKeyPaid key xs
    → IsKeyPaid key (write (λ p. p.id) id (set_status refunded none) xs)
write-IsKeyPaid key id [] h = absurd h
write-IsKeyPaid key id (x ∷ xs) (inl (same, live)) = elim (Bool-cases (x.id == id)) [
  | inl own ↦ rw own (inl (same, ground arith))
  | inr other ↦ rw other (inl (same, live))
]
write-IsKeyPaid key id (x ∷ xs) (inr there) = inr (write-IsKeyPaid key id xs there)

-- A payment that a search finds, and that has not failed.
pub first-IsKeyPaid :
    (key : String) (xs : List Payment) {y : Payment}
    → first (λ z. z.idempotency_key == key) xs ≡ some y
    → y.status ≢ failed
    → IsKeyPaid key xs
first-IsKeyPaid key [] found live = absurd (ground arith)
first-IsKeyPaid key (x ∷ xs) {y} found live = elim (Bool-cases (x.idempotency_key == key)) [
  | inl here ↦
      let same : x ≡ y = ground arith in inl ((eq_iff x.idempotency_key key).0 here, rw same live)
  | inr other ↦ inr (first-IsKeyPaid key xs {y = y} (ground arith) live)
]

module _ (t : PaymentTable) (key : String) where
  create_payment-IsKeyPaid :
      (d : NewPayment) (s : t.Store)
      → IsKeyPaid key (t.rows s)
      → IsKeyPaid key (t.rows (create_payment t d s).1)
  create_payment-IsKeyPaid d s h = elim (Outcome-cases (create_payment t d s)) [
    | inl (r, s', made) ↦
        let (id, row, stored, fresh) = t.create_ok _ s made in
        rw (made, stored) (append-IsKeyPaid key (t.rows s) r h)
    | inr (x, s', thrown) ↦ elim (t.create_err _ s thrown) [
      | inl kept ↦ rw (thrown, kept) h
      | inr (id, stored, _) ↦ rw (thrown, stored) (append-IsKeyPaid key (t.rows s) _ h)
    ]
  ]

  -- `charge` keeps every payment.
  pub charge-IsKeyPaid :
      (g : Gateway) (dto : ChargeDto) (s : t.Store)
      → IsKeyPaid key (t.rows s)
      → IsKeyPaid key (t.rows (charge t g dto s).1)
  unfolding charge process_new
  charge-IsKeyPaid g dto s h =
      ground (arith, create_payment-IsKeyPaid (new_payment dto (simulate_charge_outcome g)) s h)

  mark-IsKeyPaid :
      (id : String) (s : t.Store)
      → IsKeyPaid key (t.rows s)
      → IsKeyPaid key (t.rows (update_status t id refunded none s).1)
  mark-IsKeyPaid id s h = elim (Outcome-cases (update_status t id refunded none s)) [
    | inl (r, s', done) ↦
        let (x, found, made, stored) = t.update_ok id _ s done in
        rw (done, stored) (write-IsKeyPaid key id (t.rows s) h)
    | inr (x, s', thrown) ↦ elim (t.update_err id _ s thrown) [
      | inl kept ↦ rw (thrown, kept) h
      | inr (_, _, stored) ↦ rw (thrown, stored) (write-IsKeyPaid key id (t.rows s) h)
    ]
  ]

  -- `refund` turns no payment into one that failed.
  pub refund-IsKeyPaid :
      (id : String) (s : t.Store)
      → IsKeyPaid key (t.rows s)
      → IsKeyPaid key (t.rows (refund t id s).1)
  unfolding refund
  refund-IsKeyPaid id s h = elim (Result-cases (t.find_first (λ p. p.id == trim id) s)) [
    | inl (none, answer) ↦ ground arith
    | inl (some p, answer) ↦ ground (arith, mark-IsKeyPaid p.id s h)
    | inr (e, lost) ↦ ground arith
  ]
