-- ===== src/Payment/Unique.antt =====
-- No two payments share an id or an idempotency key.
use billing_app_microservice.Prelude.{
  String, false, none, some, List, [], ◌∷◌, ◌++◌, ◌≡◌, arith, inl, inr, ◌==◌, eq_iff, All,
  All-concat, map, if◌then◌else◌,
}
use billing_app_microservice.Prelude.Js.{trim}
use billing_app_microservice.Effect.{Outcome-cases, Result-cases}
use billing_app_microservice.Platform.Table.{write}
use billing_app_microservice.Payment.Model.{
  Payment, PaymentTable, PaymentStatus, ChargeDto, refunded, same_id_or_key,
}
use billing_app_microservice.Payment.Repository.{
  NewPayment, set_status, create_payment, update_status,
}
use billing_app_microservice.Payment.Service.{
  Gateway, charge, refund, process_new, new_payment, simulate_charge_outcome,
}

abbrev pub IsUnique : List Payment → Type 0
IsUnique [] = Unit
IsUnique (p ∷ ps) = All (λ q. same_id_or_key p q ≡ false) ps × IsUnique ps

same_comm : (a b : Payment) → same_id_or_key a b ≡ false → same_id_or_key b a ≡ false
same_comm a b h = ground (
  arith,
  eq_iff a.id b.id,
  eq_iff b.id a.id,
  eq_iff a.idempotency_key b.idempotency_key,
  eq_iff b.idempotency_key a.idempotency_key,
)

append-IsUnique :
    (r : Payment) (ps : List Payment)
    → All (λ p. same_id_or_key r p ≡ false) ps
    → IsUnique ps
    → IsUnique (ps ++ r ∷ [])
append-IsUnique r [] h u = (tt, tt)
append-IsUnique r (p ∷ ps) (c, h) (d, u) =
    (All-concat (λ q. same_id_or_key p q ≡ false) ps d (same_comm r p c), append-IsUnique r ps h u)

module _ (id : String) (status : PaymentStatus) where
  written : Payment → Payment
  written p = if p.id == id then set_status status none p else p

  written-same :
      (p q : Payment) → same_id_or_key p q ≡ false → same_id_or_key (written p) (written q) ≡ false
  unfolding written
  written-same p q h = ground arith

  write-All :
      (p : Payment) (ps : List Payment)
      → All (λ q. same_id_or_key p q ≡ false) ps
      → All (λ q. same_id_or_key (written p) q ≡ false) (map written ps)
  write-All p [] h = tt
  write-All p (q ∷ ps) (c, h) = (written-same p q c, write-All p ps h)

  write-IsUnique :
      (ps : List Payment)
      → IsUnique ps
      → IsUnique (write (λ p. p.id) id (set_status status none) ps)
  unfolding written
  write-IsUnique [] u = tt
  write-IsUnique (p ∷ ps) (d, u) = (write-All p ps d, write-IsUnique ps u)

module _ (t : PaymentTable) where
  pub create_payment-IsUnique :
      (d : NewPayment) (s : t.Store)
      → IsUnique (t.rows s)
      → IsUnique (t.rows (create_payment t d s).1)
  create_payment-IsUnique d s u = elim (Outcome-cases (create_payment t d s)) [
    | inl (r, s', made) ↦
        let (id, row, stored, fresh) = t.create_ok _ s made in
        rw (made, stored) (append-IsUnique r (t.rows s) fresh u)
    | inr (x, s', thrown) ↦ elim (t.create_err _ s thrown) [
      | inl kept ↦ rw (thrown, kept) u
      | inr (id, stored, fresh) ↦ rw (thrown, stored) (append-IsUnique _ (t.rows s) fresh u)
    ]
  ]

  -- `charge` keeps ids and keys unique, however it ends.
  pub charge-IsUnique :
      (g : Gateway) (dto : ChargeDto) (s : t.Store)
      → IsUnique (t.rows s)
      → IsUnique (t.rows (charge t g dto s).1)
  unfolding charge process_new
  charge-IsUnique g dto s u =
      ground (arith, create_payment-IsUnique (new_payment dto (simulate_charge_outcome g)) s u)

  pub update_status-IsUnique :
      (id : String) (status : PaymentStatus) (s : t.Store)
      → IsUnique (t.rows s)
      → IsUnique (t.rows (update_status t id status none s).1)
  update_status-IsUnique id status s u = elim (Outcome-cases (update_status t id status none s)) [
    | inl (r, s', done) ↦
        let (x, found, made, stored) = t.update_ok id _ s done in
        rw (done, stored) (write-IsUnique id status (t.rows s) u)
    | inr (x, s', thrown) ↦ elim (t.update_err id _ s thrown) [
      | inl kept ↦ rw (thrown, kept) u
      | inr (_, _, stored) ↦ rw (thrown, stored) (write-IsUnique id status (t.rows s) u)
    ]
  ]

  -- `refund` keeps ids and keys unique, however it ends.
  pub refund-IsUnique :
      (id : String) (s : t.Store) → IsUnique (t.rows s) → IsUnique (t.rows (refund t id s).1)
  unfolding refund
  refund-IsUnique id s u = elim (Result-cases (t.find_first (λ p. p.id == trim id) s)) [
    | inl (none, answer) ↦ ground arith
    | inl (some p, answer) ↦ ground (arith, update_status-IsUnique p.id refunded s u)
    | inr (e, lost) ↦ ground arith
  ]
