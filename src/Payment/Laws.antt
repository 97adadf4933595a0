-- ===== src/Payment/Laws.antt =====
-- Charging under an idempotency key.
use mathlib.Core.Path.{subst}
use billing_app_microservice.Prelude.{
  String, Bool, false, Option, none, some, List, [], ◌∷◌, ◌++◌, ◌≡◌, ◌⊎◌, refl, sym, ◌∙◌, arith,
  first, inl, inr, ◌==◌, eq_refl,
}
use billing_app_microservice.Prelude.Js.{trim}
use billing_app_microservice.Effect.{ok, Result-cases, Outcome-cases}
use billing_app_microservice.Platform.Rows.{first-concat}
use billing_app_microservice.Payment.Model.{Payment, PaymentTable, ChargeDto, ChargeResult}
use billing_app_microservice.Payment.Repository.{payment_of, create_payment}
use billing_app_microservice.Payment.Service.{
  Gateway, is_blank, is_bad_amount, replay_of, new_payment, result_of, simulate_charge_outcome,
  process_new, charge,
}

abbrev pub has_key : ChargeDto → Payment → Bool
has_key dto p = p.idempotency_key == trim dto.idempotency_key

-- The request passes the four tests of `charge`.
pub record IsWellFormed (dto : ChargeDto) : Type 0 where
  pub booking : is_blank dto.booking_id ≡ false
  pub user : is_blank dto.user_id ≡ false
  pub amount : is_bad_amount dto.amount ≡ false
  pub key : is_blank dto.idempotency_key ≡ false

-- The payment of the result stood in the table already, and nothing changed.
pub record IsReplay (dto : ChargeDto) (before after : List Payment) (r : ChargeResult)
    : Type 0 where
  pub result : r ≡ replay_of r.payment
  pub stood : first (has_key dto) before ≡ some r.payment
  pub same : after ≡ before

-- No payment had the key, and the table has gained the one of the result.
pub record IsFresh (g : Gateway) (dto : ChargeDto) (before after : List Payment) (r : ChargeResult)
    : Type 0 where
  pub result : r ≡ result_of (simulate_charge_outcome g) r.payment
  pub id : String
  pub row : r.payment ≡ payment_of (new_payment dto (simulate_charge_outcome g)) id
  pub absent : first (has_key dto) before ≡ none
  pub stored : after ≡ before ++ r.payment ∷ []

module _ (t : PaymentTable) (g : Gateway) (dto : ChargeDto) (s : t.Store) where
  process_new-ok :
      {r : ChargeResult} {s' : t.Store}
      → process_new t g dto s ≡ (ok r, s')
      → first (has_key dto) (t.rows s) ≡ none
      → IsFresh g dto (t.rows s) (t.rows s') r
  unfolding process_new
  process_new-ok {r} {s'} e absent =
      elim (Outcome-cases (create_payment t (new_payment dto (simulate_charge_outcome g)) s)) [
        | inl (p, s₁, made) ↦
            let (id, row, stored, _) = t.create_ok _ s made in
            let from_row : r ≡ result_of (simulate_charge_outcome g) p = ground arith in
            let after : s₁ ≡ s' = ground arith in
            rw (from_row, ← after)
              (record { result = refl; id = id; row = row; absent = absent; stored = stored })
        | inr (x, s₁, thrown) ↦ absurd (ground arith)
      ]

  -- A charge that succeeds is a replay or a fresh one.
  pub charge-ok :
      {r : ChargeResult} {s' : t.Store}
      → charge t g dto s ≡ (ok r, s')
      → IsReplay dto (t.rows s) (t.rows s') r ⊎ IsFresh g dto (t.rows s) (t.rows s') r
  unfolding charge
  charge-ok {r} {s'} e = elim (Result-cases (t.find_first (has_key dto) s)) [
    | inl (some p, found) ↦
        let from_row : r ≡ replay_of p = ground arith in
        let after : s' ≡ s = ground arith in
        inl (
          rw (from_row, after)
            (record {
              result = refl;
              stood = sym (t.find_first_ok (has_key dto) s found);
              same = refl;
            }))
    | inl (none, found) ↦
        inr (process_new-ok (ground arith) (sym (t.find_first_ok (has_key dto) s found)))
    | inr (x, thrown) ↦ absurd (ground arith)
  ]

-- The payment of a successful charge is the one that a search for its key finds afterwards.
pub stored-first :
    (t : PaymentTable) (g : Gateway) (dto : ChargeDto) (s : t.Store) {r : ChargeResult}
    {s' : t.Store}
    → charge t g dto s ≡ (ok r, s')
    → first (has_key dto) (t.rows s') ≡ some r.payment
stored-first t g dto s {r} e = elim (charge-ok t g dto s e) [
  | inl old ↦ rw old.same old.stood
  | inr new ↦ rw new.stored (
      first-concat (has_key dto) r.payment (t.rows s) new.absent
        (rw new.row (eq_refl (trim dto.idempotency_key))))
]

-- A well-formed charge in the very state that a charge which succeeded has left, under the same
-- trimmed key, whatever else it asks for, and whatever outcome its gateway would draw, returns the
-- first payment as a replay and changes nothing, if the search for the key is answered.
pub charge_idempotent :
    (t : PaymentTable) (g g' : Gateway) (dto dto' : ChargeDto) (s : t.Store) {r : ChargeResult}
    {s' : t.Store} {found : Option Payment}
    → charge t g dto s ≡ (ok r, s')
    → IsWellFormed dto'
    → trim dto'.idempotency_key ≡ trim dto.idempotency_key
    → t.find_first (has_key dto') s' ≡ ok found
    → charge t g' dto' s' ≡ (ok (replay_of r.payment), s')
unfolding charge
charge_idempotent t g g' dto dto' s {r} {s'} {found} e valid same answered =
    let there : first (has_key dto') (t.rows s') ≡ some r.payment =
      subst (λ k. first (λ p. p.idempotency_key == k) (t.rows s') ≡ some r.payment) (sym same)
        (stored-first t g dto s e) in
    let hit : found ≡ some r.payment = t.find_first_ok _ s' answered ∙ there in
    ground (arith, valid.booking)
