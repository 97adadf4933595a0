-- ===== src/Payment/Refund.antt =====
-- Refunds, and the life of a payment.
use billing_app_microservice.Prelude.{
  String, Bool, false, Option, none, some, List, ◌≡◌, refl, sym, ◌∙◌, arith, inl, inr, ◌==◌, eq_iff,
}
use billing_app_microservice.Prelude.Js.{trim}
use billing_app_microservice.Effect.{ok, err, Result-cases, Outcome-cases}
use billing_app_microservice.Utils.Errors.{Error, conflict}
use billing_app_microservice.Platform.Table.{find, write}
use billing_app_microservice.Platform.Rows.{first-true, find-write}
use billing_app_microservice.Payment.Model.{
  Payment, PaymentTable, succeeded, refunded, is_succeeded,
}
use billing_app_microservice.Payment.Repository.{set_status, update_status}
use billing_app_microservice.Payment.Service.{is_blank, refund}

abbrev has_id : String → Payment → Bool
has_id id p = p.id == id

abbrev mark : Payment → Payment
mark = set_status refunded none

-- What a successful refund has done.
pub record IsRefund (id : String) (before after : List Payment) (r : Payment) : Type 0 where
  pub payment : Payment
  pub found : find (λ p. p.id) (trim id) before ≡ some payment
  pub had_succeeded : payment.status ≡ succeeded
  pub result : r ≡ record payment { status = refunded }
  pub stored : after ≡ write (λ p. p.id) (trim id) mark before

module _ (t : PaymentTable) (id : String) (s : t.Store) where
  refund-steps :
      {r : Payment} {s' : t.Store}
      → refund t id s ≡ (ok r, s')
      → (p : Payment) × (find (λ p. p.id) (trim id) (t.rows s) ≡ some p)
        × (p.status ≡ succeeded)
        × (update_status t p.id refunded none s ≡ (ok r, s'))
  unfolding refund
  refund-steps e = elim (Result-cases (t.find_first (has_id (trim id)) s)) [
    | inl (some p, found) ↦ (p, sym (t.find_first_ok _ s found), ground arith, ground arith)
    | inl (none, found) ↦ absurd (ground arith)
    | inr (x, thrown) ↦ absurd (ground arith)
  ]

  -- A refund that succeeds is of a payment that had succeeded; it sets that row's status to
  -- REFUNDED and changes no other row and no other column.
  pub refund-ok :
      {r : Payment} {s' : t.Store}
      → refund t id s ≡ (ok r, s')
      → IsRefund id (t.rows s) (t.rows s') r
  refund-ok {r} {s'} e =
      let (p, found, status, updated) = refund-steps e in
      let (x, found', made, stored) = t.update_ok p.id mark s updated in
      let here : p.id ≡ trim id =
        (eq_iff p.id (trim id)).0 (first-true (has_id (trim id)) (t.rows s) found) in
      let same : x ≡ p = ground (arith, rw here at found') in
      record {
        payment = p;
        found = found;
        had_succeeded = status;
        result = made ∙ rw same refl;
        stored = rw here at stored;
      }

-- A refund of the same id, not blank, in the very state that a refund which succeeded has left, is
-- refused with a conflict and changes nothing, if the search for the id is answered.
pub refund_once :
    (t : PaymentTable) (id : String) (s : t.Store) {r : Payment} {s' : t.Store}
    {found : Option Payment}
    → refund t id s ≡ (ok r, s')
    → is_blank id ≡ false
    → t.find_first (has_id (trim id)) s' ≡ ok found
    → refund t id s' ≡ (err (conflict "Payment has already been refunded"), s')
unfolding refund
refund_once t id s {r} {s'} {found} e given answered =
    let done = refund-ok t id s e in
    let there : find (λ p. p.id) (trim id) (t.rows s') ≡ some (mark done.payment) =
      rw done.stored (find-write (λ p. p.id) (trim id) mark (t.rows s) (λ p. refl) done.found) in
    let hit : found ≡ some (mark done.payment) = t.find_first_ok _ s' answered ∙ there in
    ground arith

refund-kept :
    (t : PaymentTable) (id : String) (s : t.Store) {p : Payment} {x : Error} {s' : t.Store}
    → find (λ x. x.id) (trim id) (t.rows s) ≡ some p
    → is_succeeded p.status ≡ false
    → refund t id s ≡ (err x, s')
    → s' ≡ s
unfolding refund
refund-kept t id s found bad thrown = elim (Result-cases (t.find_first (has_id (trim id)) s)) [
  | inl (none, answer) ↦ ground arith
  | inl (some q, answer) ↦ ground (arith, t.find_first_ok _ s answer)
  | inr (e, lost) ↦ ground arith
]

-- Only a payment that has succeeded can be refunded: for any other the call throws and changes
-- nothing.
pub refund_refused :
    (t : PaymentTable) (id : String) (s : t.Store) {p : Payment}
    → find (λ x. x.id) (trim id) (t.rows s) ≡ some p
    → is_succeeded p.status ≡ false
    → (x : Error) × (refund t id s ≡ (err x, s))
refund_refused t id s {p} found bad = elim (Outcome-cases (refund t id s)) [
  | inl (r, s', done) ↦
      let (q, there, status, _) = refund-steps t id s done in absurd (ground arith)
  | inr (x, s', thrown) ↦
      let kept : s' ≡ s = refund-kept t id s found bad thrown in (x, rw kept at thrown)
]
