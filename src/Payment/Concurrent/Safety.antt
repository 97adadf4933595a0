-- ===== src/Payment/Concurrent/Safety.antt =====
-- What no interleaving of charges and refunds changes.
use billing_app_microservice.Prelude.{
  ℕ, String, none, some, List, ◌≡◌, ◌≢◌, refl, sym, ap, inl, inr, arith, Bool-cases, nat_eq, ◌==◌,
  eq_iff,
}
use billing_app_microservice.Effect.{Outcome-cases}
use billing_app_microservice.Platform.Table.{find}
use billing_app_microservice.Platform.Rows.{first-true}
use billing_app_microservice.Payment.Model.{Payment, PaymentTable, failed, refunded}
use billing_app_microservice.Payment.Repository.{NewPayment, create_payment, update_status}
use billing_app_microservice.Payment.Service.{new_payment}
use billing_app_microservice.Payment.Unique.{
  IsUnique, create_payment-IsUnique, update_status-IsUnique,
}
use billing_app_microservice.Payment.Concurrent.{
  Pc, idle, refunding, System, goes, Step, charge_read, charge_write, refund_read, refund_write,
  stop, Reach, here, next,
}
use billing_app_microservice.Payment.Concurrent.Rows.{
  Grows, IsLater-then, IsLater-failed, find-append, write-Grows,
}

module _ (t : PaymentTable) where
  pub record Inv (s : System t) : Type 0 where
    pub unique : IsUnique (t.rows s.rows)
    -- A payment that is about to be marked as refunded has not failed.
    pub live :
        (i : ℕ) (id : String)
        → s.pc i ≡ refunding id
        → (p : Payment) × (find (λ x. x.id) id (t.rows s.rows) ≡ some p) × (p.status ≢ failed)

  Inv-keeps :
      (s : System t) (i : ℕ) (p : Pc) (d : t.Store)
      → Inv s
      → IsUnique (t.rows d)
      → Grows (t.rows s.rows) (t.rows d)
      → ((id : String)
          → p ≡ refunding id
          → (x : Payment) × (find (λ y. y.id) id (t.rows d) ≡ some x) × (x.status ≢ failed))
      → Inv (goes t (record s { rows = d }) i p)
  Inv-keeps s i p d inv unique grows own = record {
    unique = unique;
    live = λ j id at. elim (Bool-cases (nat_eq j i)) [
      | inl same ↦ own id (rw same at at)
      | inr other ↦
          let (x, found, ok') = inv.live j id (rw other at at) in
          let (y, found', later) = grows id x found in (y, found', IsLater-failed x y later ok')
    ];
  }

  Grows-self : (xs : List Payment) → Grows xs xs
  Grows-self xs id p found = (p, found, inl refl)

  Grows-create : (d : NewPayment) (s : t.Store) → Grows (t.rows s) (t.rows (create_payment t d s).1)
  Grows-create d s id p found = elim (Outcome-cases (create_payment t d s)) [
    | inl (r, s', made) ↦
        let (_, _, stored, _) = t.create_ok _ s made in
        (p, rw (made, stored) (find-append id (t.rows s) r found), inl refl)
    | inr (x, s', thrown) ↦ elim (t.create_err _ s thrown) [
      | inl kept ↦ (p, rw (thrown, kept) found, inl refl)
      | inr (_, stored, _) ↦ (p, rw (thrown, stored) (find-append id (t.rows s) _ found), inl refl)
    ]
  ]

  Grows-refund :
      (j : String) (w : Payment) (s : t.Store)
      → find (λ x. x.id) j (t.rows s) ≡ some w
      → w.status ≢ failed
      → Grows (t.rows s) (t.rows (update_status t j refunded none s).1)
  Grows-refund j w s there live id p found =
      elim (Outcome-cases (update_status t j refunded none s)) [
        | inl (r, s', done) ↦
            let (_, _, _, stored) = t.update_ok j _ s done in
            rw (done, stored) (write-Grows j w (t.rows s) there live id p found)
        | inr (x, s', thrown) ↦ elim (t.update_err j _ s thrown) [
          | inl kept ↦ (p, rw (thrown, kept) found, inl refl)
          | inr (_, _, stored) ↦
              rw (thrown, stored) (write-Grows j w (t.rows s) there live id p found)
        ]
      ]

  written : {A : Type 0} {a : A} {d : t.Store} (m : A × t.Store) → m ≡ (a, d) → d ≡ m.1
  written m e = ap (λ z. z.1) (sym e)

  idle-none :
      (rows : t.Store) (id : String)
      → idle ≡ refunding id
      → (x : Payment) × (find (λ y. y.id) id (t.rows rows) ≡ some x) × (x.status ≢ failed)
  idle-none rows id e = absurd (ground arith)

  -- A step keeps the invariant, and every payment.
  Step-keeps : {s u : System t} → Step t s u → Inv s → Inv u × Grows (t.rows s.rows) (t.rows u.rows)
  Step-keeps {s} (charge_read i g dto at found e) inv = rw e (
    Inv-keeps s i _ s.rows inv inv.unique (Grows-self (t.rows s.rows))
        (λ id f. absurd (ground arith)),
    Grows-self (t.rows s.rows),
  )
  Step-keeps {s} (charge_write i dto b at made e) inv =
      let grows = Grows-create (new_payment dto b) s.rows in
      let unique = create_payment-IsUnique t (new_payment dto b) s.rows inv.unique in
      rw (e, written _ made) (Inv-keeps s i idle _ inv unique grows (idle-none _), grows)
  Step-keeps {s} (refund_read i id p at found good e) inv =
      let there : find (λ y. y.id) id (t.rows s.rows) ≡ some p =
        sym (t.find_first_ok _ s.rows (ap (λ z. z.0) found)) in
      let named : p.id ≡ id =
        (eq_iff p.id id).0 (first-true (λ y. y.id == id) (t.rows s.rows) there) in
      rw e (
        Inv-keeps s i (refunding p.id) s.rows inv inv.unique (Grows-self (t.rows s.rows))
            (λ j f. let same : id ≡ j = ground arith in (p, rw same at there, ground arith)),
        Grows-self (t.rows s.rows),
      )
  Step-keeps {s} (refund_write i id at made e) inv =
      let (w, there, live) = inv.live i id at in
      let grows = Grows-refund id w s.rows there live in
      let unique = update_status-IsUnique t id refunded s.rows inv.unique in
      rw (e, written _ made) (Inv-keeps s i idle _ inv unique grows (idle-none _), grows)
  Step-keeps {s} (stop i e) inv = rw e (
    Inv-keeps s i idle s.rows inv inv.unique (Grows-self (t.rows s.rows)) (idle-none s.rows),
    Grows-self (t.rows s.rows),
  )

  Reach-keeps :
      {s u : System t} → Inv s → Reach t s u → Inv u × Grows (t.rows s.rows) (t.rows u.rows)
  Reach-keeps {s} inv here = (inv, Grows-self (t.rows s.rows))
  Reach-keeps inv (next re st) =
      let (inv', grows) = Reach-keeps inv re in
      let (inv'', grows') = Step-keeps st inv' in
      (
        inv'',
        λ id p found.
            let (q, found', later) = grows id p found in
            let (w, found'', later') = grows' id q found' in
            (w, found'', IsLater-then p q w later later'),
      )

  -- Whatever the interleaving of any number of charges and refunds that starts with no request under
  -- way: no two payments get the same id or the same idempotency key; and every payment is still
  -- there, with all its columns as they were, but that its status may have gone from SUCCEEDED to
  -- REFUNDED. So no payment that failed is ever refunded, and no charge replaces another's payment.
  pub Reach-Grows :
      (s u : System t)
      → ((i : ℕ) → s.pc i ≡ idle)
      → IsUnique (t.rows s.rows)
      → Reach t s u
      → IsUnique (t.rows u.rows) × Grows (t.rows s.rows) (t.rows u.rows)
  Reach-Grows s u quiet unique re =
      let inv : Inv s = record {
        unique = unique;
        live = λ i id at. let still = quiet i in absurd (ground arith);
      } in
      let (inv', grows) = Reach-keeps inv re in (inv'.unique, grows)
