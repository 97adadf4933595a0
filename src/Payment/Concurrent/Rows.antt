-- ===== src/Payment/Concurrent/Rows.antt =====
-- Payments before and after a write.
use billing_app_microservice.Prelude.{
  String, none, some, List, [], ◌∷◌, ◌++◌, ◌≡◌, ◌≢◌, ◌⊎◌, refl, sym, ◌∙◌, ap, inl, inr, arith,
  Bool-cases, ◌==◌, eq_iff,
}
use billing_app_microservice.Platform.Table.{find, write}
use billing_app_microservice.Platform.Rows.{find-write}
use billing_app_microservice.Payment.Model.{Payment, PaymentStatus, succeeded, failed, refunded}
use billing_app_microservice.Payment.Repository.{set_status}

abbrev pub mark : Payment → Payment
mark = set_status refunded none

-- `q` is `p`, or `p` had succeeded and is now refunded.
abbrev pub IsLater : Payment → Payment → Type 0
IsLater p q = (q ≡ p) ⊎ ((p.status ≡ succeeded) × (q ≡ mark p))

pub IsLater-then : (p q w : Payment) → IsLater p q → IsLater q w → IsLater p w
IsLater-then p q w (inl e) (inl f) = inl (f ∙ e)
IsLater-then p q w (inl e) (inr (g, f)) = inr (rw (← e) g, rw (← e) f)
IsLater-then p q w (inr (h, e)) (inl f) = inr (h, f ∙ e)
IsLater-then p q w (inr (h, e)) (inr (g, f)) = absurd (ground arith)

pub IsLater-failed : (p q : Payment) → IsLater p q → p.status ≢ failed → q.status ≢ failed
IsLater-failed p q (inl e) h = rw e h
IsLater-failed p q (inr (h, e)) n = rw e (ground arith)

-- Every payment is still there, later.
abbrev pub Grows : List Payment → List Payment → Type 0
Grows xs ys =
    (id : String) (p : Payment)
    → find (λ x. x.id) id xs ≡ some p
    → (q : Payment) × (find (λ x. x.id) id ys ≡ some q) × IsLater p q

pub find-append :
    (id : String) (xs : List Payment) (r : Payment) {p : Payment}
    → find (λ x. x.id) id xs ≡ some p
    → find (λ x. x.id) id (xs ++ r ∷ []) ≡ some p
find-append id [] r e = absurd (ground arith)
find-append id (x ∷ xs) r {p} e = ground (arith, find-append id xs r {p = p})

find-write_other :
    (id j : String) (xs : List Payment)
    → id ≢ j
    → find (λ x. x.id) id (write (λ x. x.id) j mark xs) ≡ find (λ x. x.id) id xs
find-write_other id j [] h = refl
find-write_other id j (x ∷ xs) h =
    ground (arith, find-write_other id j xs h, eq_iff x.id id, eq_iff x.id j)

status-cases : (s : PaymentStatus) → (s ≡ succeeded) ⊎ (s ≡ failed) ⊎ (s ≡ refunded)
status-cases succeeded = inl refl
status-cases failed = inr (inl refl)
status-cases refunded = inr (inr refl)

mark-IsLater : (p : Payment) → p.status ≢ failed → IsLater p (mark p)
mark-IsLater p h = elim (status-cases p.status) [
  | inl paid ↦ inr (paid, refl)
  | inr (inl broken) ↦ absurd (h broken)
  | inr (inr back) ↦ inl (ap (λ z. record p { status = z }) (sym back))
]

pub write-Grows :
    (j : String) (w : Payment) (xs : List Payment)
    → find (λ x. x.id) j xs ≡ some w
    → w.status ≢ failed
    → Grows xs (write (λ x. x.id) j mark xs)
write-Grows j w xs there live id p found = elim (Bool-cases (id == j)) [
  | inl same ↦
      let at : id ≡ j = (eq_iff id j).0 same in
      let own : p ≡ w = ground (at, arith) in
      (
        mark p,
        rw at (find-write (λ x. x.id) j mark xs (λ x. refl) (rw at at found)),
        mark-IsLater p (rw own live),
      )
  | inr other ↦ (p, find-write_other id j xs (ground (arith, eq_iff id j)) ∙ found, inl refl)
]
