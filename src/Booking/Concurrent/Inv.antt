-- ===== src/Booking/Concurrent/Inv.antt =====
-- What holds between any two steps of the requests.
use billing_app_microservice.Prelude.{
  ℕ, String, some, ◌≡◌, ◌≢◌, refl, sym, ◌∙◌, inl, inr, arith, Bool-cases, ◌⊎◌, nat_eq,
}
use billing_app_microservice.Platform.Redis.{Redis}
use billing_app_microservice.Booking.Model.{BookingTable}
use billing_app_microservice.Booking.Service.{Env}
use billing_app_microservice.Booking.Exclusive.{IsExclusive}
use billing_app_microservice.Booking.Availability.{IsFree}
use billing_app_microservice.Booking.Concurrent.{
  HoldRequest, Pc, inserting, Lease, lease, set_pc, System,
}

module _ (t : BookingTable) (r : Redis) (env : Env) where
  pub record Inv (s : System t r env) : Type 0 where
    pub exclusive : IsExclusive s.now (t.rows s.rows)
    -- Every lease is in Redis, and no two requests have one for the same key.
    pub held : (i : ℕ) (a : Lease) → lease (s.pc i) ≡ some a → r.get a.key s.locks ≡ some a.value
    pub apart :
        (i j : ℕ) (a b : Lease)
        → i ≢ j
        → lease (s.pc i) ≡ some a
        → lease (s.pc j) ≡ some b
        → a.key ≢ b.key
    -- What the search has found free is free until the insertion.
    pub free :
        (i : ℕ) (q : HoldRequest) (v : String)
        → s.pc i ≡ inserting q v
        → IsFree s.now q.trip q.seat q.from q.to (t.rows s.rows)

  -- What a step of request `i` to `p` has to show, of the request and of the others.
  pub record Moved (s u : System t r env) (i : ℕ) (p : Pc) : Type 0 where
    pub exclusive : IsExclusive u.now (t.rows u.rows)
    pub own : (a : Lease) → lease p ≡ some a → r.get a.key u.locks ≡ some a.value
    pub kept :
        (j : ℕ) (a : Lease) → j ≢ i → lease (s.pc j) ≡ some a → r.get a.key u.locks ≡ some a.value
    pub new :
        (j : ℕ) (a b : Lease) → j ≢ i → lease p ≡ some a → lease (s.pc j) ≡ some b → a.key ≢ b.key
    pub mine :
        (q : HoldRequest) (v : String)
        → p ≡ inserting q v
        → IsFree u.now q.trip q.seat q.from q.to (t.rows u.rows)
    pub others :
        (j : ℕ) (q : HoldRequest) (v : String)
        → j ≢ i
        → s.pc j ≡ inserting q v
        → IsFree u.now q.trip q.seat q.from q.to (t.rows u.rows)

  module _ (s u : System t r env) (i : ℕ) (p : Pc) (e : (j : ℕ) → u.pc j ≡ set_pc i p s.pc j) where
    place : (j : ℕ) → ((j ≡ i) × (u.pc j ≡ p)) ⊎ ((j ≢ i) × (u.pc j ≡ s.pc j))
    place j = elim (Bool-cases (nat_eq j i)) [
      | inl same ↦ inl (ground arith, e j ∙ rw same refl)
      | inr other ↦ inr (ground arith, e j ∙ rw other refl)
    ]

    Moved-held :
        Inv s
        → Moved s u i p
        → (j : ℕ) (a : Lease) → lease (u.pc j) ≡ some a
        → r.get a.key u.locks ≡ some a.value
    Moved-held inv m j a h = elim (place j) [
      | inl (same, at) ↦ m.own a (rw at at h)
      | inr (other, at) ↦ m.kept j a other (rw at at h)
    ]

    Moved-apart :
        Inv s
        → Moved s u i p
        → (j k : ℕ) (a b : Lease) → j ≢ k
        → lease (u.pc j) ≡ some a
        → lease (u.pc k) ≡ some b
        → a.key ≢ b.key
    Moved-apart inv m j k a b ne h g = elim (place j) [
      | inl (same, at) ↦ elim (place k) [
        | inl (same', at') ↦ absurd (ne (same ∙ sym same'))
        | inr (other', at') ↦ m.new k a b other' (rw at at h) (rw at' at g)
      ]
      | inr (other, at) ↦ elim (place k) [
        | inl (same', at') ↦ λ eq. m.new j b a other (rw at' at g) (rw at at h) (sym eq)
        | inr (other', at') ↦ inv.apart j k a b ne (rw at at h) (rw at' at g)
      ]
    ]

    Moved-IsFree :
        Moved s u i p
        → (j : ℕ) (q : HoldRequest) (v : String) → u.pc j ≡ inserting q v
        → IsFree u.now q.trip q.seat q.from q.to (t.rows u.rows)
    Moved-IsFree m j q v h = elim (place j) [
      | inl (same, at) ↦ m.mine q v (sym at ∙ h)
      | inr (other, at) ↦ m.others j q v other (sym at ∙ h)
    ]

    pub Moved-Inv : Inv s → Moved s u i p → Inv u
    Moved-Inv inv m = record {
      exclusive = m.exclusive;
      held = Moved-held inv m;
      apart = Moved-apart inv m;
      free = Moved-IsFree m;
    }
