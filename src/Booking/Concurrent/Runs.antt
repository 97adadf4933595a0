-- ===== src/Booking/Concurrent/Runs.antt =====
-- The operations as they are written are runs of the steps, one request at a time.
use billing_app_microservice.Prelude.{
  ℕ, ◌≤◌, String, true, false, none, some, ◌≡◌, ◌≢◌, refl, sym, ap, inl, inr, arith, ◌==◌,
}
use billing_app_microservice.Prelude.Js.{is_empty}
use billing_app_microservice.Effect.{ok, Outcome-cases, Result-cases}
use billing_app_microservice.Platform.Redis.{Redis}
use billing_app_microservice.Booking.Model.{Booking, BookingTable, confirmed, is_pending}
use billing_app_microservice.Booking.Lock.{acquire_lock}
use billing_app_microservice.Booking.Repository.{is_active, find_by_id, update_status}
use billing_app_microservice.Booking.Service.{
  Env, Draws, lock_key, or_default, check_and_hold, create_hold, confirm_booking, has_expired,
}
use billing_app_microservice.Booking.Safety.{IsOffDeadline}
use billing_app_microservice.Booking.Hold.{check_and_hold-available}
use billing_app_microservice.Booking.Concurrent.{
  HoldRequest, Pc, idle, searching, inserting, unlocking, confirming, System, goes, set_pc,
  hold_search, hold_insert, lock, search_free, insert, confirm_read, confirm_live, checking,
  confirm_write, Reach, IsTimelyRun, here, next,
}

set_pc_self : (i : ℕ) (p : Pc) (f : ℕ → Pc) → set_pc i p f i ≡ p
set_pc_self i p f = ground arith

acquire_lock-value :
    (r : Redis) (v key : String) (n : ℕ) (s : r.Store) {w : String} {l : r.Store}
    → acquire_lock r v key n s ≡ (ok (some w), l)
    → w ≡ v
unfolding acquire_lock
acquire_lock-value r v key n s e = elim (Outcome-cases (r.set_nx key v n s)) [
  | inl (true, l', done) ↦ ground arith
  | inl (false, l', done) ↦ absurd (ground arith)
  | inr (x, l', thrown) ↦ absurd (ground arith)
]

module _ (t : BookingTable) (r : Redis) (env : Env) (s : System t r env) (i : ℕ) (q : HoldRequest)
    (v : String) (searched held : ℕ) where
  abbrev draws : Draws
  draws = record { lock_value = v; searched_at = searched; held_at = held }

  -- The parts of a call that returns a booking.
  create_hold-parts :
      {b : Booking} {d : t.Store} {l : r.Store}
      → create_hold t r env draws q.trip q.seat q.user q.from q.to (s.rows, s.locks)
        ≡ (ok b, (d, l))
      → (is_empty q.user ≡ false)
        × (is_empty v ≡ false)
        × ((l' : r.Store) × (acquire_lock r v
                (lock_key q.trip q.seat)
                (or_default env.lock_ttl_ms 5000)
                s.locks
              ≡ (ok (some v), l')))
        × (hold_search t r env s q searched ≡ (ok true, s.rows))
        × (hold_insert t r env s q held ≡ (ok b, d))
  unfolding create_hold
  create_hold-parts {b} {d} e =
      elim (Outcome-cases
        (acquire_lock r v (lock_key q.trip q.seat) (or_default env.lock_ttl_ms 5000) s.locks)) [
          | inl (none, l', asked) ↦ absurd (ground arith)
          | inl (some w, l', asked) ↦
              let same : w ≡ v =
                acquire_lock-value r v (lock_key q.trip q.seat) (or_default env.lock_ttl_ms 5000)
                  s.locks asked in
              elim (Outcome-cases
                (check_and_hold t env draws q.trip q.seat q.user q.from q.to s.rows)) [
                  | inl (c, d', done) ↦
                      let b' : c ≡ b = ground arith in
                      let d'' : d' ≡ d = ground arith in
                      let (found, made) =
                        check_and_hold-available t env draws q.trip q.seat q.user q.from q.to s.rows
                          done in
                      (
                        ground arith,
                        rw (← same) (ground arith),
                        (l', cc),
                        found,
                        rw (← b', ← d'') made,
                      )
                  | inr (x, d', thrown) ↦ absurd (ground arith)
                ]
          | inr (x, l', thrown) ↦ absurd (ground arith)
        ]

  -- A `createHold` that returns a booking, whose readings of the clock are not ahead of it, leaves
  -- the rows as the timely steps of one request leave them: lock, search, insertion.
  pub create_hold-Reach :
      {b : Booking} {d : t.Store} {l : r.Store}
      → s.pc i ≡ idle
      → searched ≤ s.now
      → held ≤ s.now
      → create_hold t r env draws q.trip q.seat q.user q.from q.to (s.rows, s.locks)
        ≡ (ok b, (d, l))
      → (u : System t r env) × (re : Reach t r env s u) × IsTimelyRun t r env re
        × (u.rows ≡ d)
        × (u.pc i ≡ unlocking q v)
  create_hold-Reach {b} {d} at past past' e =
      let (known, named, (l', won), asked, made) = create_hold-parts e in
      let s₁ : System t r env = goes t r env (record s { locks = l' }) i (searching q v) in
      let s₂ : System t r env = goes t r env s₁ i (inserting q v) in
      let s₃ : System t r env = goes t r env (record s₂ { rows = d }) i (unlocking q v) in
      (
        s₃,
        next
            (next (next here (lock i q v at known named won refl))
              (search_free i q v searched (set_pc_self i (searching q v) s.pc) past asked refl))
            (insert i q v held (set_pc_self i (inserting q v) s₁.pc) past' made refl),
        (((tt, tt), tt), tt),
        refl,
        set_pc_self i (unlocking q v) s₂.pc,
      )

module _ (t : BookingTable) (r : Redis) (env : Env) (s : System t r env) (i : ℕ) (id : String) where
  -- Every step is of `confirmBooking` for the id, by request `i`.
  abbrev pub IsConfirmRun : {u : System t r env} → Reach t r env s u → Type 0
  IsConfirmRun here = Unit
  IsConfirmRun (next re (confirm_read j k x a b c e)) = IsConfirmRun re × ((j ≡ i) × (k ≡ id))
  IsConfirmRun (next re (confirm_live j k x a b e)) = IsConfirmRun re × ((j ≡ i) × (k ≡ id))
  IsConfirmRun (next re (confirm_write j k a b e)) = IsConfirmRun re × ((j ≡ i) × (k ≡ id))
  IsConfirmRun (next re st) = ⊥

  confirm_booking-parts :
      {b : Booking} {d : t.Store}
      → confirm_booking t s.now id s.rows ≡ (ok b, d)
      → (x : Booking) × (find_by_id t id s.rows ≡ (ok (some x), s.rows))
        × (is_pending x.status ≡ true)
        × (has_expired t s.now x.hold_expires_at ≡ false)
        × (update_status t id confirmed s.rows ≡ (ok b, d))
  unfolding confirm_booking
  confirm_booking-parts e = elim (Result-cases (t.find_first (λ b. b.id == id) s.rows)) [
    | inl (none, found) ↦ absurd (ground arith)
    | inl (some x, found) ↦ (x, ground arith, ground arith, ground arith, ground arith)
    | inr (y, thrown) ↦ absurd (ground arith)
  ]

  live-active :
      (x : Booking)
      → x.hold_expires_at ≢ some s.now
      → is_pending x.status ≡ true
      → has_expired t s.now x.hold_expires_at ≡ false
      → is_active s.now x ≡ true
  live-active x off p live = ground arith

  found_first :
      {x : Booking}
      → find_by_id t id s.rows ≡ (ok (some x), s.rows)
      → t.find_first (λ b. b.id == id) s.rows ≡ ok (some x)
  found_first e = ap (λ z. z.0) e

  -- A `confirmBooking` that returns a booking, called at another millisecond than that at which the
  -- hold of its booking ends, leaves the rows as timely steps of `confirmBooking` for this id, by this
  -- one request, leave them, which then has ended.
  pub confirm_booking-Reach :
      {b : Booking} {d : t.Store}
      → s.pc i ≡ idle
      → IsOffDeadline t s.now id s.rows
      → confirm_booking t s.now id s.rows ≡ (ok b, d)
      → (u : System t r env) × (re : Reach t r env s u) × IsTimelyRun t r env re
        × IsConfirmRun re
        × (u.rows ≡ d)
        × (u.pc i ≡ idle)
  confirm_booking-Reach {b} {d} at off e =
      let (x, found, p, live, made) = confirm_booking-parts e in
      let s₁ : System t r env = goes t r env s i (checking id x) in
      let s₂ : System t r env = goes t r env s₁ i (confirming id) in
      let s₃ : System t r env = goes t r env (record s₂ { rows = d }) i idle in
      (
        s₃,
        next
            (next (next here (confirm_read i id x at found p refl))
              (confirm_live i id x (set_pc_self i (checking id x) s.pc) live refl))
            (confirm_write i id (set_pc_self i (confirming id) s₁.pc) made refl),
        (
          ((tt, tt), tt),
          λ y there.
              let same : y ≡ x = cc (sym (t.find_first_ok _ s.rows (found_first found)), there) in
              live-active y (off y there) (rw same p) (rw same live),
        ),
        (((tt, (refl, refl)), (refl, refl)), (refl, refl)),
        refl,
        set_pc_self i idle s₂.pc,
      )
