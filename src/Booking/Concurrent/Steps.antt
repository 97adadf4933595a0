-- ===== src/Booking/Concurrent/Steps.antt =====
-- Each step of a request keeps what holds between any two steps.
use billing_app_microservice.Prelude.{
  ℕ, ◌≤◌, String, Bool, true, none, some, ◌≡◌, ◌≢◌, refl, sym, ◌∙◌, ap, arith,
}
use billing_app_microservice.Effect.{Result, ok}
use billing_app_microservice.Platform.Redis.{Redis}
use billing_app_microservice.Platform.Table.{find}
use billing_app_microservice.Booking.Model.{Booking, BookingStatus, BookingTable}
use billing_app_microservice.Booking.Lock.{acquire_lock, release_script}
use billing_app_microservice.Booking.Repository.{update_status}
use billing_app_microservice.Booking.Service.{Env, lock_key}
use billing_app_microservice.Booking.Exclusive.{IsExclusive, IsDormant}
use billing_app_microservice.Booking.Availability.{IsFree, check_availability-ok}
use billing_app_microservice.Booking.Safety.{
  update_status-IsExclusive, create_booking-IsExclusive, check_availability-same,
}
use billing_app_microservice.Booking.Concurrent.Free.{
  IsFree-later, update_status-IsFree, create_booking-IsFree,
}
use billing_app_microservice.Booking.Concurrent.Inv.{Inv, Moved-Inv}
use billing_app_microservice.Booking.Concurrent.{
  HoldRequest, Pc, idle, searching, inserting, unlocking, Lease, lease_of, lease, System, goes,
  hold_search, hold_insert,
}
use billing_app_microservice.Booking.Concurrent.Locks.{
  acquire_lock-won, acquire_lock-lost, release_script-other,
}

module _ (t : BookingTable) (r : Redis) (env : Env) (s : System t r env) (i : ℕ)
    (inv : Inv t r env s) where
  -- A request that has or drops its lease, and writes rows.
  Inv-rows :
      (p : Pc) (d : t.Store)
      → ((a : Lease) → lease p ≡ some a → lease (s.pc i) ≡ some a)
      → IsExclusive s.now (t.rows d)
      → ((q : HoldRequest) (v : String)
          → p ≡ inserting q v
          → IsFree s.now q.trip q.seat q.from q.to (t.rows d))
      → ((j : ℕ) (q : HoldRequest) (v : String)
          → j ≢ i
          → s.pc j ≡ inserting q v
          → IsFree s.now q.trip q.seat q.from q.to (t.rows d))
      → Inv t r env (goes t r env (record s { rows = d }) i p)
  Inv-rows p d kept ex mine others =
      Moved-Inv t r env s _ i p (λ j. refl) inv
        (record {
          exclusive = ex;
          own = λ a h. inv.held i a (kept a h);
          kept = λ j a ne h. inv.held j a h;
          new = λ j a b ne h g. inv.apart i j a b (λ e. ne (sym e)) (kept a h) g;
          mine = mine;
          others = others;
        })

  -- A request that changes nothing but its own place.
  pub Inv-quiet :
      (p : Pc)
      → ((a : Lease) → lease p ≡ some a → lease (s.pc i) ≡ some a)
      → ((q : HoldRequest) (v : String)
          → p ≡ inserting q v
          → IsFree s.now q.trip q.seat q.from q.to (t.rows s.rows))
      → Inv t r env (goes t r env s i p)
  Inv-quiet p kept mine = Inv-rows p s.rows kept inv.exclusive mine (λ j q v ne h. inv.free j q v h)

  -- The key of a free lock is no request's.
  untaken :
      (key : String)
      → r.get key s.locks ≡ none
      → (j : ℕ) (a : Lease) → lease (s.pc j) ≡ some a
      → a.key ≢ key
  untaken key empty j a h e = let there = inv.held j a h in cc

  pub Inv-lock :
      (q : HoldRequest) (v : String) (n : ℕ) {l : r.Store}
      → acquire_lock r v (lock_key q.trip q.seat) n s.locks ≡ (ok (some v), l)
      → Inv t r env (goes t r env (record s { locks = l }) i (searching q v))
  Inv-lock q v n {l} won =
      let key = lock_key q.trip q.seat in
      let (empty, mine, frame) = acquire_lock-won r v key n s.locks won in
      Moved-Inv t r env s _ i (searching q v) (λ j. refl) inv
        (record {
          exclusive = inv.exclusive;
          own = λ a h. let e : lease_of q v ≡ a = cc in rw (← e) mine;
          kept = λ j a ne h. frame a.key (untaken key empty j a h) ∙ inv.held j a h;
          new = λ j a b ne h g e. let f : lease_of q v ≡ a = cc in untaken key empty j b g (cc);
          mine = λ q' v' e. absurd (ground arith);
          others = λ j q' v' ne h. inv.free j q' v' h;
        })

  pub Inv-lock_refused :
      (q : HoldRequest) (v : String) (n : ℕ) {l : r.Store}
      → acquire_lock r v (lock_key q.trip q.seat) n s.locks ≡ (ok none, l)
      → Inv t r env (goes t r env (record s { locks = l }) i idle)
  Inv-lock_refused q v n {l} lost =
      let frame = acquire_lock-lost r v (lock_key q.trip q.seat) n s.locks lost in
      Moved-Inv t r env s _ i idle (λ j. refl) inv
        (record {
          exclusive = inv.exclusive;
          own = λ a h. absurd (ground arith);
          kept = λ j a ne h. frame a.key ∙ inv.held j a h;
          new = λ j a b ne h g. absurd (ground arith);
          mine = λ q' v' e. absurd (ground arith);
          others = λ j q' v' ne h. inv.free j q' v' h;
        })

  pub Inv-unlock :
      (q : HoldRequest) (v : String) {n : ℕ} {l : r.Store}
      → s.pc i ≡ unlocking q v
      → r.eval (release_script r (lock_key q.trip q.seat) v) s.locks ≡ (ok n, l)
      → Inv t r env (goes t r env (record s { locks = l }) i idle)
  Inv-unlock q v {n} {l} at ran =
      let frame = release_script-other r v (lock_key q.trip q.seat) s.locks ran in
      Moved-Inv t r env s _ i idle (λ j. refl) inv
        (record {
          exclusive = inv.exclusive;
          own = λ a h. absurd (ground arith);
          kept = λ j a ne h.
              frame a.key (λ e. inv.apart j i a (lease_of q v) ne h (rw at refl) e)
              ∙ inv.held j a h;
          new = λ j a b ne h g. absurd (ground arith);
          mine = λ q' v' e. absurd (ground arith);
          others = λ j q' v' ne h. inv.free j q' v' h;
        })

  -- A change of status that wakes no row.
  pub Inv-update :
      (id : String) (status : BookingStatus)
      → ((x : Booking) → find (λ b. b.id) id (t.rows s.rows) ≡ some x → IsDormant s.now status x)
      → Inv t r env (goes t r env (record s { rows = (update_status t id status s.rows).1 }) i idle)
  Inv-update id status dormant =
      Inv-rows idle _ (λ a h. absurd (ground arith))
        (update_status-IsExclusive t s.now status id s.rows dormant inv.exclusive)
        (λ q v e. absurd (ground arith))
        (λ j q v ne h.
          update_status-IsFree q.trip q.seat q.from q.to t s.now status id s.rows dormant
            inv.exclusive (inv.free j q v h))

  pub Inv-search_free :
      (q : HoldRequest) (v : String) (read : ℕ) {d : t.Store}
      → s.pc i ≡ searching q v
      → read ≤ s.now
      → hold_search t r env s q read ≡ (ok true, d)
      → Inv t r env (goes t r env (record s { rows = d }) i (inserting q v))
  Inv-search_free q v read {d} at past asked =
      let (same, _, spec) = check_availability-ok t read q.trip q.seat q.from q.to s.rows asked in
      rw same (
        Inv-quiet (inserting q v) (λ a h. rw at h)
          (λ q' v' e.
            let f : q ≡ q' = ground arith in
            rw (← f) (
              IsFree-later q.trip q.seat q.from q.to read s.now (t.rows s.rows) past
                (spec.0 refl))))

  pub Inv-search_refused :
      (q : HoldRequest) (v : String) (read : ℕ) {a : Result Bool} {d : t.Store}
      → s.pc i ≡ searching q v
      → hold_search t r env s q read ≡ (a, d)
      → Inv t r env (goes t r env (record s { rows = d }) i (unlocking q v))
  Inv-search_refused q v read {a} {d} at asked =
      let same : d ≡ s.rows =
        sym (ap (λ z. z.1) asked)
        ∙ check_availability-same t read q.trip q.seat q.from q.to s.rows in
      rw same (Inv-quiet (unlocking q v) (λ b h. rw at h) (λ q' v' e. absurd (ground arith)))

  pub Inv-insert :
      (q : HoldRequest) (v : String) (held : ℕ)
      → s.pc i ≡ inserting q v
      → Inv t r env
          (goes t r env (record s { rows = (hold_insert t r env s q held).1 }) i (unlocking q v))
  Inv-insert q v held at =
      Inv-rows (unlocking q v) _ (λ a h. rw at h)
        (create_booking-IsExclusive t env s.now held q.trip q.seat q.user q.from q.to s.rows
          (inv.free i q v at) inv.exclusive)
        (λ q' v' e. absurd (ground arith))
        (λ j q' v' ne h.
          create_booking-IsFree q'.trip q'.seat q'.from q'.to t env s.now held q.trip q.seat q.user
            q.from q.to s.rows
            (inv.apart i j (lease_of q v) (lease_of q' v') (λ e. ne (sym e)) (rw at refl)
              (rw h refl))
            (inv.free j q' v' h))
