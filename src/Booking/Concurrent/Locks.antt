-- ===== src/Booking/Concurrent/Locks.antt =====
-- What the calls of Redis do to the keys of other requests.
use billing_app_microservice.Prelude.{ℕ, String, true, false, none, some, ◌≡◌, ◌≢◌, inl, inr, arith}
use billing_app_microservice.Effect.{ok, Outcome-cases}
use billing_app_microservice.Platform.Redis.{Redis}
use billing_app_microservice.Booking.Lock.{acquire_lock, release_script}

module _ (r : Redis) where
  pub acquire_lock-won :
      (v key : String) (n : ℕ) (s : r.Store) {l : r.Store}
      → acquire_lock r v key n s ≡ (ok (some v), l)
      → (r.get key s ≡ none)
        × (r.get key l ≡ some v)
        × ((k : String) → k ≢ key → r.get k l ≡ r.get k s)
  unfolding acquire_lock
  acquire_lock-won v key n s {l} e = elim (Outcome-cases (r.set_nx key v n s)) [
    | inl (true, l', done) ↦
        let same : l' ≡ l = ground arith in rw (← same) (r.set_nx_won key v n s done)
    | inl (false, l', done) ↦ absurd (ground arith)
    | inr (x, l', thrown) ↦ absurd (ground arith)
  ]

  pub acquire_lock-lost :
      (v key : String) (n : ℕ) (s : r.Store) {l : r.Store}
      → acquire_lock r v key n s ≡ (ok none, l)
      → (k : String) → r.get k l ≡ r.get k s
  unfolding acquire_lock
  acquire_lock-lost v key n s {l} e k = elim (Outcome-cases (r.set_nx key v n s)) [
    | inl (true, l', done) ↦ absurd (ground arith)
    | inl (false, l', done) ↦
        let same : l' ≡ l = ground arith in rw (← same) ((r.set_nx_lost key v n s done).1 k)
    | inr (x, l', thrown) ↦ absurd (ground arith)
  ]

  pub release_script-other :
      (v key : String) (s : r.Store) {n : ℕ} {l : r.Store}
      → r.eval (release_script r key v) s ≡ (ok n, l)
      → (k : String) → k ≢ key
      → r.get k l ≡ r.get k s
  unfolding release_script
  release_script-other v key s {n} {l} e k ne =
      ground (arith, r.eval_ok (release_script r key v) s e, r.del_ne key k s ne)
