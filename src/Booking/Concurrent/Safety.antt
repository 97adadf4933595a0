-- ===== src/Booking/Concurrent/Safety.antt =====
-- No double booking, whatever the order of the steps.
use billing_app_microservice.Prelude.{ℕ, ◌+◌, some, ◌≡◌, sym, ◌∙◌, ap, arith, if◌then◌else◌}
use billing_app_microservice.Platform.Redis.{Redis}
use billing_app_microservice.Booking.Model.{BookingTable, confirmed, failed, cancelled, expired}
use billing_app_microservice.Booking.Service.{Env, is_reason}
use billing_app_microservice.Booking.Exclusive.{IsExclusive, IsExclusive-later}
use billing_app_microservice.Booking.Concurrent.Free.{IsFree-later}
use billing_app_microservice.Booking.Concurrent.Inv.{Inv}
use billing_app_microservice.Booking.Concurrent.{
  idle, confirming, expiring, releasing, Lease, lease, System, Step, lock, lock_refused,
  search_free, search_refused, insert, unlock, confirm_read, confirm_live, confirm_late, checking,
  confirm_write, expire_write, release_read, release_write, stop, tick, lapse, IsTimely,
  IsTimelyRun, IsSpelledRun, Reach, here, next,
}
use billing_app_microservice.Booking.Concurrent.Steps.{
  Inv-quiet, Inv-lock, Inv-lock_refused, Inv-unlock, Inv-update, Inv-search_free,
  Inv-search_refused, Inv-insert,
}

module _ (t : BookingTable) (r : Redis) (env : Env) where
  Inv-tick :
      (s : System t r env) (n : ℕ) → Inv t r env s → Inv t r env (record s { now = s.now + n })
  Inv-tick s n inv = record {
    exclusive = IsExclusive-later s.now (s.now + n) (t.rows s.rows) (omega arith) inv.exclusive;
    held = inv.held;
    apart = inv.apart;
    free = λ i q v h.
        IsFree-later q.trip q.seat q.from q.to s.now (s.now + n) (t.rows s.rows) (omega arith)
          (inv.free i q v h);
  }

  Inv-lapse :
      (s : System t r env) (l : r.Store)
      → ((i : ℕ) (a : Lease) → lease (s.pc i) ≡ some a → r.get a.key l ≡ r.get a.key s.locks)
      → Inv t r env s
      → Inv t r env (record s { locks = l })
  Inv-lapse s l kept inv = record {
    exclusive = inv.exclusive;
    held = λ i a h. kept i a h ∙ inv.held i a h;
    apart = inv.apart;
    free = inv.free;
  }

  written : {A : Type 0} {a : A} {d : t.Store} (m : A × t.Store) → m ≡ (a, d) → d ≡ m.1
  written m e = ap (λ z. z.1) (sym e)

  -- Every timely step keeps the invariant.
  Step-Inv :
      {s u : System t r env} (st : Step t r env s u)
      → IsTimely t r env st
      → Inv t r env s
      → Inv t r env u
  Step-Inv {s} (lock i q v at known named won e) ti inv = rw e (Inv-lock t r env s i inv q v _ won)
  Step-Inv {s} (lock_refused i q v at lost e) ti inv =
      rw e (Inv-lock_refused t r env s i inv q v _ lost)
  Step-Inv {s} (search_free i q v read at past asked e) ti inv =
      rw e (Inv-search_free t r env s i inv q v read at past asked)
  Step-Inv {s} (search_refused i q v read at past asked ne e) ti inv =
      rw e (Inv-search_refused t r env s i inv q v read at asked)
  Step-Inv {s} (insert i q v held at past made e) ti inv =
      rw (e, written _ made) (Inv-insert t r env s i inv q v held at)
  Step-Inv {s} (unlock i q v at ran e) ti inv = rw e (Inv-unlock t r env s i inv q v at ran)
  Step-Inv {s} (confirm_read i id x at found p e) ti inv = rw e (
      Inv-quiet t r env s i inv (checking id x) (λ a h. absurd (ground arith))
        (λ q v f. absurd (ground arith)))
  Step-Inv {s} (confirm_live i id x at live e) ti inv = rw e (
      Inv-quiet t r env s i inv (confirming id) (λ a h. absurd (ground arith))
        (λ q v f. absurd (ground arith)))
  Step-Inv {s} (confirm_late i id x at late e) ti inv = rw e (
      Inv-quiet t r env s i inv (expiring id) (λ a h. absurd (ground arith))
        (λ q v f. absurd (ground arith)))
  Step-Inv {s} (confirm_write i id at made e) ti inv =
      rw (e, written _ made) (Inv-update t r env s i inv id confirmed (λ x found h. ti x found))
  Step-Inv {s} (expire_write i id at made e) ti inv =
      rw (e, written _ made)
        (Inv-update t r env s i inv id expired (λ x found h. absurd (ground arith)))
  Step-Inv {s} (release_read i id reason x at found why e) ti inv = rw e (
      Inv-quiet t r env s i inv (releasing id reason) (λ a h. absurd (ground arith))
        (λ q v f. absurd (ground arith)))
  Step-Inv {s} (release_write i id reason at made e) ti inv =
      rw (e, written _ made)
        (Inv-update t r env s i inv id
          (if is_reason t reason "PAYMENT_FAILED" then failed else cancelled)
          (λ x found h. absurd (ground arith)))
  Step-Inv {s} (stop i e) ti inv = rw e (
      Inv-quiet t r env s i inv idle (λ a h. absurd (ground arith))
        (λ q v f. absurd (ground arith)))
  Step-Inv {s} (tick n e) ti inv = rw e (Inv-tick s n inv)
  Step-Inv {s} (lapse l gone e) ti inv = rw e (Inv-lapse s l ti inv)

  Reach-Inv :
      {s u : System t r env} (re : Reach t r env s u)
      → IsTimelyRun t r env re
      → Inv t r env s
      → Inv t r env u
  Reach-Inv here timely inv = inv
  Reach-Inv (next re st) (timely, ti) inv = Step-Inv st ti (Reach-Inv re timely inv)

  start-Inv :
      (s : System t r env)
      → ((i : ℕ) → s.pc i ≡ idle)
      → IsExclusive s.now (t.rows s.rows)
      → Inv t r env s
  start-Inv s quiet ex = record {
    exclusive = ex;
    held = λ i a h. let at = quiet i in absurd (ground arith);
    apart = λ i j a b ne h g. let at = quiet i in absurd (ground arith);
    free = λ i q v h. let at = quiet i in absurd (ground arith);
  }

  -- From a table without a double booking, and with no request under way, no interleaving of any
  -- number of requests, with the clock and the expiry of locks, reaches a double booking, as long as
  -- no lock lapses before the request that took it has released it, CONFIRMED is written only while
  -- the booking still holds its seat, and the requests for holds spell the ids of trip and seat as
  -- canonical UUIDs.
  pub Reach-IsExclusive :
      (s u : System t r env)
      → ((i : ℕ) → s.pc i ≡ idle)
      → IsExclusive s.now (t.rows s.rows)
      → (re : Reach t r env s u) → IsTimelyRun t r env re
      → IsSpelledRun t r env re
      → IsExclusive u.now (t.rows u.rows)
  Reach-IsExclusive s u quiet ex re timely spelled =
      (Reach-Inv re timely (start-Inv s quiet ex)).exclusive
