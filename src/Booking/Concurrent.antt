-- ===== src/Booking/Concurrent.antt =====
-- booking-service/src/services/booking.service.ts run by many requests at once, over one database and
-- one Redis. A step is one call of either, or one reading of the clock that is acted on; other
-- requests, the clock and the expiry of locks may come between. A request's number is its place in
-- `pc`.
pub mod Free
pub mod Inv
pub mod Locks
pub mod Steps
pub mod Safety
pub mod Runs
pub mod Races
mod Examples
use billing_app_microservice.Prelude.{
  ℕ, ◌+◌, ◌≤◌, String, Bool, true, false, not, Option, none, some, ◌≡◌, ◌≢◌, ◌⊎◌, nat_eq,
  if◌then◌else◌,
}
use billing_app_microservice.Prelude.Js.{Number, is_empty}
use billing_app_microservice.Effect.{Result, ok, err}
use billing_app_microservice.Platform.Redis.{Redis}
use billing_app_microservice.Platform.Table.{find}
use billing_app_microservice.Platform.Uuid.{is_uuid}
use billing_app_microservice.Booking.Model.{
  Booking, BookingTable, confirmed, failed, cancelled, expired, is_pending,
}
use billing_app_microservice.Booking.Lock.{acquire_lock, release_script}
use billing_app_microservice.Booking.Repository.{
  is_active, find_by_id, create_booking, update_status,
}
use billing_app_microservice.Booking.Service.{
  Env, new_hold, lock_key, or_default, check_availability, has_expired, is_reason,
}

pub record HoldRequest : Type 0 where
  pub trip : String
  pub seat : String
  pub user : String
  pub from : Number
  pub to : Number

-- Where a request stands: at which `await` of which operation.
pub data Pc : Type 0 where
  idle : Pc
  -- `createHold`: before the search, the insertion, and the release of the lock of value `v`
  searching : HoldRequest → (v : String) → Pc
  inserting : HoldRequest → (v : String) → Pc
  unlocking : HoldRequest → (v : String) → Pc
  -- `confirmBooking`: before the reading of the clock, with the row read; before the write of
  -- CONFIRMED, or of EXPIRED
  checking : String → Booking → Pc
  confirming : String → Pc
  expiring : String → Pc
  -- `releaseBooking`: before the write
  releasing : String → Option String → Pc

-- The lock that a request has taken and not yet released.
pub record Lease : Type 0 where
  pub key : String
  pub value : String

abbrev pub lease_of : HoldRequest → String → Lease
lease_of q v = record { key = lock_key q.trip q.seat; value = v }

abbrev pub lease : Pc → Option Lease
lease idle = none
lease (searching q v) = some (lease_of q v)
lease (inserting q v) = some (lease_of q v)
lease (unlocking q v) = some (lease_of q v)
lease (checking id x) = none
lease (confirming id) = none
lease (expiring id) = none
lease (releasing id reason) = none

abbrev pub set_pc : ℕ → Pc → (ℕ → Pc) → ℕ → Pc
set_pc i p pc j = if nat_eq j i then p else pc j

module _ (t : BookingTable) (r : Redis) (env : Env) where
  pub record System : Type 0 where
    pub now : ℕ
    pub rows : t.Store
    pub locks : r.Store
    pub pc : ℕ → Pc

  -- Request `i` goes on to `p`.
  abbrev pub goes : System → ℕ → Pc → System
  goes s i p = record s { pc = set_pc i p s.pc }

  -- `asked` and `held` are the readings of the clock for the query and for the new row.
  abbrev pub hold_search : System → HoldRequest → (asked : ℕ) → Result Bool × t.Store
  hold_search s q asked = check_availability t asked q.trip q.seat q.from q.to s.rows

  abbrev pub hold_insert : System → HoldRequest → (held : ℕ) → Result Booking × t.Store
  hold_insert s q held =
      create_booking t (new_hold env held q.trip q.seat q.user q.from q.to) s.rows

  pub data Step (s u : System) : Type 0 where
    -- `createHold`
    lock :
        (i : ℕ) (q : HoldRequest) (v : String) {l : r.Store}
        → s.pc i ≡ idle
        → is_empty q.user ≡ false
        → is_empty v ≡ false
        → acquire_lock r v (lock_key q.trip q.seat) (or_default env.lock_ttl_ms 5000) s.locks
          ≡ (ok (some v), l)
        → u ≡ goes (record s { locks = l }) i (searching q v)
        → Step s u
    lock_refused :
        (i : ℕ) (q : HoldRequest) (v : String) {l : r.Store}
        → s.pc i ≡ idle
        → acquire_lock r v (lock_key q.trip q.seat) (or_default env.lock_ttl_ms 5000) s.locks
          ≡ (ok none, l)
        → u ≡ goes (record s { locks = l }) i idle
        → Step s u
    search_free :
        (i : ℕ) (q : HoldRequest) (v : String) (asked : ℕ) {d : t.Store}
        → s.pc i ≡ searching q v
        → asked ≤ s.now
        → hold_search s q asked ≡ (ok true, d)
        → u ≡ goes (record s { rows = d }) i (inserting q v)
        → Step s u
    search_refused :
        (i : ℕ) (q : HoldRequest) (v : String) (asked : ℕ) {a : Result Bool} {d : t.Store}
        → s.pc i ≡ searching q v
        → asked ≤ s.now
        → hold_search s q asked ≡ (a, d)
        → a ≢ ok true
        → u ≡ goes (record s { rows = d }) i (unlocking q v)
        → Step s u
    insert :
        (i : ℕ) (q : HoldRequest) (v : String) (held : ℕ) {a : Result Booking} {d : t.Store}
        → s.pc i ≡ inserting q v
        → held ≤ s.now
        → hold_insert s q held ≡ (a, d)
        → u ≡ goes (record s { rows = d }) i (unlocking q v)
        → Step s u
    unlock :
        (i : ℕ) (q : HoldRequest) (v : String) {n : ℕ} {l : r.Store}
        → s.pc i ≡ unlocking q v
        → r.eval (release_script r (lock_key q.trip q.seat) v) s.locks ≡ (ok n, l)
        → u ≡ goes (record s { locks = l }) i idle
        → Step s u
    -- `confirmBooking`
    confirm_read :
        (i : ℕ) (id : String) (x : Booking)
        → s.pc i ≡ idle
        → find_by_id t id s.rows ≡ (ok (some x), s.rows)
        → is_pending x.status ≡ true
        → u ≡ goes s i (checking id x)
        → Step s u
    confirm_live :
        (i : ℕ) (id : String) (x : Booking)
        → s.pc i ≡ checking id x
        → has_expired t s.now x.hold_expires_at ≡ false
        → u ≡ goes s i (confirming id)
        → Step s u
    confirm_late :
        (i : ℕ) (id : String) (x : Booking)
        → s.pc i ≡ checking id x
        → has_expired t s.now x.hold_expires_at ≡ true
        → u ≡ goes s i (expiring id)
        → Step s u
    confirm_write :
        (i : ℕ) (id : String) {a : Result Booking} {d : t.Store}
        → s.pc i ≡ confirming id
        → update_status t id confirmed s.rows ≡ (a, d)
        → u ≡ goes (record s { rows = d }) i idle
        → Step s u
    expire_write :
        (i : ℕ) (id : String) {a : Result Booking} {d : t.Store}
        → s.pc i ≡ expiring id
        → update_status t id expired s.rows ≡ (a, d)
        → u ≡ goes (record s { rows = d }) i idle
        → Step s u
    -- `releaseBooking`
    release_read :
        (i : ℕ) (id : String) (reason : Option String) (x : Booking)
        → s.pc i ≡ idle
        → find_by_id t id s.rows ≡ (ok (some x), s.rows)
        → (is_reason t reason "PAYMENT_FAILED" ≡ true)
          ⊎ (is_reason t reason "USER_CANCELLED" ≡ true)
        → u ≡ goes s i (releasing id reason)
        → Step s u
    release_write :
        (i : ℕ) (id : String) (reason : Option String) {a : Result Booking} {d : t.Store}
        → s.pc i ≡ releasing id reason
        → update_status t id
            (if is_reason t reason "PAYMENT_FAILED" then failed else cancelled)
            s.rows
          ≡ (a, d)
        → u ≡ goes (record s { rows = d }) i idle
        → Step s u
    -- A request ends where it stands: its process stops, or a call throws and has done nothing. A
    -- call of Redis that was carried out and throws is its step and then this one.
    stop : (i : ℕ) → u ≡ goes s i idle → Step s u
    tick : (n : ℕ) → u ≡ record s { now = s.now + n } → Step s u
    -- Locks whose time is over are gone.
    lapse :
        (l : r.Store)
        → ((k : String) → (r.get k l ≡ r.get k s.locks) ⊎ (r.get k l ≡ none))
        → u ≡ record s { locks = l }
        → Step s u

  -- No lock lapses while the request that took it is still to release it; and CONFIRMED is written
  -- only while the booking holds its seat.
  abbrev pub IsTimely : {s u : System} → Step s u → Type 0
  IsTimely {s} (confirm_write i id _ _ _) =
      (x : Booking) → find (λ b. b.id) id (t.rows s.rows) ≡ some x → is_active s.now x ≡ true
  IsTimely {s} (lapse l _ _) =
      (i : ℕ) (a : Lease) → lease (s.pc i) ≡ some a → r.get a.key l ≡ r.get a.key s.locks
  IsTimely _ = Unit

  -- What can be reached by any steps.
  pub data Reach (s : System) : System → Type 0 where
    here : Reach s s
    next : {u w : System} → Reach s u → Step u w → Reach s w

  -- Each request for a hold that took its lock spelled the trip and the seat as PostgreSQL does. The
  -- key of the lock is made of the caller's texts, while the columns are compared as UUIDs.
  abbrev pub IsSpelledRun : {s u : System} → Reach s u → Type 0
  IsSpelledRun here = Unit
  IsSpelledRun (next re (lock i q v a b c d e)) =
      IsSpelledRun re × (is_uuid q.trip ≡ true) × (is_uuid q.seat ≡ true)
  IsSpelledRun (next re st) = IsSpelledRun re

  -- Every step of the run is timely.
  abbrev pub IsTimelyRun : {s u : System} → Reach s u → Type 0
  IsTimelyRun here = Unit
  IsTimelyRun (next re st) = IsTimelyRun re × IsTimely st
