-- ===== src/Booking/Hold.antt =====
-- The lock around `createHold`, and what a hold that is made looks like.
use billing_app_microservice.Prelude.{
  ℕ, ◌+◌, ◌*◌, nat_eq, if◌then◌else◌, String, true, false, none, some, List, [], ◌∷◌, ◌++◌, ◌≡◌,
  ◌≢◌, refl, arith, Option-cases, inl, inr, eq_iff, All,
}
use billing_app_microservice.Prelude.Js.{Number, is_empty}
use billing_app_microservice.Effect.{ok, err, Outcome-cases}
use billing_app_microservice.Utils.Errors.{conflict}
use billing_app_microservice.Platform.Redis.{Redis}
use billing_app_microservice.Booking.Model.{Booking, BookingTable, pending, same_id}
use billing_app_microservice.Booking.Lock.{acquire_lock, release_lock, release_script}
use billing_app_microservice.Booking.Repository.{create_booking}
use billing_app_microservice.Booking.Overlap.{IsJourney}
use billing_app_microservice.Booking.Exclusive.{IsExclusive}
use billing_app_microservice.Booking.Availability.{IsFree, check_availability-ok}
use billing_app_microservice.Booking.Safety.{check_and_hold-IsExclusive}
use billing_app_microservice.Booking.Service.{
  Env, Draws, new_hold, State, lock_key, check_availability, check_and_hold, create_hold,
  or_default,
}

module _ (r : Redis) where
  -- `releaseLock` answers true only after it has removed the caller's own lock.
  pub release_lock-true :
      (key v : String) (s : r.Store) {s' : r.Store}
      → release_lock r key v s ≡ (ok true, s')
      → (r.get key s ≡ some v) × (r.get key s' ≡ none)
  unfolding release_lock release_script
  release_lock-true key v s e = elim (Outcome-cases (r.eval (release_script r key v) s)) [
    | inl (n, s₁, ran) ↦ elim (Option-cases (r.get key s)) [
      | inl gone ↦ absurd (ground (arith, r.eval_ok (release_script r key v) s ran))
      | inr (w, held) ↦
          ground (arith, r.eval_ok (release_script r key v) s ran, eq_iff w v, r.del_self key s)
    ]
    | inr (x, s₁, thrown) ↦ absurd (ground arith)
  ]

  -- A lock that is another's, after the caller's own has expired, stays.
  pub release_lock-other :
      (key v w : String) (s : r.Store)
      → r.get key s ≡ some w
      → w ≢ v
      → (n : ℕ) {s' : r.Store} → r.eval (release_script r key v) s ≡ (ok n, s')
      → release_lock r key v s ≡ (ok false, s)
  unfolding release_lock release_script
  release_lock-other key v w s held other n e =
      ground (arith, r.eval_ok (release_script r key v) s e, eq_iff w v)

module _ (t : BookingTable) (r : Redis) where
  -- While another caller has the lock of the seat, `createHold` is refused with a conflict, and
  -- neither the table nor any lock changes.
  pub create_hold-busy :
      (env : Env) (draws : Draws) (trip seat user : String) (from to : Number) (s : State t r)
      → is_empty user ≡ false
      → acquire_lock r draws.lock_value (lock_key trip seat) (or_default env.lock_ttl_ms 5000) s.1
        ≡ (ok none, s.1)
      → create_hold t r env draws trip seat user from to s
        ≡ (err (conflict "This seat is being booked by someone else, please retry."), s)
  unfolding create_hold
  create_hold-busy env draws trip seat user from to s known lost = ground arith

  -- However `createHold` ends, the table has no double booking if it had none before.
  pub create_hold-IsExclusive :
      (env : Env) (draws : Draws) (trip seat user : String) (from to : Number) (s : State t r)
      → IsExclusive draws.searched_at (t.rows s.0)
      → IsExclusive draws.searched_at
          (t.rows (create_hold t r env draws trip seat user from to s).1.0)
  unfolding create_hold
  create_hold-IsExclusive env draws trip seat user from to s ex =
      ground (arith, check_and_hold-IsExclusive t env draws trip seat user from to s.0 ex)

-- How long a hold lasts: the setting, or five minutes where it is 0.
abbrev pub hold_minutes : Env → ℕ
hold_minutes env = if nat_eq env.hold_duration_minutes 0 then 5 else env.hold_duration_minutes

-- What a successful hold says of the rows before and after it, and of the booking returned.
pub record IsNewHold (env : Env) (draws : Draws) (trip seat user : String) (from to : Number)
    (before after : List Booking) (b : Booking) : Type 0 where
  pub free : IsFree draws.searched_at trip seat from to before
  pub forwards : IsJourney from to
  pub id : String
  pub row : b ≡ record {
    id = id;
    trip_id = trip;
    seat_id = seat;
    user_id = user;
    from_stop_seq = from;
    to_stop_seq = to;
    status = pending;
    hold_expires_at = some (draws.held_at + hold_minutes env * 60 * 1000);
  }
  pub fresh : All (λ x. same_id b x ≡ false) before
  pub stored : after ≡ before ++ b ∷ []

module _ (t : BookingTable) (env : Env) (draws : Draws) (trip seat user : String)
    (from to : Number) where
  pub check_and_hold-available :
      (s : t.Store) {b : Booking} {s' : t.Store}
      → check_and_hold t env draws trip seat user from to s ≡ (ok b, s')
      → (check_availability t draws.searched_at trip seat from to s ≡ (ok true, s))
        × (create_booking t (new_hold env draws.held_at trip seat user from to) s ≡ (ok b, s'))
  unfolding check_and_hold
  check_and_hold-available s e =
      elim (Outcome-cases (check_availability t draws.searched_at trip seat from to s)) [
        | inl (b, s₁, asked) ↦
            let (same, _, _) =
              check_availability-ok t draws.searched_at trip seat from to s asked in
            (ground arith, ground arith)
        | inr (x, s₁, thrown) ↦ absurd (ground arith)
      ]

  check_and_hold-ok :
      (s : t.Store) {b : Booking} {s' : t.Store}
      → check_and_hold t env draws trip seat user from to s ≡ (ok b, s')
      → IsNewHold env draws trip seat user from to (t.rows s) (t.rows s') b
  check_and_hold-ok s e =
      let (asked, made) = check_and_hold-available s e in
      let (_, forwards, spec) =
        check_availability-ok t draws.searched_at trip seat from to s asked in
      let (id, row, stored, fresh) = t.create_ok _ s made in
      record {
        free = spec.0 refl;
        forwards = forwards;
        id = id;
        row = row;
        fresh = fresh;
        stored = stored;
      }

  create_hold-held :
      (r : Redis) (s : State t r) {b : Booking} {s' : State t r}
      → create_hold t r env draws trip seat user from to s ≡ (ok b, s')
      → check_and_hold t env draws trip seat user from to s.0 ≡ (ok b, s'.0)
  unfolding create_hold
  create_hold-held r s e = ground arith

-- A hold that `createHold` returns is for a journey that runs forwards, on a seat that no row held
-- for an overlapping journey; it is exactly the one row that the table has gained, has an id that
-- no row had, is PENDING, and has the caller's data and the time of the call plus the hold's duration as its end.
pub create_hold-ok :
    (t : BookingTable) (r : Redis) (env : Env) (draws : Draws) (trip seat user : String)
    (from to : Number) (s : State t r) {b : Booking} {s' : State t r}
    → create_hold t r env draws trip seat user from to s ≡ (ok b, s')
    → IsNewHold env draws trip seat user from to (t.rows s.0) (t.rows s'.0) b
create_hold-ok t r env draws trip seat user from to s e =
    check_and_hold-ok t env draws trip seat user from to s.0
      (create_hold-held t env draws trip seat user from to r s e)
