-- ===== src/Booking/Service.antt =====
-- booking-service/src/services/booking.service.ts, `BookingService`
use Prim.Native.String.{◌++◌}
use billing_app_microservice.Prelude.{
  ℕ, ◌+◌, ◌*◌, String, Bool, false, not, ◌&&◌, ◌||◌, Option, none, some, map, ltb, nat_eq, ◌==◌,
  if◌then◌else◌,
}
use billing_app_microservice.Prelude.Js.{Number, num_le, is_nan, is_empty, show}
use billing_app_microservice.Effect.{Action, pure, throw, throw_if, or_throw, finally, ◌>>=◌, ◌>>◌}
use billing_app_microservice.Utils.Errors.{validation, not_found, conflict}
use billing_app_microservice.Platform.Redis.{Redis}
use billing_app_microservice.Booking.Model.{
  Booking, pending, confirmed, failed, cancelled, expired, status_name, is_pending, BookingTable,
}
use billing_app_microservice.Booking.Segments.{Segment, has_segment_conflict}
use billing_app_microservice.Booking.Repository.{
  NewBooking, find_active_bookings_for_seat, create_booking, find_by_id, update_status,
}
use billing_app_microservice.Booking.Lock.{acquire_lock, release_lock}

abbrev pub segment_of : Booking → Segment
segment_of b = record {
  from_seq = b.from_stop_seq;
  to_seq = b.to_stop_seq;
  status = status_name b.status;
}

-- The settings that the service reads from config/dotenv.ts, and its readings of the clock and of
-- `crypto.randomUUID` in one call of `createHold`.
pub record Env : Type 0 where
  pub hold_duration_minutes : ℕ
  pub lock_ttl_ms : ℕ

pub record Draws : Type 0 where
  pub lock_value : String
  pub searched_at : ℕ
  pub held_at : ℕ

-- `n || d`
abbrev pub or_default : ℕ → ℕ → ℕ
or_default n d = if nat_eq n 0 then d else n

abbrev pub hold_duration_ms : Env → ℕ
hold_duration_ms env = or_default env.hold_duration_minutes 5 * 60 * 1000

-- `!s` on a text or null: what passes is a text that is not empty.
abbrev pub present : Option String → Option String
present none = none
present (some s) = if is_empty s then none else some s

unfoldable pub lock_key : String → String → String
lock_key trip seat = "lock:trip:" ++ trip ++ ":seat:" ++ seat

abbrev pub new_hold : Env → ℕ → String → String → String → Number → Number → NewBooking
new_hold env now trip seat user from to = record {
  trip_id = trip;
  seat_id = seat;
  user_id = user;
  from_stop_seq = from;
  to_stop_seq = to;
  status = pending;
  hold_expires_at = some (now + hold_duration_ms env);
}

module _ (t : BookingTable) where
  unfoldable pub check_availability : ℕ → String → String → Number → Number → Action t.Store Bool
  check_availability now trip seat from to = do
    throw_if (is_empty trip || is_empty seat) (validation "tripId and seatId are required")
    throw_if (is_nan from || is_nan to)
        (validation "fromStopSeq and toStopSeq must be valid numbers")
    throw_if (num_le to from) (
        validation (
          "fromStopSeq ("
          ++ show from
          ++ ") must be strictly less than toStopSeq ("
          ++ show to
          ++ ")"))
    active ← find_active_bookings_for_seat t now trip seat
    pure (not (has_segment_conflict (map segment_of active) from to))

  abbrev pub has_expired : ℕ → Option ℕ → Bool
  has_expired now none = false
  has_expired now (some e) = ltb e now

  unfoldable pub confirm_booking : ℕ → String → Action t.Store Booking
  confirm_booking now id = do
    throw_if (is_empty id) (validation "Booking ID is required")
    found ← find_by_id t id
    booking ← or_throw found (not_found "Booking not found")
    throw_if (not (is_pending booking.status)) (
        conflict (
          "Cannot confirm booking with status "
          ++ status_name booking.status
          ++ ". Only PENDING bookings can be confirmed."))
    if has_expired now booking.hold_expires_at
        then (update_status t id expired
            >> throw (conflict "Booking hold has expired. The hold is no longer valid."))
        else update_status t id confirmed

  -- `none` is a reason that the caller left out.
  abbrev pub is_reason : Option String → String → Bool
  is_reason none s = false
  is_reason (some r) s = r == s

  unfoldable pub release_booking : String → Option String → Action t.Store Booking
  release_booking id reason = do
    throw_if (is_empty id) (validation "Booking ID is required")
    throw_if (not (is_reason reason "PAYMENT_FAILED") && not (is_reason reason "USER_CANCELLED"))
        (validation "Invalid release reason. Must be 'PAYMENT_FAILED' or 'USER_CANCELLED'")
    found ← find_by_id t id
    or_throw found (not_found "Booking not found")
    update_status t id (if is_reason reason "PAYMENT_FAILED" then failed else cancelled)

  -- The body of the `try`, inside the lock.
  unfoldable pub check_and_hold :
      Env → Draws → String → String → String → Number → Number → Action t.Store Booking
  check_and_hold env draws trip seat user from to = do
    available ← check_availability draws.searched_at trip seat from to
    throw_if (not available) (
        conflict (
          "Seat "
          ++ seat
          ++ " is not available for route segment "
          ++ show from
          ++ " -> "
          ++ show to))
    create_booking t (new_hold env draws.held_at trip seat user from to)

module _ (t : BookingTable) (r : Redis) where
  -- The database and the lock store.
  abbrev pub State : Type 0
  State = t.Store × r.Store

  abbrev pub on_db : {A : Type 0} → Action t.Store A → Action State A
  on_db m s = let (a, d) = m s.0 in (a, (d, s.1))

  abbrev pub on_locks : {A : Type 0} → Action r.Store A → Action State A
  on_locks m s = let (a, l) = m s.1 in (a, (s.0, l))

  unfoldable pub create_hold :
      Env → Draws → String → String → String → Number → Number → Action State Booking
  create_hold env draws trip seat user from to = do
    throw_if (is_empty user) (validation "userId is required to create a booking hold")
    let key = lock_key trip seat
    lock ← on_locks (acquire_lock r draws.lock_value key (or_default env.lock_ttl_ms 5000))
    lock_value ←
        or_throw (present lock)
          (conflict "This seat is being booked by someone else, please retry.")
    finally (on_db (check_and_hold t env draws trip seat user from to))
        (on_locks (release_lock r key lock_value))
