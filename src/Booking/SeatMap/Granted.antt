-- ===== src/Booking/SeatMap/Granted.antt =====
-- A seat that is open on the map is granted.
use mathlib.Core.Bool.{and-eq-true_iff}
use billing_app_microservice.Prelude.{
  ℕ, String, Bool, true, false, not, map, some, List, [], ◌∷◌, ◌≡◌, refl, inl, inr, arith,
  Bool-cases,
}
use billing_app_microservice.Prelude.Int.{ℤ}
use billing_app_microservice.Prelude.Js.{Number, nan, num, is_empty}
use billing_app_microservice.Effect.{ok}
use billing_app_microservice.Platform.Redis.{Redis}
use billing_app_microservice.Booking.Model.{Booking, BookingTable}
use billing_app_microservice.Booking.Segments.{overlaps, has_segment_conflict}
use billing_app_microservice.Booking.Lock.{acquire_lock, release_lock}
use billing_app_microservice.Booking.Repository.{is_active_for, create_booking}
use billing_app_microservice.Booking.Service.{
  Env, Draws, State, segment_of, new_hold, lock_key, or_default, check_availability, check_and_hold,
  create_hold,
}
use billing_app_microservice.Booking.Overlap.{Leg, IsJourney, shared}
use billing_app_microservice.Booking.Availability.{occupies, IsFree, check_availability-ok}
use billing_app_microservice.Booking.SeatMap.{takes, seat_map, IsOpen}
use billing_app_microservice.Booking.SeatMap.Rows.{on_leg-Leg}
use billing_app_microservice.Booking.Forwards.{IsForwards}

module _ (now : ℕ) (trip seat : String) (from to : Number) (h : IsJourney from to) where
  taken-Leg :
      (x : Booking)
      → IsJourney x.from_stop_seq x.to_stop_seq
      → occupies now trip seat from to x ≡ true
      → (k : ℤ) × Leg k from to × (takes now trip seat k x ≡ true)
  taken-Leg x run e =
      let (active, over) =
        (and-eq-true_iff (is_active_for now trip seat x) (overlaps (segment_of x) from to)).0 e in
      let (k, own, asked) = shared (segment_of x) from to over run h in
      (k, asked, rw (active, on_leg-Leg k x.from_stop_seq x.to_stop_seq own) refl)

  open_head :
      (x : Booking) (xs : List Booking)
      → IsOpen trip seat from to (seat_map now (x ∷ xs))
      → IsJourney x.from_stop_seq x.to_stop_seq
      → occupies now trip seat from to x ≡ false
  open_head x xs free run = elim (Bool-cases (occupies now trip seat from to x)) [
    | inl busy ↦
        let (k, leg, taken) = taken-Leg x run busy in
        let not_taken = free k leg in absurd (ground arith)
    | inr idle ↦ idle
  ]

  pub IsOpen-IsFree :
      (xs : List Booking)
      → IsForwards xs
      → IsOpen trip seat from to (seat_map now xs)
      → IsFree now trip seat from to xs
  IsOpen-IsFree [] run free = tt
  IsOpen-IsFree (x ∷ xs) (r, run) free =
      (open_head x xs free r, IsOpen-IsFree xs run (λ k leg. let c = free k leg in ground arith))

module _ (t : BookingTable) where
  -- The answer, once the search of the table has been answered.
  check_availability-answered :
      (now : ℕ) (trip seat : String) (from to : Number) (s : t.Store) {xs : List Booking}
      → is_empty trip ≡ false
      → is_empty seat ≡ false
      → IsJourney from to
      → t.find_many (is_active_for now trip seat) s ≡ ok xs
      → (b : Bool) × (check_availability t now trip seat from to s ≡ (ok b, s))
  unfolding check_availability
  check_availability-answered now trip seat nan to s e f h found = absurd (ground arith)
  check_availability-answered now trip seat (num a) nan s e f h found = absurd (ground arith)
  check_availability-answered now trip seat (num a) (num b) s {xs} e f h found =
      (not (has_segment_conflict (map segment_of xs) (num a) (num b)), ground arith)

  check_availability-open :
      (now : ℕ) (trip seat : String) (from to : Number) (s : t.Store) {xs : List Booking}
      → is_empty trip ≡ false
      → is_empty seat ≡ false
      → IsJourney from to
      → t.find_many (is_active_for now trip seat) s ≡ ok xs
      → IsFree now trip seat from to (t.rows s)
      → check_availability t now trip seat from to s ≡ (ok true, s)
  check_availability-open now trip seat from to s e f h found free =
      let (b, asked) = check_availability-answered now trip seat from to s e f h found in
      let (_, _, spec) = check_availability-ok t now trip seat from to s asked in
      let yes : b ≡ true = spec.1 free in rw yes at asked

-- An open journey is granted: if a caller names a trip, a seat and itself, the journey runs forwards
-- and every leg of it is open on the seat map, no one has the seat's lock, and the two calls of the
-- database answer, then `createHold` returns the booking that the database has made.
pub create_hold-granted :
    (t : BookingTable) (r : Redis) (env : Env) (draws : Draws) (trip seat user : String)
    (from to : Number) (s : State t r) {l : r.Store} {xs : List Booking} {b : Booking} {d : t.Store}
    → is_empty trip ≡ false
    → is_empty seat ≡ false
    → is_empty user ≡ false
    → is_empty draws.lock_value ≡ false
    → IsJourney from to
    → IsForwards (t.rows s.0)
    → IsOpen trip seat from to (seat_map draws.searched_at (t.rows s.0))
    → acquire_lock r draws.lock_value (lock_key trip seat) (or_default env.lock_ttl_ms 5000) s.1
      ≡ (ok (some draws.lock_value), l)
    → t.find_many (is_active_for draws.searched_at trip seat) s.0 ≡ ok xs
    → create_booking t (new_hold env draws.held_at trip seat user from to) s.0 ≡ (ok b, d)
    → create_hold t r env draws trip seat user from to s
      ≡ (ok b, (d, (release_lock r (lock_key trip seat) draws.lock_value l).1))
unfolding create_hold check_and_hold release_lock
create_hold-granted t r env draws trip seat user from to s e f g v h run free won found made =
    let open_seat = IsOpen-IsFree draws.searched_at trip seat from to h (t.rows s.0) run free in
    let asked =
      check_availability-open t draws.searched_at trip seat from to s.0 e f h found open_seat in
    ground arith
