-- ===== src/Booking/SeatMap/Refine.antt =====
-- The operations of the service as operations on the seat map.
use billing_app_microservice.Prelude.{
  ℕ, ◌+◌, ◌≤◌, ◌<◌, String, true, false, ◌&&◌, Option, none, some, List, ◌≡◌, refl, inl, inr, arith,
  ltb, ◌==◌, if◌then◌else◌,
}
use billing_app_microservice.Prelude.Int.{ℤ}
use billing_app_microservice.Prelude.Js.{Number}
use billing_app_microservice.Effect.{ok, Result-cases}
use billing_app_microservice.Platform.Redis.{Redis}
use billing_app_microservice.Platform.Table.{write, find}
use billing_app_microservice.Booking.Model.{Booking, BookingStatus, BookingTable, failed, cancelled}
use billing_app_microservice.Booking.Repository.{is_active, booking_of, set_status, update_status}
use billing_app_microservice.Booking.Service.{
  Env, Draws, State, new_hold, hold_duration_ms, create_hold, confirm_booking, release_booking,
  is_reason,
}
use billing_app_microservice.Booking.Exclusive.{IsExclusive}
use billing_app_microservice.Booking.Hold.{create_hold-ok}
use billing_app_microservice.Booking.Confirm.{confirm_booking-ok}
use billing_app_microservice.Booking.SeatMap.{takes, seat_map, covers, IsOpen, reserve, give_back}
use billing_app_microservice.Booking.SeatMap.Rows.{
  any-append, IsFree-IsOpen, any-write_sold, any-write_idle,
}

-- `after` is `before` with the journey's legs taken, as long as the hold lasts.
pub record IsReserved (env : Env) (draws : Draws) (trip seat : String) (from to : Number)
    (before after : List Booking) : Type 0 where
  pub was_open : IsOpen trip seat from to (seat_map draws.searched_at before)
  pub while_held :
      (at : ℕ) (x y : String) (k : ℤ)
      → at < draws.held_at + hold_duration_ms env
      → seat_map at after x y k ≡ reserve trip seat from to (seat_map at before) x y k
  pub from_end_on :
      (at : ℕ) (x y : String) (k : ℤ)
      → draws.held_at + hold_duration_ms env ≤ at
      → seat_map at after x y k ≡ seat_map at before x y k

module _ (env : Env) (draws : Draws) (trip seat user id : String) (from to : Number) where
  abbrev hold : Booking
  hold = booking_of (new_hold env draws.held_at trip seat user from to) id

  takes-held :
      (at : ℕ) (x y : String) (k : ℤ)
      → at < draws.held_at + hold_duration_ms env
      → takes at x y k hold ≡ covers trip seat from to x y k
  takes-held at x y k h =
      let live : ltb at (draws.held_at + hold_duration_ms env) ≡ true = ground arith in
      rw live (ground arith)

  takes-ended :
      (at : ℕ) (x y : String) (k : ℤ)
      → draws.held_at + hold_duration_ms env ≤ at
      → takes at x y k hold ≡ false
  takes-ended at x y k h =
      let over : ltb at (draws.held_at + hold_duration_ms env) ≡ false = ground arith in
      rw over (ground arith)

-- A `createHold` that returns a booking reserves the journey on the seat map: every leg asked for was
-- open, and until the hold ends exactly those legs of that seat and trip are taken besides; from
-- the end of the hold on the map is as if it had not been.
pub create_hold-reserves :
    (t : BookingTable) (r : Redis) (env : Env) (draws : Draws) (trip seat user : String)
    (from to : Number) (s : State t r) {b : Booking} {s' : State t r}
    → create_hold t r env draws trip seat user from to s ≡ (ok b, s')
    → IsReserved env draws trip seat from to (t.rows s.0) (t.rows s'.0)
create_hold-reserves t r env draws trip seat user from to s e =
    let new = create_hold-ok t r env draws trip seat user from to s e in
    let after = new.stored in
    let row = new.row in
    record {
      was_open = IsFree-IsOpen draws.searched_at trip seat from to (t.rows s.0) new.free;
      while_held = λ at x y k h.
          rw
            (
              after,
              any-append (takes at x y k) (t.rows s.0),
              row,
              takes-held env draws trip seat user new.id from to at x y k h,
            )
            refl;
      from_end_on = λ at x y k h.
          rw
            (
              after,
              any-append (takes at x y k) (t.rows s.0),
              row,
              takes-ended env draws trip seat user new.id from to at x y k h,
            )
            (ground arith);
    }

-- A `confirmBooking` that returns a booking, on a table that has no double booking at the time of the
-- call, takes the legs of its journey for good: at every time the map is the one before with those
-- legs taken, whenever the hold would have ended.
pub confirm_booking-reserves :
    (t : BookingTable) (now : ℕ) (id : String) (s : t.Store) {b : Booking} {s' : t.Store}
    → IsExclusive now (t.rows s)
    → confirm_booking t now id s ≡ (ok b, s')
    → (at : ℕ) (x y : String) (k : ℤ)
    → seat_map at (t.rows s') x y k
      ≡ reserve b.trip_id b.seat_id b.from_stop_seq b.to_stop_seq (seat_map at (t.rows s)) x y k
confirm_booking-reserves t now id s ex e at x y k =
    let sold = confirm_booking-ok t now id s e in
    let stored = sold.stored in
    let answer = sold.answer in
    rw (stored, answer) (any-write_sold now at x y k id sold.was (t.rows s) sold.found ex)

module _ (t : BookingTable) where
  abbrev pub released_status : Option String → BookingStatus
  released_status reason = if is_reason t reason "PAYMENT_FAILED" then failed else cancelled

  released_status-idle :
      (reason : Option String) (now : ℕ) (x : Booking)
      → is_active now (set_status (released_status reason) x) ≡ false
  released_status-idle reason now x = ground arith

  pub release_booking-write :
      (id : String) (reason : Option String) (s : t.Store) {b : Booking} {s' : t.Store}
      → release_booking t id reason s ≡ (ok b, s')
      → (was : Booking) × (find (λ z. z.id) id (t.rows s) ≡ some was)
        × (b ≡ set_status (released_status reason) was)
        × (t.rows s' ≡ write (λ z. z.id) id (set_status (released_status reason)) (t.rows s))
  unfolding release_booking
  release_booking-write id reason s {b} {s'} e =
      elim (Result-cases (t.find_first (λ z. z.id == id) s)) [
        | inl (none, found) ↦ absurd (ground arith)
        | inl (some w, found) ↦
            let status = released_status reason in
            let made : update_status t id status s ≡ (ok b, s') = ground arith in
            let (was, there, answer, stored) = t.update_ok id (set_status status) s made in
            (was, there, answer, stored)
        | inr (y, thrown) ↦ absurd (ground arith)
      ]

  takes-covers :
      (now : ℕ) (x y : String) (k : ℤ) (w : Booking)
      → takes now x y k w
        ≡ (is_active now w && covers w.trip_id w.seat_id w.from_stop_seq w.to_stop_seq x y k)
  takes-covers now x y k w = ground arith

  -- A `releaseBooking` that returns a booking gives the legs of its journey back, where the table has
  -- no double booking: if the booking still held its seat then exactly those legs are open again, and
  -- if it did not then nothing changes.
  pub release_booking-gives_back :
      (now : ℕ) (id : String) (reason : Option String) (s : t.Store) {b : Booking} {s' : t.Store}
      → IsExclusive now (t.rows s)
      → release_booking t id reason s ≡ (ok b, s')
      → (was : Booking) × (find (λ z. z.id) id (t.rows s) ≡ some was)
        × ((x y : String) (k : ℤ)
            → seat_map now (t.rows s') x y k ≡ (
                if is_active now was
                then give_back b.trip_id b.seat_id b.from_stop_seq b.to_stop_seq
                    (seat_map now (t.rows s))
                    x
                    y
                    k
                else seat_map now (t.rows s) x y k))
  release_booking-gives_back now id reason s {b} ex e =
      let (was, there, answer, stored) = release_booking-write id reason s e in
      let status = released_status reason in
      (
        was,
        there,
        λ x y k.
            rw
              (
                stored,
                answer,
                any-write_idle now x y k status (released_status-idle reason now) id was (t.rows s)
                    there ex,
              )
              (ground (arith, takes-covers now x y k was)),
      )
