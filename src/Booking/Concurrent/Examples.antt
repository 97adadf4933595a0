-- ===== src/Booking/Concurrent/Examples.antt =====
-- Interleavings of requests on the tables in memory.
use billing_app_microservice.Prelude.{String, some, [], ◌∷◌, ◌≡◌, ◌≢◌, refl, arith}
use billing_app_microservice.Prelude.Js.{number, trim, to_upper_case, show_ℕ}
use billing_app_microservice.Effect.{ok}
use billing_app_microservice.Platform.Memory.{locks}
use billing_app_microservice.Platform.Uuid.{is_uuid, has_shape}
use billing_app_microservice.Booking.Model.{Booking, confirmed}
use billing_app_microservice.Booking.Segments.{is_blocking, has_segment_conflict}
use billing_app_microservice.Booking.Lock.{acquire_lock, release_lock, release_script}
use billing_app_microservice.Booking.Repository.{booking_of, set_status}
use billing_app_microservice.Booking.Service.{
  Env, new_hold, lock_key, check_availability, check_and_hold, create_hold, confirm_booking,
}
use billing_app_microservice.Booking.Exclusive.{IsExclusive}
use billing_app_microservice.Booking.Concurrent.{
  HoldRequest, idle, searching, inserting, unlocking, System, goes, lock, search_free, insert,
  Reach, IsTimelyRun, here, next,
}
use billing_app_microservice.Booking.Concurrent.Safety.{Reach-IsExclusive}
use billing_app_microservice.Booking.Concurrent.Runs.{
  create_hold-Reach, IsConfirmRun, confirm_booking-Reach,
}
use billing_app_microservice.Booking.Concurrent.Races.{
  table, IsSound, quiet, HasNoLapse, HasHoldsOnly, cancelled_then_confirmed, lapsed_then_held,
}

abbrev env : Env
env = record { hold_duration_minutes = 5; lock_ttl_ms = 5000 }

abbrev trip_id : String
trip_id = "6f1f9a52-4a0b-4c55-9d4e-3d1f0a8b7c01"

abbrev seat_id : String
seat_id = "6f1f9a52-4a0b-4c55-9d4e-3d1f0a8b7c02"

abbrev other_seat_id : String
other_seat_id = "6f1f9a52-4a0b-4c55-9d4e-3d1f0a8b7c03"

abbrev request : HoldRequest
request = record { trip = trip_id; seat = seat_id; user = "U"; from = number 3; to = number 5 }

abbrev other_request : HoldRequest
other_request = record request { seat = other_seat_id; user = "V" }

abbrev hold : Booking
hold = booking_of (new_hold env 100 trip_id seat_id "U" (number 3) (number 5)) "0"

abbrev other_hold : Booking
other_hold = booking_of (new_hold env 100 trip_id other_seat_id "V" (number 3) (number 5)) "1"

-- Two requests take turns: each has its lock before the other searches.
abbrev both_locked : System table locks env
both_locked =
    goes table locks env
      (record (goes table locks env
        (record (quiet env 100 request []) { locks = (lock_key trip_id seat_id, "V0") ∷ [] }) 0
        (searching request "V0")) {
          locks = (lock_key trip_id other_seat_id, "V1") ∷ (lock_key trip_id seat_id, "V0") ∷ [];
        })
      1 (searching other_request "V1")

both_locked-Reach :
    (re : Reach table locks env (quiet env 100 request []) both_locked) × IsTimelyRun table locks
      env re
unfolding acquire_lock lock_key
both_locked-Reach = (
  next (next here (lock 0 request "V0" refl refl refl refl refl))
      (lock 1 other_request "V1" refl refl refl refl refl),
  ((tt, tt), tt),
)

abbrev both_found : System table locks env
both_found =
    goes table locks env (goes table locks env both_locked 1 (inserting other_request "V1")) 0
      (inserting request "V0")

both_found-Reach :
    (re : Reach table locks env (quiet env 100 request []) both_found) × IsTimelyRun table locks env
      re
unfolding check_availability has_segment_conflict
both_found-Reach = (
  next
      (next both_locked-Reach.0 (search_free 1 other_request "V1" 100 refl (omega arith) refl refl))
      (search_free 0 request "V0" 100 refl (omega arith) refl refl),
  ((both_locked-Reach.1, tt), tt),
)

abbrev both_held : System table locks env
both_held =
    goes table locks env
      (record (goes table locks env (record both_found { rows = hold ∷ [] }) 0
        (unlocking request "V0")) { rows = hold ∷ other_hold ∷ [] })
      1 (unlocking other_request "V1")

both_held-Reach :
    (re : Reach table locks env (quiet env 100 request []) both_held) × IsTimelyRun table locks env
      re
unfolding show_ℕ
both_held-Reach = (
  next (next both_found-Reach.0 (insert 0 request "V0" 100 refl (omega arith) refl refl))
      (insert 1 other_request "V1" 100 refl (omega arith) refl refl),
  ((both_found-Reach.1, tt), tt),
)

Reach-IsExclusive_example : IsExclusive 100 (hold ∷ other_hold ∷ [])
unfolding is_uuid has_shape both_held-Reach both_found-Reach both_locked-Reach
Reach-IsExclusive_example =
    Reach-IsExclusive table locks env (quiet env 100 request []) both_held (λ i. refl) tt
      both_held-Reach.0 both_held-Reach.1 ((tt, refl, refl), refl, refl)

created :
    create_hold table locks env
      (record { lock_value = "V"; searched_at = 100; held_at = 100 })
      trip_id
      seat_id
      "U"
      (number 3)
      (number 5)
      ([], [])
    ≡ (ok hold, (hold ∷ [], []))
unfolding create_hold check_and_hold check_availability has_segment_conflict is_blocking
    to_upper_case acquire_lock release_lock release_script lock_key show_ℕ trim
created = refl

create_hold-Reach_example :
    (u : System table locks env) × (re : Reach table locks env (quiet env 100 request []) u)
    × IsTimelyRun table locks env re
    × (u.rows ≡ (hold ∷ []))
    × (u.pc 0 ≡ unlocking request "V")
create_hold-Reach_example =
    create_hold-Reach table locks env (quiet env 100 request []) 0 request "V" 100 100 refl
      (omega arith) (omega arith) created

off : (x : Booking) → some hold ≡ some x → x.hold_expires_at ≢ some 100
off x found same = absurd (ground arith)

confirmed_hold :
    confirm_booking table 100 "0" (hold ∷ [])
    ≡ (ok (set_status confirmed hold), set_status confirmed hold ∷ [])
unfolding confirm_booking
confirmed_hold = refl

confirm_booking-Reach_example :
    (u : System table locks env) × (re : Reach table locks env
      (quiet env 100 request (hold ∷ []))
      u)
    × IsTimelyRun table locks env re
    × IsConfirmRun table locks env (quiet env 100 request (hold ∷ [])) 0 "0" re
    × (u.rows ≡ (set_status confirmed hold ∷ []))
    × (u.pc 0 ≡ idle)
confirm_booking-Reach_example =
    confirm_booking-Reach table locks env (quiet env 100 request (hold ∷ [])) 0 "0" refl off
      confirmed_hold

request-IsSound : IsSound request 3 5
request-IsSound = record {
  trip = refl;
  seat = refl;
  user = refl;
  from = refl;
  to = refl;
  forwards = ground arith;
}

cancelled_then_confirmed_example :
    (u : System table locks env) × (re : Reach table locks env
      (quiet env 100 request (hold ∷ []))
      u)
    × HasNoLapse table locks env re
    × (u.rows ≡ set_status confirmed hold ∷ record hold { id = "1" } ∷ [])
    × (¬ IsExclusive u.now u.rows)
cancelled_then_confirmed_example = cancelled_then_confirmed env 100 request 3 5 request-IsSound

lapsed_then_held_example :
    (u : System table locks env) × (re : Reach table locks env (quiet env 100 request []) u)
    × HasHoldsOnly table locks env re
    × (u.rows ≡ hold ∷ record hold { id = "1" } ∷ [])
    × (¬ IsExclusive u.now u.rows)
lapsed_then_held_example = lapsed_then_held env 100 request 3 5 request-IsSound
