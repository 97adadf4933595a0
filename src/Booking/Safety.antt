-- ===== src/Booking/Safety.antt =====
-- Each operation of the booking service keeps the table free of double bookings.
use billing_app_microservice.Prelude.{
  List, [], ◌∷◌, ◌++◌, All, ℕ, String, true, false, Option, none, some, ◌≡◌, ◌≢◌, sym, arith,
  All-both, inl, inr, eq_iff, ◌==◌,
}
use billing_app_microservice.Prelude.Js.{Number}
use billing_app_microservice.Effect.{Result-cases, Outcome-cases}
use billing_app_microservice.Platform.Table.{find}
use billing_app_microservice.Booking.Model.{
  Booking, BookingStatus, BookingTable, same_id, confirmed, failed, cancelled, expired, is_pending,
}
use billing_app_microservice.Booking.Repository.{
  booking_of, set_status, update_status, create_booking,
}
use billing_app_microservice.Booking.Exclusive.{
  meets, Compatible, IsExclusive, IsDormant, write-IsExclusive, append-IsExclusive,
}
use billing_app_microservice.Booking.Availability.{occupies, IsFree, check_availability-ok}
use billing_app_microservice.Booking.Service.{
  Env, Draws, new_hold, check_availability, check_and_hold, confirm_booking, release_booking,
  has_expired,
}

module _ (env : Env) (now held : ℕ) (trip seat user id : String) (from to : Number) where
  occupies-Compatible :
      (x : Booking)
      → occupies now trip seat from to x ≡ false
      → same_id (booking_of (new_hold env held trip seat user from to) id) x ≡ false
      → Compatible now x (booking_of (new_hold env held trip seat user from to) id)
  unfolding meets
  occupies-Compatible x free other = record {
    other_id = λ e. ground (arith, eq_iff id x.id);
    apart = ground arith;
  }

-- A new hold of a free journey, with an id of its own.
hold-IsExclusive :
    (env : Env) (now held : ℕ) (trip seat user id : String) (from to : Number) (xs : List Booking)
    → IsFree now trip seat from to xs
    → All (λ x. same_id (booking_of (new_hold env held trip seat user from to) id) x ≡ false) xs
    → IsExclusive now xs
    → IsExclusive now (xs ++ booking_of (new_hold env held trip seat user from to) id ∷ [])
hold-IsExclusive env now held trip seat user id from to xs free fresh ex =
    append-IsExclusive now _ xs
      (All-both (λ x f o. occupies-Compatible env now held trip seat user id from to x f o) xs free
        fresh)
      ex

module _ (t : BookingTable) where
  pub check_availability-same :
      (now : ℕ) (trip seat : String) (from to : Number) (s : t.Store)
      → (check_availability t now trip seat from to s).1 ≡ s
  unfolding check_availability
  check_availability-same now trip seat from to s = ground arith

  pub update_status-IsExclusive :
      (now : ℕ) (status : BookingStatus) (id : String) (s : t.Store)
      → ((x : Booking) → find (λ b. b.id) id (t.rows s) ≡ some x → IsDormant now status x)
      → IsExclusive now (t.rows s)
      → IsExclusive now (t.rows (update_status t id status s).1)
  update_status-IsExclusive now status id s dormant ex =
      elim (Outcome-cases (update_status t id status s)) [
        | inl (r, s', done) ↦
            let (x, found, _, wrote) = t.update_ok id (set_status status) s done in
            rw (done, wrote)
              (write-IsExclusive now status x id (t.rows s) found (dormant x found) ex)
        | inr (e, s', thrown) ↦ elim (t.update_err id (set_status status) s thrown) [
          | inl kept ↦ rw (thrown, kept) ex
          | inr (x, found, wrote) ↦
              rw (thrown, wrote)
                (write-IsExclusive now status x id (t.rows s) found (dormant x found) ex)
        ]
      ]

  -- `releaseBooking` keeps the table exclusive, however it ends.
  pub release_booking-IsExclusive :
      (now : ℕ) (id : String) (reason : Option String) (s : t.Store)
      → IsExclusive now (t.rows s)
      → IsExclusive now (t.rows (release_booking t id reason s).1)
  unfolding release_booking
  release_booking-IsExclusive now id reason s ex = ground (
    arith,
    update_status-IsExclusive now failed id s (λ x e d. cc) ex,
    update_status-IsExclusive now cancelled id s (λ x e d. cc) ex,
  )

  pub create_booking-IsExclusive :
      (env : Env) (now held : ℕ) (trip seat user : String) (from to : Number) (s : t.Store)
      → IsFree now trip seat from to (t.rows s)
      → IsExclusive now (t.rows s)
      → IsExclusive now (t.rows (create_booking t (new_hold env held trip seat user from to) s).1)
  create_booking-IsExclusive env now held trip seat user from to s free ex =
      elim (Outcome-cases (create_booking t (new_hold env held trip seat user from to) s)) [
        | inl (r, s', done) ↦
            let (id, made, wrote, fresh) = t.create_ok _ s done in
            rw (done, wrote, made)
              (hold-IsExclusive env now held trip seat user id from to (t.rows s) free
                (rw made at fresh) ex)
        | inr (e, s', thrown) ↦ elim (t.create_err _ s thrown) [
          | inl kept ↦ rw (thrown, kept) ex
          | inr (id, wrote, fresh) ↦
              rw (thrown, wrote)
                (hold-IsExclusive env now held trip seat user id from to (t.rows s) free fresh ex)
        ]
      ]

  -- What `createHold` does inside the lock keeps the table exclusive, however it ends.
  pub check_and_hold-IsExclusive :
      (env : Env) (draws : Draws) (trip seat user : String) (from to : Number) (s : t.Store)
      → IsExclusive draws.searched_at (t.rows s)
      → IsExclusive draws.searched_at
          (t.rows (check_and_hold t env draws trip seat user from to s).1)
  unfolding check_and_hold
  check_and_hold-IsExclusive env draws trip seat user from to s ex =
      elim (Outcome-cases (check_availability t draws.searched_at trip seat from to s)) [
        | inl (b, s', asked) ↦
            let (same, _, spec) =
              check_availability-ok t draws.searched_at trip seat from to s asked in
            ground (
              arith,
              same,
              spec.0,
              create_booking-IsExclusive env draws.searched_at draws.held_at trip seat user from to
                  s,
            )
        | inr (e, s', thrown) ↦
            ground (arith, check_availability-same draws.searched_at trip seat from to s)
      ]

  -- The instant of the call is not the very instant at which the hold of this booking ends.
  abbrev pub IsOffDeadline : ℕ → String → t.Store → Type 0
  IsOffDeadline now id s =
      (x : Booking) → find (λ b. b.id) id (t.rows s) ≡ some x → x.hold_expires_at ≢ some now

  confirm-IsDormant :
      (now : ℕ) (x : Booking)
      → x.hold_expires_at ≢ some now
      → is_pending x.status ≡ true
      → has_expired t now x.hold_expires_at ≡ false
      → IsDormant now confirmed x
  confirm-IsDormant now x off p e d = ground arith

  confirm_found :
      (now : ℕ) (id : String) (b : Booking) (s : t.Store)
      → find (λ x. x.id) id (t.rows s) ≡ some b
      → IsOffDeadline now id s
      → IsExclusive now (t.rows s)
      → is_pending b.status ≡ true
      → has_expired t now b.hold_expires_at ≡ false
      → IsExclusive now (t.rows (update_status t id confirmed s).1)
  confirm_found now id b s here off ex p live =
      update_status-IsExclusive now confirmed id s
        (λ x found.
          let same : x ≡ b = ground arith in rw same (confirm-IsDormant now b (off b here) p live))
        ex

  -- `confirmBooking` keeps the table exclusive, however it ends, unless it is called at the very
  -- millisecond at which the hold ends.
  pub confirm_booking-IsExclusive :
      (now : ℕ) (id : String) (s : t.Store)
      → IsOffDeadline now id s
      → IsExclusive now (t.rows s)
      → IsExclusive now (t.rows (confirm_booking t now id s).1)
  unfolding confirm_booking
  confirm_booking-IsExclusive now id s off ex =
      elim (Result-cases (t.find_first (λ b. b.id == id) s)) [
        | inl (none, found) ↦ ground arith
        | inl (some b, found) ↦
            let here : find (λ x. x.id) id (t.rows s) ≡ some b = sym (t.find_first_ok _ s found) in
            ground (
              arith,
              update_status-IsExclusive now expired id s (λ x e d. cc) ex,
              confirm_found now id b s here off ex,
            )
        | inr (e, thrown) ↦ ground arith
      ]
