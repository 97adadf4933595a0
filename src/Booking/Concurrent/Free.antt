-- ===== src/Booking/Concurrent/Free.antt =====
-- A seat that is free for a journey stays free while other rows are added and rows change status.
use billing_app_microservice.Prelude.{
  ℕ, ◌≤◌, String, false, some, List, [], ◌∷◌, ◌≡◌, ◌≢◌, inl, inr, arith, ◌==◌, All-map, All-concat,
  Bool-cases, eq_iff,
}
use billing_app_microservice.Prelude.Js.{Number}
use billing_app_microservice.Effect.{Outcome-cases}
use billing_app_microservice.Platform.Table.{write, find}
use billing_app_microservice.Booking.Model.{Booking, BookingStatus, BookingTable}
use billing_app_microservice.Booking.Repository.{
  booking_of, set_status, update_status, create_booking,
}
use billing_app_microservice.Booking.Service.{Env, new_hold, lock_key}
use billing_app_microservice.Booking.Exclusive.{
  IsExclusive, IsDormant, write_absent, is_active_earlier,
}
use billing_app_microservice.Booking.Availability.{occupies, IsFree}

same_key :
    (trip trip' seat seat' : String)
    → trip ≡ trip'
    → seat ≡ seat'
    → lock_key trip seat ≡ lock_key trip' seat'
same_key trip trip' seat seat' e f = cc

module _ (trip seat : String) (from to : Number) where
  occupies-later :
      (now later : ℕ) (x : Booking)
      → now ≤ later
      → occupies now trip seat from to x ≡ false
      → occupies later trip seat from to x ≡ false
  occupies-later now later x h e = ground (arith, is_active_earlier now later x h)

  pub IsFree-later :
      (now later : ℕ) (xs : List Booking)
      → now ≤ later
      → IsFree now trip seat from to xs
      → IsFree later trip seat from to xs
  IsFree-later now later xs h = All-map (λ x. occupies-later now later x h) xs

  module _ (now : ℕ) (status : BookingStatus) where
    occupies-dormant :
        (x : Booking)
        → IsDormant now status x
        → occupies now trip seat from to x ≡ false
        → occupies now trip seat from to (set_status status x) ≡ false
    occupies-dormant x d e = ground arith

    IsFree-write :
        (x : Booking) (id : String) (xs : List Booking)
        → find (λ b. b.id) id xs ≡ some x
        → IsDormant now status x
        → IsExclusive now xs
        → IsFree now trip seat from to xs
        → IsFree now trip seat from to (write (λ b. b.id) id (set_status status) xs)
    IsFree-write x id [] e d ex h = tt
    IsFree-write x id (y ∷ ys) e d (ids, ex) (c, h) = elim (Bool-cases (y.id == id)) [
      | inl same ↦
          let head : x ≡ y = ground arith in
          rw (same, write_absent now status id y ys ((eq_iff y.id id).0 same) ids)
            (occupies-dormant y (rw head at d) c, h)
      | inr other ↦ rw other (c, IsFree-write x id ys (ground arith) d ex h)
    ]

  module _ (t : BookingTable) where
    -- A change of status, however it ends.
    pub update_status-IsFree :
        (now : ℕ) (status : BookingStatus) (id : String) (s : t.Store)
        → ((x : Booking) → find (λ b. b.id) id (t.rows s) ≡ some x → IsDormant now status x)
        → IsExclusive now (t.rows s)
        → IsFree now trip seat from to (t.rows s)
        → IsFree now trip seat from to (t.rows (update_status t id status s).1)
    update_status-IsFree now status id s dormant ex free =
        elim (Outcome-cases (update_status t id status s)) [
          | inl (r, s', done) ↦
              let (x, found, _, wrote) = t.update_ok id (set_status status) s done in
              rw (done, wrote)
                (IsFree-write now status x id (t.rows s) found (dormant x found) ex free)
          | inr (e, s', thrown) ↦ elim (t.update_err id (set_status status) s thrown) [
            | inl kept ↦ rw (thrown, kept) free
            | inr (x, found, wrote) ↦
                rw (thrown, wrote)
                  (IsFree-write now status x id (t.rows s) found (dormant x found) ex free)
          ]
        ]

    elsewhere :
        (env : Env) (now held : ℕ) (trip' seat' user id : String) (from' to' : Number)
        → lock_key trip' seat' ≢ lock_key trip seat
        → occupies now trip seat from to
            (booking_of (new_hold env held trip' seat' user from' to') id)
          ≡ false
    elsewhere env now held trip' seat' user id from' to' other =
        ground (arith, eq_iff trip' trip, eq_iff seat' seat, other, same_key trip' trip seat' seat)

    -- A hold of another seat, however it ends.
    pub create_booking-IsFree :
        (env : Env) (now held : ℕ) (trip' seat' user : String) (from' to' : Number) (s : t.Store)
        → lock_key trip' seat' ≢ lock_key trip seat
        → IsFree now trip seat from to (t.rows s)
        → IsFree now trip seat from to
            (t.rows (create_booking t (new_hold env held trip' seat' user from' to') s).1)
    create_booking-IsFree env now held trip' seat' user from' to' s other free =
        elim (Outcome-cases (create_booking t (new_hold env held trip' seat' user from' to') s)) [
          | inl (r, s', done) ↦
              let (id, made, wrote, _) = t.create_ok _ s done in
              rw (done, wrote, made)
                (All-concat _ (t.rows s) free
                  (elsewhere env now held trip' seat' user id from' to' other))
          | inr (e, s', thrown) ↦ elim (t.create_err _ s thrown) [
            | inl kept ↦ rw (thrown, kept) free
            | inr (id, wrote, _) ↦
                rw (thrown, wrote)
                  (All-concat _ (t.rows s) free
                    (elsewhere env now held trip' seat' user id from' to' other))
          ]
        ]
