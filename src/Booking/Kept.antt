-- ===== src/Booking/Kept.antt =====
-- What holds of every row of the table, and is kept when a row is inserted or its status written,
-- each operation of the service keeps, however it ends.
use billing_app_microservice.Prelude.{
  ℕ, String, Option, none, some, List, [], ◌∷◌, ◌≡◌, arith, All, All-concat, Bool-cases, inl, inr,
  ◌==◌, eq_iff,
}
use billing_app_microservice.Prelude.Js.{Number}
use billing_app_microservice.Effect.{Outcome-cases, Result-cases}
use billing_app_microservice.Platform.Redis.{Redis}
use billing_app_microservice.Platform.Table.{write}
use billing_app_microservice.Booking.Model.{
  Booking, BookingStatus, BookingTable, confirmed, failed, cancelled, expired,
}
use billing_app_microservice.Booking.Repository.{
  booking_of, set_status, update_status, create_booking,
}
use billing_app_microservice.Booking.Overlap.{IsJourney}
use billing_app_microservice.Booking.Availability.{check_availability-ok}
use billing_app_microservice.Booking.Safety.{check_availability-same}
use billing_app_microservice.Booking.Service.{
  Env, Draws, State, new_hold, check_availability, check_and_hold, create_hold, confirm_booking,
  release_booking,
}

module _ (P : Booking → Type 0) where
  -- The status can be written in the row of an id that has `P`.
  abbrev pub Allows : String → BookingStatus → Type 0
  Allows id status = (x : Booking) → x.id ≡ id → P x → P (set_status status x)

  write-All :
      (id : String) (status : BookingStatus) (xs : List Booking)
      → Allows id status
      → All P xs
      → All P (write (λ b. b.id) id (set_status status) xs)
  write-All id status [] allowed h = tt
  write-All id status (x ∷ xs) allowed (c, h) = elim (Bool-cases (x.id == id)) [
    | inl same ↦ rw same (allowed x ((eq_iff x.id id).0 same) c, write-All id status xs allowed h)
    | inr other ↦ rw other (c, write-All id status xs allowed h)
  ]

  module _ (t : BookingTable) where
    pub update_status-All :
        (id : String) (status : BookingStatus) (s : t.Store)
        → Allows id status
        → All P (t.rows s)
        → All P (t.rows (update_status t id status s).1)
    update_status-All id status s allowed h = elim (Outcome-cases (update_status t id status s)) [
      | inl (r, s', done) ↦
          let (x, found, made, stored) = t.update_ok id _ s done in
          rw (done, stored) (write-All id status (t.rows s) allowed h)
      | inr (e, s', thrown) ↦ elim (t.update_err id _ s thrown) [
        | inl kept ↦ rw (thrown, kept) h
        | inr (x, found, stored) ↦ rw (thrown, stored) (write-All id status (t.rows s) allowed h)
      ]
    ]

    pub confirm_booking-All :
        (now : ℕ) (id : String) (s : t.Store)
        → Allows id confirmed
        → Allows id expired
        → All P (t.rows s)
        → All P (t.rows (confirm_booking t now id s).1)
    unfolding confirm_booking
    confirm_booking-All now id s sold late h =
        elim (Result-cases (t.find_first (λ b. b.id == id) s)) [
          | inl (none, found) ↦ ground arith
          | inl (some b, found) ↦ ground (
            arith,
            update_status-All id expired s late h,
            update_status-All id confirmed s sold h,
          )
          | inr (e, thrown) ↦ ground arith
        ]

    pub release_booking-All :
        (id : String) (reason : Option String) (s : t.Store)
        → Allows id failed
        → Allows id cancelled
        → All P (t.rows s)
        → All P (t.rows (release_booking t id reason s).1)
    unfolding release_booking
    release_booking-All id reason s lost left h =
        ground
          (arith, update_status-All id failed s lost h, update_status-All id cancelled s left h)

    module _ (env : Env) (trip seat user : String) (from to : Number) where
      -- A new hold has `P`, whatever its id and its deadline.
      abbrev pub Admits : Type 0
      Admits =
          (held : ℕ) (id : String)
          → IsJourney from to
          → P (booking_of (new_hold env held trip seat user from to) id)

      create_booking-All :
          (held : ℕ) (s : t.Store)
          → Admits
          → IsJourney from to
          → All P (t.rows s)
          → All P (t.rows (create_booking t (new_hold env held trip seat user from to) s).1)
      create_booking-All held s fresh run h =
          elim (Outcome-cases (create_booking t (new_hold env held trip seat user from to) s)) [
            | inl (r, s', done) ↦
                let (id, made, stored, _) = t.create_ok _ s done in
                rw (done, stored, made) (All-concat _ (t.rows s) h (fresh held id run))
            | inr (e, s', thrown) ↦ elim (t.create_err _ s thrown) [
              | inl kept ↦ rw (thrown, kept) h
              | inr (id, stored, _) ↦
                  rw (thrown, stored) (All-concat _ (t.rows s) h (fresh held id run))
            ]
          ]

      check_and_hold-All :
          (draws : Draws) (s : t.Store)
          → Admits
          → All P (t.rows s)
          → All P (t.rows (check_and_hold t env draws trip seat user from to s).1)
      unfolding check_and_hold
      check_and_hold-All draws s fresh h =
          elim (Outcome-cases (check_availability t draws.searched_at trip seat from to s)) [
            | inl (b, s', asked) ↦
                let (same, run, _) =
                  check_availability-ok t draws.searched_at trip seat from to s asked in
                ground (arith, same, create_booking-All draws.held_at s fresh run h)
            | inr (e, s', thrown) ↦
                ground (arith, check_availability-same t draws.searched_at trip seat from to s)
          ]

      pub create_hold-All :
          (r : Redis) (draws : Draws) (s : State t r)
          → Admits
          → All P (t.rows s.0)
          → All P (t.rows (create_hold t r env draws trip seat user from to s).1.0)
      unfolding create_hold
      create_hold-All r draws s fresh h = ground (arith, check_and_hold-All draws s.0 fresh h)
