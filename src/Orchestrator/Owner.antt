-- ===== src/Orchestrator/Owner.antt =====
-- In whose name a saga writes bookings.
use billing_app_microservice.Prelude.{
  ℕ, String, false, some, List, [], ◌∷◌, ◌≡◌, ◌⊎◌, refl, ap, inl, inr, arith, Any, All, All-map,
}
use billing_app_microservice.Prelude.Js.{is_empty}
use billing_app_microservice.Prelude.ParseInt.{a_number, number_or_parsed}
use billing_app_microservice.Platform.Redis.{Redis}
use billing_app_microservice.Booking.Model.{Booking, BookingTable}
use billing_app_microservice.Booking.Service.{Env, Draws}
use billing_app_microservice.Booking.Controller as BookingHandlers
use billing_app_microservice.Booking.Kept.{
  create_hold-All, confirm_booking-All, release_booking-All,
}
use billing_app_microservice.Payment.Model.{PaymentTable}
use billing_app_microservice.Orchestrator.Clients.{Clients, HoldRequest, ReleaseReason}
use billing_app_microservice.Orchestrator.Service.{
  ConfirmBookingInput, settle, after_hold, confirm_booking,
}
use billing_app_microservice.Orchestrator.Keeps.{IsKept, confirm_booking-Keeps}
use billing_app_microservice.Orchestrator.Delivery.{
  Holds, IsKeeping, call-Keeps, charge-Keeps, refund-Keeps, publish-Keeps,
}
use billing_app_microservice.Orchestrator.Wired.{
  Axios, World, hold_handler, confirm_handler, release_handler, reason_name, wired,
}

-- The booking is of `user`, or stood in the table before with the same user, trip, seat and stops.
abbrev pub IsOwned : List Booking → String → Booking → Type 0
IsOwned before user x =
    Any
      (λ y.
        (y.id ≡ x.id)
        × (y.user_id ≡ x.user_id)
        × (y.trip_id ≡ x.trip_id)
        × (y.seat_id ≡ x.seat_id)
        × (y.from_stop_seq ≡ x.from_stop_seq)
        × (y.to_stop_seq ≡ x.to_stop_seq))
      before
    ⊎ (x.user_id ≡ user)

more-IsOwned :
    (user : String) (y : Booking) (xs : List Booking) (x : Booking)
    → IsOwned xs user x
    → IsOwned (y ∷ xs) user x
more-IsOwned user y xs x (inl there) = inl (inr there)
more-IsOwned user y xs x (inr own) = inr own

pub there-IsOwned : (user : String) (xs : List Booking) → All (IsOwned xs user) xs
there-IsOwned user [] = tt
there-IsOwned user (x ∷ xs) = (
  inl (inl (refl, refl, refl, refl, refl, refl)),
  All-map (more-IsOwned user x xs) xs (there-IsOwned user xs),
)

module _ (t : BookingTable) (r : Redis) (p : PaymentTable) (before : List Booking)
    (user : String) where
  abbrev AreOwned : t.Store → p.Store → Type 0
  AreOwned bookings payments = All (IsOwned before user) (t.rows bookings)

  hold_handler-keeps :
      (env : Env) (q : HoldRequest)
      → is_empty user ≡ false
      → IsKeeping t r p AreOwned (hold_handler t r p env (record q { user_id = user }))
  unfolding BookingHandlers.create_hold
  hold_handler-keeps env q given turn w h =
      let draws : Draws = record {
        lock_value = turn.lock_value;
        searched_at = w.now;
        held_at = w.now;
      } in
      let name = BookingHandlers.text_of (BookingHandlers.user_of (some user) (some user)) in
      let same : name ≡ user = ground arith in
      ground (
        arith,
        create_hold-All (IsOwned before user) t env q.trip_id q.seat_id name
            (number_or_parsed (a_number q.from_stop_seq))
            (number_or_parsed (a_number q.to_stop_seq)) r draws (w.bookings, w.locks)
            (λ held id run. inr same) h,
      )

  confirm_handler-keeps : (id : String) → IsKeeping t r p AreOwned (confirm_handler t r p id)
  unfolding BookingHandlers.confirm_booking
  confirm_handler-keeps id turn w h = ground (
    arith,
    confirm_booking-All (IsOwned before user) t w.now id w.bookings (λ x e k. k) (λ x e k. k) h,
  )

  release_handler-keeps :
      (id : String) (reason : ReleaseReason)
      → IsKeeping t r p AreOwned (release_handler t r p id reason)
  unfolding BookingHandlers.release_booking
  release_handler-keeps id reason turn w h = ground (
    arith,
    release_booking-All (IsOwned before user) t id (some (reason_name t r p reason)) w.bookings
        (λ x e k. k) (λ x e k. k) h,
  )

  module _ (axios : Axios) (env : Env) (rate : ℕ) where
    -- The clients, with every hold asked for in the name of the user.
    abbrev named : Clients (World t r p)
    named = record (wired t r p axios env rate) {
      create_hold = λ q. (wired t r p axios env rate).create_hold (record q { user_id = user });
    }

    named-IsKept : is_empty user ≡ false → IsKept (Holds t r p AreOwned) named
    named-IsKept given = record {
      create_hold = λ q.
          call-Keeps t r p AreOwned axios (hold_handler t r p env (record q { user_id = user }))
            (hold_handler-keeps env q given);
      confirm_booking = λ id.
          call-Keeps t r p AreOwned axios (confirm_handler t r p id) (confirm_handler-keeps id);
      release_booking = λ id reason.
          call-Keeps t r p AreOwned axios (release_handler t r p id reason)
            (release_handler-keeps id reason);
      charge = λ q. charge-Keeps t r p AreOwned axios env rate q (λ turn w h. h);
      refund = λ id. refund-Keeps t r p AreOwned axios env rate id (λ turn w h. h);
      publish = publish-Keeps t r p AreOwned axios env rate;
    }

    named-same :
        (topic : String) (input : ConfirmBookingInput) (w : World t r p)
        → confirm_booking named topic (record input { user_id = user }) w
          ≡ confirm_booking (wired t r p axios env rate) topic (record input { user_id = user }) w
    unfolding confirm_booking after_hold settle
    named-same topic input w = refl

    -- A saga for a user leaves the other bookings with their owners and journeys, however it ends.
    pub confirm_booking-IsOwned :
        (topic : String) (input : ConfirmBookingInput) (w : World t r p)
        → input.user_id ≡ user
        → is_empty user ≡ false
        → All (IsOwned before user) (t.rows w.bookings)
        → All
            (IsOwned before user)
            (t.rows (confirm_booking (wired t r p axios env rate) topic input w).1.bookings)
    confirm_booking-IsOwned topic input w own given h =
        let input' : ConfirmBookingInput = record input { user_id = user } in
        let same : input ≡ input' = ap (λ u. record input { user_id = u }) own in
        rw (same, ← named-same topic input w)
          (confirm_booking-Keeps (Holds t r p AreOwned) named (named-IsKept given) topic input' w h)
