-- ===== src/Orchestrator/Whole.antt =====
-- The sagas with the two services behind them keep the tables well formed.
use billing_app_microservice.Prelude.{ℕ, String, Option, some, arith}
use billing_app_microservice.Prelude.Js.{trim}
use billing_app_microservice.Prelude.ParseInt.{a_number, number_or_parsed}
use billing_app_microservice.Platform.Redis.{Redis}
use billing_app_microservice.Booking.Model.{BookingTable}
use billing_app_microservice.Booking.Service.{Env, Draws}
use billing_app_microservice.Booking.Controller as BookingHandlers
use billing_app_microservice.Booking.Forwards.{
  IsForwards, create_hold-IsForwards, confirm_booking-IsForwards, release_booking-IsForwards,
}
use billing_app_microservice.Payment.Model.{PaymentTable}
use billing_app_microservice.Payment.Controller as PaymentHandlers
use billing_app_microservice.Payment.Unique.{IsUnique, charge-IsUnique, refund-IsUnique}
use billing_app_microservice.Orchestrator.Clients.{HoldRequest, ChargeRequest, ReleaseReason}
use billing_app_microservice.Orchestrator.Service.{
  ConfirmBookingInput, confirm_booking, cancel_booking,
}
use billing_app_microservice.Orchestrator.Keeps.{
  IsKept, confirm_booking-Keeps, cancel_booking-Keeps,
}
use billing_app_microservice.Orchestrator.Delivery.{
  Holds, call-Keeps, charge-Keeps, refund-Keeps, publish-Keeps,
}
use billing_app_microservice.Orchestrator.Wired.{
  Axios, Turn, World, hold_handler, confirm_handler, release_handler, charge_handler,
  refund_handler, gateway_at, charge_body, reason_name, wired,
}

module _ (t : BookingTable) (r : Redis) (p : PaymentTable) where
  abbrev AreSound : t.Store → p.Store → Type 0
  AreSound bookings payments = IsUnique (p.rows payments) × IsForwards (t.rows bookings)

  -- Payments have different ids and different idempotency keys, and bookings run forwards.
  abbrev pub IsSound : World t r p → Type 0
  IsSound = Holds t r p AreSound

  hold_handler-IsSound :
      (env : Env) (q : HoldRequest) (turn : Turn) (w : World t r p)
      → IsSound w
      → IsSound (hold_handler t r p env q turn w).1
  unfolding BookingHandlers.create_hold
  hold_handler-IsSound env q turn w (u, f) =
      let draws : Draws = record {
        lock_value = turn.lock_value;
        searched_at = w.now;
        held_at = w.now;
      } in
      let user =
        BookingHandlers.text_of (BookingHandlers.user_of (some q.user_id) (some q.user_id)) in
      (
        u,
        ground (
          arith,
          create_hold-IsForwards t r env draws q.trip_id q.seat_id user
              (number_or_parsed (a_number q.from_stop_seq))
              (number_or_parsed (a_number q.to_stop_seq)) (w.bookings, w.locks) f,
        ),
      )

  confirm_handler-IsSound :
      (id : String) (turn : Turn) (w : World t r p)
      → IsSound w
      → IsSound (confirm_handler t r p id turn w).1
  unfolding BookingHandlers.confirm_booking
  confirm_handler-IsSound id turn w (u, f) =
      (u, ground (arith, confirm_booking-IsForwards t w.now id w.bookings f))

  release_handler-IsSound :
      (id : String) (reason : ReleaseReason) (turn : Turn) (w : World t r p)
      → IsSound w
      → IsSound (release_handler t r p id reason turn w).1
  unfolding BookingHandlers.release_booking
  release_handler-IsSound id reason turn w (u, f) = (
    u,
    ground (arith, release_booking-IsForwards t id (some (reason_name t r p reason)) w.bookings f),
  )

  charge_handler-IsSound :
      (rate : ℕ) (q : ChargeRequest) (turn : Turn) (w : World t r p)
      → IsSound w
      → IsSound (charge_handler t r p rate q turn w).1
  unfolding PaymentHandlers.process_charge
  charge_handler-IsSound rate q turn w (u, f) = (
    ground (
      arith,
      charge-IsUnique p (gateway_at t r p rate turn) (PaymentHandlers.dto_of (charge_body t r p q))
          w.payments u,
    ),
    f,
  )

  refund_handler-IsSound :
      (id : String) (turn : Turn) (w : World t r p)
      → IsSound w
      → IsSound (refund_handler t r p id turn w).1
  unfolding PaymentHandlers.process_refund
  refund_handler-IsSound id turn w (u, f) =
      (ground (arith, refund-IsUnique p (trim id) w.payments u), f)

  pub wired-IsKept :
      (axios : Axios) (env : Env) (rate : ℕ) → IsKept IsSound (wired t r p axios env rate)
  wired-IsKept axios env rate = record {
    create_hold = λ q.
        call-Keeps t r p AreSound axios (hold_handler t r p env q) (hold_handler-IsSound env q);
    confirm_booking = λ id.
        call-Keeps t r p AreSound axios (confirm_handler t r p id) (confirm_handler-IsSound id);
    release_booking = λ id reason.
        call-Keeps t r p AreSound axios (release_handler t r p id reason)
          (release_handler-IsSound id reason);
    charge = λ q. charge-Keeps t r p AreSound axios env rate q (charge_handler-IsSound rate q);
    refund = λ id. refund-Keeps t r p AreSound axios env rate id (refund_handler-IsSound id);
    publish = publish-Keeps t r p AreSound axios env rate;
  }

  -- However a confirmation of a booking ends, with calls that are lost on their way or answered too
  -- late, and however a cancellation ends: no two payments have the same id or the same idempotency
  -- key, and every booking runs forwards, if this was so before.
  pub sagas-IsSound :
      (axios : Axios) (env : Env) (rate : ℕ) (topic now id : String) (payment : Option String)
      (input : ConfirmBookingInput) (w : World t r p)
      → IsSound w
      → IsSound (confirm_booking (wired t r p axios env rate) topic input w).1
        × IsSound (cancel_booking (wired t r p axios env rate) topic now id payment w).1
  sagas-IsSound axios env rate topic now id payment input w i =
      let kept = wired-IsKept axios env rate in
      (
        confirm_booking-Keeps IsSound (wired t r p axios env rate) kept topic input w i,
        cancel_booking-Keeps IsSound (wired t r p axios env rate) kept topic now id payment w i,
      )
