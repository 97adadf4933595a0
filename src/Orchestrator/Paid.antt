-- ===== src/Orchestrator/Paid.antt =====
-- What a call to the services does to the link of bookings and payments: a booking is sold only when
-- its payment stands.
use Prim.Native.String.{◌++◌ as ◌<>◌}
use billing_app_microservice.Prelude.{ℕ, String, some, List, ◌≡◌, ap, arith, All, All-map, true}
use billing_app_microservice.Prelude.Js.{trim}
use billing_app_microservice.Prelude.ParseInt.{a_number, number_or_parsed}
use billing_app_microservice.Utils.Response.{Response}
use billing_app_microservice.Platform.Redis.{Redis}
use billing_app_microservice.Booking.Model.{Booking, BookingTable, confirmed}
use billing_app_microservice.Booking.Service.{Env, Draws}
use billing_app_microservice.Booking.Controller as BookingHandlers
use billing_app_microservice.Booking.Kept.{
  create_hold-All, confirm_booking-All, release_booking-All,
}
use billing_app_microservice.Payment.Model.{Payment, PaymentTable, is_succeeded}
use billing_app_microservice.Payment.Controller as PaymentHandlers
use billing_app_microservice.Payment.Kept.{
  IsKeyPaid, first-IsKeyPaid, charge-IsKeyPaid, refund-IsKeyPaid,
}
use billing_app_microservice.Effect.{ok}
use billing_app_microservice.Orchestrator.Clients.{
  HoldRequest, ChargeRequest, ChargeResponse, ReleaseReason,
}
use billing_app_microservice.Orchestrator.Calls.{charge_call-done}
use billing_app_microservice.Orchestrator.Trace.{
  Call, hold, confirm, release, charge, refund, publish,
}
use billing_app_microservice.Orchestrator.Program.{ask}
use billing_app_microservice.Orchestrator.Delivery.{
  Holds, IsKeeping, call-Keeps, charge-Keeps, refund-Keeps, publish-Keeps,
}
use billing_app_microservice.Orchestrator.Wired.{
  Axios, Turn, World, hold_handler, confirm_handler, release_handler, charge_handler,
  refund_handler, gateway_at, charge_body, reason_name, wired,
}

-- The key under which the payment service stores the payment of a booking.
abbrev pub paid_key : String → String
paid_key id = trim ("booking-" <> id)

-- If it is sold, it is paid for.
abbrev pub IsPaidFor : List Payment → Booking → Type 0
IsPaidFor payments b = b.status ≡ confirmed → IsKeyPaid (paid_key b.id) payments

-- A call that needs a payment finds it.
abbrev pub IsEntitled : List Payment → Call → Type 0
IsEntitled payments (confirm id) = IsKeyPaid (paid_key id) payments
IsEntitled payments _ = Unit

-- No payment is lost.
abbrev pub IsAfter : List Payment → List Payment → Type 0
IsAfter before after = (key : String) → IsKeyPaid key before → IsKeyPaid key after

module _ (t : BookingTable) (r : Redis) (p : PaymentTable) where
  module _ (before : List Payment) where
    -- Payments have only been added since `before`, and every sold booking is paid for.
    abbrev pub ArePaid : t.Store → p.Store → Type 0
    ArePaid bookings payments =
        IsAfter before (p.rows payments) × All (IsPaidFor (p.rows payments)) (t.rows bookings)

    abbrev Keeping : {A : Type 0} → (Turn → World t r p → Response A × World t r p) → Type 0
    Keeping = IsKeeping t r p ArePaid

    hold_handler-keeps : (env : Env) (q : HoldRequest) → Keeping (hold_handler t r p env q)
    unfolding BookingHandlers.create_hold
    hold_handler-keeps env q turn w (after, h) =
        let draws : Draws = record {
          lock_value = turn.lock_value;
          searched_at = w.now;
          held_at = w.now;
        } in
        let user =
          BookingHandlers.text_of (BookingHandlers.user_of (some q.user_id) (some q.user_id)) in
        (
          after,
          ground (
            arith,
            create_hold-All (IsPaidFor (p.rows w.payments)) t env q.trip_id q.seat_id user
                (number_or_parsed (a_number q.from_stop_seq))
                (number_or_parsed (a_number q.to_stop_seq)) r draws (w.bookings, w.locks)
                (λ held id run sold. absurd (ground arith)) h,
          ),
        )

    confirm_handler-keeps :
        (id : String) → IsKeyPaid (paid_key id) before → Keeping (confirm_handler t r p id)
    unfolding BookingHandlers.confirm_booking
    confirm_handler-keeps id paid turn w (after, h) = (
      after,
      ground (
        arith,
        confirm_booking-All (IsPaidFor (p.rows w.payments)) t w.now id w.bookings
            (λ x e k sold. rw e (after (paid_key id) paid)) (λ x e k sold. absurd (ground arith)) h,
      ),
    )

    release_handler-keeps :
        (id : String) (reason : ReleaseReason) → Keeping (release_handler t r p id reason)
    unfolding BookingHandlers.release_booking
    release_handler-keeps id reason turn w (after, h) = (
      after,
      ground (
        arith,
        release_booking-All (IsPaidFor (p.rows w.payments)) t id (some (reason_name t r p reason))
            w.bookings (λ x e k sold. absurd (ground arith)) (λ x e k sold. absurd (ground arith))
            h,
      ),
    )

    later-ArePaid :
        (w : World t r p) (payments : p.Store)
        → ArePaid w.bookings w.payments
        → IsAfter (p.rows w.payments) (p.rows payments)
        → ArePaid w.bookings payments
    later-ArePaid w payments (after, h) more = (
      λ key paid. more key (after key paid),
      All-map (λ b k sold. more (paid_key b.id) (k sold)) (t.rows w.bookings) h,
    )

    charge_handler-keeps : (rate : ℕ) (q : ChargeRequest) → Keeping (charge_handler t r p rate q)
    unfolding PaymentHandlers.process_charge
    charge_handler-keeps rate q turn w i =
        later-ArePaid w (charge_handler t r p rate q turn w).1.payments i (λ key paid. ground (
          arith,
          charge-IsKeyPaid p key (gateway_at t r p rate turn)
              (PaymentHandlers.dto_of (charge_body t r p q)) w.payments paid,
        ))

    refund_handler-keeps : (id : String) → Keeping (refund_handler t r p id)
    unfolding PaymentHandlers.process_refund
    refund_handler-keeps id turn w i =
        later-ArePaid w (refund_handler t r p id turn w).1.payments i
          (λ key paid. ground (arith, refund-IsKeyPaid p key (trim id) w.payments paid))

  module _ (axios : Axios) (env : Env) (rate : ℕ) (topic : String) where
    -- A call that has its payment, if it needs one, loses no payment and sells nothing unpaid.
    pub ask-ArePaid :
        (before : List Payment) (q : Call) (w : World t r p)
        → IsEntitled before q
        → ArePaid before w.bookings w.payments
        → Holds t r p (ArePaid before) (ask (wired t r p axios env rate) topic q w).1
    ask-ArePaid before (hold q) w given i =
        call-Keeps t r p (ArePaid before) axios (hold_handler t r p env q)
          (hold_handler-keeps before env q) w i
    ask-ArePaid before (confirm id) w given i =
        call-Keeps t r p (ArePaid before) axios (confirm_handler t r p id)
          (confirm_handler-keeps before id given) w i
    ask-ArePaid before (release id reason) w given i =
        call-Keeps t r p (ArePaid before) axios (release_handler t r p id reason)
          (release_handler-keeps before id reason) w i
    ask-ArePaid before (charge q) w given i =
        charge-Keeps t r p (ArePaid before) axios env rate q (charge_handler-keeps before rate q) w
          i
    ask-ArePaid before (refund id) w given i =
        refund-Keeps t r p (ArePaid before) axios env rate id (refund_handler-keeps before id) w i
    ask-ArePaid before (publish e) w given i =
        publish-Keeps t r p (ArePaid before) axios env rate topic e w i

    -- A charge that is answered with success has its payment in the table.
    pub charge-IsPaid :
        (q : ChargeRequest) (w : World t r p) {ch : ChargeResponse}
        → (ask (wired t r p axios env rate) topic (charge q) w).0 ≡ ok ch
        → is_succeeded ch.status ≡ true
        → IsKeyPaid
            (trim q.idempotency_key)
            (p.rows (ask (wired t r p axios env rate) topic (charge q) w).1.payments)
    charge-IsPaid q w e good =
        let (y, found, status, same) =
          charge_call-done t r p axios env rate q w
            (ap (λ z. (z, ((wired t r p axios env rate).charge q w).1)) e) in
        first-IsKeyPaid (trim q.idempotency_key)
          (p.rows (ask (wired t r p axios env rate) topic (charge q) w).1.payments) found
          (ground arith)
