-- ===== src/Orchestrator/Lost.antt =====
-- A charge whose answer is lost on its way back.
use billing_app_microservice.Prelude.{ℕ, String, false, ◌||◌, ◌≡◌, refl, arith, some}
use billing_app_microservice.Prelude.Js.{number, num_le, is_empty}
use billing_app_microservice.Effect.{ok, err}
use billing_app_microservice.Utils.Errors.{plain}
use billing_app_microservice.Utils.Response.{Response}
use billing_app_microservice.Platform.Redis.{Redis}
use billing_app_microservice.Booking.Model.{Booking, BookingTable}
use billing_app_microservice.Booking.Service.{Env}
use billing_app_microservice.Payment.Model.{PaymentTable, ChargeResult, succeeded}
use billing_app_microservice.Payment.Kept.{IsKeyPaid, first-IsKeyPaid}
use billing_app_microservice.Payment.Laws.{stored-first}
use billing_app_microservice.Payment.Controller as PaymentHandlers
use billing_app_microservice.Orchestrator.Answers.{process_charge-answer, charge-status, key_same}
use billing_app_microservice.Orchestrator.Clients.{Clients, payment_failed}
use billing_app_microservice.Orchestrator.Service.{
  ConfirmBookingInput, hold_request, charge_request, settle, after_hold, confirm_booking,
}
use billing_app_microservice.Orchestrator.Paid.{paid_key}
use billing_app_microservice.Orchestrator.Delivery.{call-Keeps}
use billing_app_microservice.Orchestrator.Wired.{
  Axios, World, lost_answer, next_turn, begin, release_handler, charge_handler, charge_body,
  gateway_at, wired,
}

module _ (t : BookingTable) (r : Redis) (p : PaymentTable) (axios : Axios) (env : Env) (rate : ℕ)
    (topic : String) (input : ConfirmBookingInput) where
  abbrev clients : Clients (World t r p)
  clients = wired t r p axios env rate

  -- The payment service has carried out the charge of booking `id`: its answer is `x`.
  abbrev pub charged : String → World t r p → Response ChargeResult × World t r p
  charged id w =
      charge_handler t r p rate (charge_request input id) (next_turn t r p w.turns) (begin t r p w)

  charged-IsKeyPaid :
      (id : String) (w : World t r p) {x : ChargeResult}
      → (charged id w).0.body ≡ some x
      → x.status ≡ succeeded
      → IsKeyPaid (paid_key id) (p.rows (charged id w).1.payments)
  charged-IsKeyPaid id w answer good =
      let q = charge_request input id in
      let g = gateway_at t r p rate (next_turn t r p w.turns) in
      let body = charge_body t r p q in
      let made = process_charge-answer p g body w.payments answer in
      let status = charge-status p g (PaymentHandlers.dto_of body) w.payments made in
      first-IsKeyPaid (paid_key id) (p.rows (charged id w).1.payments)
        (rw (key_same q.idempotency_key) at
          (stored-first p g (PaymentHandlers.dto_of body) w.payments made))
        (ground arith)

  release-payments :
      (id : String) (w : World t r p)
      → (clients.release_booking id payment_failed w).1.payments ≡ w.payments
  release-payments id w =
      call-Keeps t r p (λ b q. q ≡ w.payments) axios (release_handler t r p id payment_failed)
        (λ turn v same. same) w refl

  -- A request passes the tests of the saga, a hold is made, the payment service answers the charge
  -- with a payment that succeeded, and this answer is lost on its way back: then the confirmation
  -- throws the time-out of axios, its last call is to release the hold, and a payment under the
  -- booking's key that did not fail stands in the end.
  pub confirm_booking-lost_charge :
      (before w : World t r p) {h : Booking} {x : ChargeResult}
      → (is_empty input.trip_id || is_empty input.seat_id || is_empty input.user_id) ≡ false
      → num_le input.to_stop_seq input.from_stop_seq ≡ false
      → num_le input.amount (number 0) ≡ false
      → clients.create_hold (hold_request input) before ≡ (ok h, w)
      → (next_turn t r p w.turns).weather ≡ lost_answer
      → (charged h.id w).0.body ≡ some x
      → x.status ≡ succeeded
      → let (outcome, end) = confirm_booking clients topic input before in
        (outcome ≡ err (plain "timeout of 5000ms exceeded"))
        × (end ≡ (clients.release_booking h.id payment_failed (charged h.id w).1).1)
        × IsKeyPaid (paid_key h.id) (p.rows end.payments)
  unfolding confirm_booking after_hold settle
  confirm_booking-lost_charge before w {h} named forwards positive made lost answer good =
      let end = (clients.release_booking h.id payment_failed (charged h.id w).1).1 in
      let same : (confirm_booking clients topic input before).1 ≡ end = ground arith in
      (
        ground arith,
        same,
        rw (same, release-payments h.id (charged h.id w).1) (charged-IsKeyPaid h.id w answer good),
      )
