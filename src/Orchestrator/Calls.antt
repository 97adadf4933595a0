-- ===== src/Orchestrator/Calls.antt =====
-- What a call of a client that resolves has done to the databases behind it.
use billing_app_microservice.Prelude.{ℕ, String, some, ◌≡◌, refl, ◌∙◌, inl, inr, arith, first, ◌==◌}
use billing_app_microservice.Prelude.Js.{trim}
use billing_app_microservice.Effect.{ok, Outcome-cases}
use billing_app_microservice.Platform.Redis.{Redis}
use billing_app_microservice.Booking.Model.{Booking, BookingTable}
use billing_app_microservice.Booking.Service.{Env, Draws, new_hold, State}
use billing_app_microservice.Booking.Service as BookingService
use billing_app_microservice.Booking.Hold.{IsNewHold, create_hold-ok}
use billing_app_microservice.Booking.Confirm.{IsConfirmation, confirm_booking-ok}
use billing_app_microservice.Payment.Model.{Payment, PaymentTable, ChargeResult}
use billing_app_microservice.Payment.Laws.{stored-first}
use billing_app_microservice.Payment.Controller as PaymentHandlers
use billing_app_microservice.Orchestrator.Clients.{
  HoldRequest, ChargeRequest, ChargeResponse, ReleaseReason, Event,
}
use billing_app_microservice.Orchestrator.Wired.{
  Axios, World, next_turn, begin, call, hold_handler, confirm_handler, release_handler, reason_name,
  charge_handler, charge_body, gateway_at, wired,
}
use billing_app_microservice.Orchestrator.Answers.{
  deliver-ok, create_hold-answer, confirm_booking-answer, release_booking-answer,
  process_charge-answer, charge-status, key_same,
}

module _ (t : BookingTable) (r : Redis) (p : PaymentTable) (axios : Axios) (env : Env) where
  abbrev draws_at : World t r p → Draws
  draws_at w = record {
    lock_value = (next_turn t r p w.turns).lock_value;
    searched_at = (begin t r p w).now;
    held_at = (begin t r p w).now;
  }

  pub hold-done :
      (q : HoldRequest) (w : World t r p) {b : Booking} {w' : World t r p}
      → call t r p axios (hold_handler t r p env q) w ≡ (ok b, w')
      → IsNewHold env
          (draws_at w)
          q.trip_id
          q.seat_id
          q.user_id
          q.from_stop_seq
          q.to_stop_seq
          (t.rows w.bookings)
          (t.rows w'.bookings)
          b
        × (w'.payments ≡ w.payments)
  hold-done q w e =
      let turn = next_turn t r p w.turns in
      let (body, after) =
        deliver-ok t r p axios turn.weather (hold_handler t r p env q turn) (begin t r p w) e in
      let made = create_hold-answer t r env (draws_at w) q (w.bookings, w.locks) body in
      (
        rw after (
            create_hold-ok t r env (draws_at w) q.trip_id q.seat_id q.user_id q.from_stop_seq
              q.to_stop_seq (w.bookings, w.locks) made),
        rw after refl,
      )

  pub confirm-done :
      (id : String) (w : World t r p) {b : Booking} {w' : World t r p}
      → call t r p axios (confirm_handler t r p id) w ≡ (ok b, w')
      → IsConfirmation t (begin t r p w).now id (t.rows w.bookings) (t.rows w'.bookings) b
        × (w'.payments ≡ w.payments)
  confirm-done id w e =
      let turn = next_turn t r p w.turns in
      let (body, after) =
        deliver-ok t r p axios turn.weather (confirm_handler t r p id turn) (begin t r p w) e in
      let made = confirm_booking-answer t (begin t r p w).now id w.bookings body in
      (rw after (confirm_booking-ok t (begin t r p w).now id w.bookings made), rw after refl)

  pub release-done :
      (id : String) (reason : ReleaseReason) (w : World t r p) {b : Booking} {w' : World t r p}
      → call t r p axios (release_handler t r p id reason) w ≡ (ok b, w')
      → (BookingService.release_booking t id (some (reason_name t r p reason)) w.bookings
          ≡ (ok b, w'.bookings))
        × (w'.payments ≡ w.payments)
  release-done id reason w e =
      let turn = next_turn t r p w.turns in
      let handler = release_handler t r p id reason turn in
      let (body, after) = deliver-ok t r p axios turn.weather handler (begin t r p w) e in
      (
        rw after (release_booking-answer t id (some (reason_name t r p reason)) w.bookings body),
        rw after refl,
      )

  charge-done :
      (rate : ℕ) (q : ChargeRequest) (w : World t r p) {x : ChargeResult} {w' : World t r p}
      → call t r p axios (charge_handler t r p rate q) w ≡ (ok x, w')
      → (first (λ y. y.idempotency_key == trim q.idempotency_key) (p.rows w'.payments)
          ≡ some x.payment)
        × (x.status ≡ x.payment.status)
        × (w'.bookings ≡ w.bookings)
  charge-done rate q w e =
      let turn = next_turn t r p w.turns in
      let g = gateway_at t r p rate turn in
      let dto = PaymentHandlers.dto_of (charge_body t r p q) in
      let (body, after) =
        deliver-ok t r p axios turn.weather (charge_handler t r p rate q turn) (begin t r p w) e in
      let made = process_charge-answer p g (charge_body t r p q) w.payments body in
      (
        rw after (rw (key_same q.idempotency_key) at (stored-first p g dto w.payments made)),
        charge-status p g dto w.payments made,
        rw after refl,
      )

  -- The charge of the client is that call, with its answer read.
  pub charge_call-done :
      (rate : ℕ) (q : ChargeRequest) (w : World t r p) {ch : ChargeResponse} {w' : World t r p}
      → (wired t r p axios env rate).charge q w ≡ (ok ch, w')
      → (y : Payment) × (first
            (λ z. z.idempotency_key == trim q.idempotency_key)
            (p.rows w'.payments)
          ≡ some y)
        × (ch.status ≡ y.status)
        × (w'.bookings ≡ w.bookings)
  charge_call-done rate q w {ch} {w'} e =
      elim (Outcome-cases (call t r p axios (charge_handler t r p rate q) w)) [
        | inl (x, w₁, done) ↦
            let (there, status, same) = charge-done rate q w done in
            let end : w₁ ≡ w' = ground arith in
            let answer : ch.status ≡ x.status = ground arith in
            (x.payment, rw (← end) there, answer ∙ status, rw (← end) same)
        | inr (y, w₁, thrown) ↦ absurd (ground arith)
      ]

  pub publish-done :
      (rate : ℕ) (topic : String) (event : Event) (w : World t r p) {w' : World t r p}
      → (wired t r p axios env rate).publish topic event w ≡ (ok tt, w')
      → (w'.bookings ≡ w.bookings) × (w'.payments ≡ w.payments)
  publish-done rate topic event w e = ground arith
