-- ===== src/Orchestrator/Program/Runs.antt =====
-- The programs do what the sagas of the service do, whatever the services answer.
use billing_app_microservice.Prelude.{
  String, Option, none, some, ◌≡◌, refl, ap, true, false, inl, inr, arith, Bool-cases,
}
use billing_app_microservice.Prelude.Js.{is_empty}
use billing_app_microservice.Effect.{ok, Outcome-cases}
use billing_app_microservice.Payment.Model.{is_succeeded}
use billing_app_microservice.Orchestrator.Clients.{
  Clients, ChargeResponse, payment_failed, user_cancelled, booking_cancelled,
}
use billing_app_microservice.Orchestrator.Success.{sold_event, lost_event}
use billing_app_microservice.Orchestrator.Service.{
  ConfirmBookingInput, hold_request, charge_request, settle, after_hold, confirm_booking,
  refund_if_paid, cancel_booking,
}
use billing_app_microservice.Orchestrator.Program.{
  Program, run, on_held, saga, say_cancelled, with_refund, cancellation,
}

module _ {W : Type 0} (c : Clients W) (topic : String) where
  module _ (input : ConfirmBookingInput) (id : String) (w : W) where
    paid-run :
        (ch : ChargeResponse) (w₁ : W)
        → c.charge (charge_request input id) w ≡ (ok ch, w₁)
        → is_succeeded ch.status ≡ true
        → run c topic (on_held input id) w ≡ after_hold c topic input id w
    unfolding run after_hold settle
    paid-run ch w₁ called good = elim (Outcome-cases (c.confirm_booking id w₁)) [
      | inl (b, w₂, done) ↦
          elim (Outcome-cases (c.publish topic (sold_event c topic input id ch) w₂)) [
            | inl (u, w₃, said) ↦ ground arith
            | inr (e, w₃, thrown) ↦ ground arith
          ]
      | inr (e, w₂, thrown) ↦ ground arith
    ]

    declined-run :
        (ch : ChargeResponse) (w₁ : W)
        → c.charge (charge_request input id) w ≡ (ok ch, w₁)
        → is_succeeded ch.status ≡ false
        → run c topic (on_held input id) w ≡ after_hold c topic input id w
    unfolding run after_hold settle
    declined-run ch w₁ called bad = elim (Outcome-cases (c.release_booking id payment_failed w₁)) [
      | inl (b, w₂, done) ↦
          elim (Outcome-cases (c.publish topic (lost_event c topic input id ch) w₂)) [
            | inl (u, w₃, said) ↦ ground arith
            | inr (e, w₃, thrown) ↦ ground arith
          ]
      | inr (e, w₂, thrown) ↦ ground arith
    ]

    on_held-run : run c topic (on_held input id) w ≡ after_hold c topic input id w
    unfolding run after_hold settle
    on_held-run = elim (Outcome-cases (c.charge (charge_request input id) w)) [
      | inl (ch, w₁, called) ↦ elim (Bool-cases (is_succeeded ch.status)) [
        | inl good ↦ paid-run ch w₁ called good
        | inr bad ↦ declined-run ch w₁ called bad
      ]
      | inr (e, w₁, thrown) ↦ ground arith
    ]

  saga-run :
      (input : ConfirmBookingInput) (w : W)
      → run c topic (saga input) w ≡ confirm_booking c topic input w
  unfolding run confirm_booking saga
  saga-run input w = elim (Outcome-cases (c.create_hold (hold_request input) w)) [
    | inl (h, w₁, made) ↦ ground (arith, on_held-run input h.id w₁)
    | inr (e, w₁, thrown) ↦ ground arith
  ]

  with_refund-run :
      {A : Type 0} (payment : Option String) (k : Program A) (w : W)
      → let (r, w') = refund_if_paid c topic payment w in
        (r ≡ ok tt) × (run c topic (with_refund payment k) w ≡ run c topic k w')
  unfolding run
  with_refund-run none k w = (refl, refl)
  with_refund-run (some id) k w = elim (Bool-cases (is_empty id)) [
    | inl no' ↦ (ground arith, ground arith)
    | inr yes' ↦ elim (Outcome-cases (c.refund id w)) [
      | inl (u, w₁, done) ↦ (ground arith, ground arith)
      | inr (e, w₁, thrown) ↦ (ground arith, ground arith)
    ]
  ]

  say_cancelled-run :
      (now id : String) (payment : Option String) (w w₁ : W)
      → refund_if_paid c topic payment w ≡ (ok tt, w₁)
      → is_empty id ≡ false
      → run c topic (say_cancelled now id payment) w₁ ≡ cancel_booking c topic now id payment w
  unfolding run cancel_booking
  say_cancelled-run now id payment w w₁ back given =
      elim (Outcome-cases (c.release_booking id user_cancelled w₁)) [
        | inl (b, w₂, done) ↦
            elim (Outcome-cases (c.publish topic (booking_cancelled id payment now) w₂)) [
              | inl (u, w₃, said) ↦ ground arith
              | inr (e, w₃, thrown) ↦ ground arith
            ]
        | inr (e, w₂, thrown) ↦ ground arith
      ]

  cancellation-run :
      (now id : String) (payment : Option String) (w : W)
      → run c topic (cancellation now id payment) w ≡ cancel_booking c topic now id payment w
  unfolding run cancel_booking cancellation
  cancellation-run now id payment w = elim (Bool-cases (is_empty id)) [
    | inl no' ↦ ground arith
    | inr given ↦
        let (back, same) = with_refund-run payment (say_cancelled now id payment) w in
        ground (
          arith,
          same,
          say_cancelled-run now id payment w (refund_if_paid c topic payment w).1
              (ap (λ r. (r, (refund_if_paid c topic payment w).1)) back) given,
        )
  ]

  -- The programs, with the clients to answer their calls, return and throw what `confirmBooking` and
  -- `cancelBooking` return and throw, and leave the same world, for all clients and all inputs.
  pub programs-run :
      (input : ConfirmBookingInput) (now id : String) (payment : Option String) (w : W)
      → (run c topic (saga input) w ≡ confirm_booking c topic input w)
        × (run c topic (cancellation now id payment) w ≡ cancel_booking c topic now id payment w)
  programs-run input now id payment w = (saga-run input w, cancellation-run now id payment w)
