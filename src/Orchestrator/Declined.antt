-- ===== src/Orchestrator/Declined.antt =====
-- The calls behind a confirmation that reports a declined payment, and what they leave.
use billing_app_microservice.Prelude.{String, true, false, ◌≡◌, inl, inr, arith, Bool-cases}
use billing_app_microservice.Effect.{ok, Outcome-cases}
use billing_app_microservice.Booking.Model.{Booking}
use billing_app_microservice.Payment.Model.{is_succeeded}
use billing_app_microservice.Orchestrator.Clients.{Clients, ChargeResponse, payment_failed}
use billing_app_microservice.Orchestrator.Success.{sold_event, lost_event}
use billing_app_microservice.Orchestrator.Service.{
  ConfirmBookingInput, ConfirmBookingResult, hold_request, charge_request, declined_result, settle,
  after_hold, confirm_booking,
}

module _ {W : Type 0} (c : Clients W) (topic : String) (input : ConfirmBookingInput) where
  -- The four calls, each accepted, but that the payment was declined.
  pub record IsDecline (before after : W) (x : ConfirmBookingResult) : Type 0 where
    pub hold : Booking
    pub held : W
    pub charged : ChargeResponse
    pub asked : W
    pub booking : Booking
    pub released : W
    pub hold_call : c.create_hold (hold_request input) before ≡ (ok hold, held)
    pub charge_call : c.charge (charge_request input hold.id) held ≡ (ok charged, asked)
    pub refused : is_succeeded charged.status ≡ false
    pub release_call : c.release_booking hold.id payment_failed asked ≡ (ok booking, released)
    pub publish_call :
        c.publish topic (lost_event c topic input hold.id charged) released ≡ (ok tt, after)
    pub result : x ≡ declined_result charged

  module _ (h : Booking) (before w₁ : W) {x : ConfirmBookingResult} {after : W}
      (made : c.create_hold (hold_request input) before ≡ (ok h, w₁)) where
    declined-IsDecline :
        (ch : ChargeResponse) (w₂ : W)
        → c.charge (charge_request input h.id) w₁ ≡ (ok ch, w₂)
        → is_succeeded ch.status ≡ false
        → after_hold c topic input h.id w₁ ≡ (ok x, after)
        → IsDecline before after x
    unfolding after_hold settle
    declined-IsDecline ch w₂ called no' e =
        elim (Outcome-cases (c.release_booking h.id payment_failed w₂)) [
          | inl (b, w₃, done) ↦
              elim (Outcome-cases (c.publish topic (lost_event c topic input h.id ch) w₃)) [
                | inl (u, w₄, said) ↦
                    let end : w₄ ≡ after = ground arith in
                    record {
                      hold = h;
                      held = w₁;
                      charged = ch;
                      asked = w₂;
                      booking = b;
                      released = w₃;
                      hold_call = made;
                      charge_call = called;
                      refused = no';
                      release_call = done;
                      publish_call = rw (← end) said;
                      result = ground arith;
                    }
                | inr (y, w₄, thrown) ↦ absurd (ground arith)
              ]
          | inr (y, w₃, thrown) ↦ absurd (ground arith)
        ]

    paid-succeeds :
        (ch : ChargeResponse) (w₂ : W)
        → c.charge (charge_request input h.id) w₁ ≡ (ok ch, w₂)
        → is_succeeded ch.status ≡ true
        → after_hold c topic input h.id w₁ ≡ (ok x, after)
        → x.success ≡ true
    unfolding after_hold settle
    paid-succeeds ch w₂ called yes' e = elim (Outcome-cases (c.confirm_booking h.id w₂)) [
      | inl (b, w₃, done) ↦
          elim (Outcome-cases (c.publish topic (sold_event c topic input h.id ch) w₃)) [
            | inl (u, w₄, said) ↦ ground arith
            | inr (y, w₄, thrown) ↦ absurd (ground arith)
          ]
      | inr (y, w₃, thrown) ↦ absurd (ground arith)
    ]

    after_hold-IsDecline :
        after_hold c topic input h.id w₁ ≡ (ok x, after)
        → x.success ≡ false
        → IsDecline before after x
    unfolding after_hold settle
    after_hold-IsDecline e bad = elim (Outcome-cases (c.charge (charge_request input h.id) w₁)) [
      | inl (ch, w₂, called) ↦ elim (Bool-cases (is_succeeded ch.status)) [
        | inl yes' ↦ let good = paid-succeeds ch w₂ called yes' e in absurd (ground arith)
        | inr no' ↦ declined-IsDecline ch w₂ called no' e
      ]
      | inr (y, w₂, thrown) ↦ absurd (ground arith)
    ]

  -- A confirmation that returns without success has made the four calls in order, each was
  -- accepted, and the charge was declined.
  pub refusal-IsDecline :
      (before after : W) {x : ConfirmBookingResult}
      → confirm_booking c topic input before ≡ (ok x, after)
      → x.success ≡ false
      → IsDecline before after x
  unfolding confirm_booking
  refusal-IsDecline before after e bad =
      elim (Outcome-cases (c.create_hold (hold_request input) before)) [
        | inl (h, w₁, made) ↦ after_hold-IsDecline h before w₁ made (ground arith) bad
        | inr (y, w₁, thrown) ↦ absurd (ground arith)
      ]
