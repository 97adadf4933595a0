-- ===== src/Orchestrator/Success.antt =====
-- The calls behind a confirmation that succeeds, whatever the services are.
use billing_app_microservice.Prelude.{String, true, false, ◌≡◌, inl, inr, arith, Bool-cases}
use billing_app_microservice.Prelude.Js.{text_or}
use billing_app_microservice.Effect.{ok, err, Outcome-cases}
use billing_app_microservice.Utils.Errors.{Error}
use billing_app_microservice.Booking.Model.{Booking}
use billing_app_microservice.Payment.Model.{is_succeeded}
use billing_app_microservice.Orchestrator.Clients.{
  Clients, ChargeResponse, Event, payment_failed, booking_confirmed, booking_failed,
}
use billing_app_microservice.Orchestrator.Service.{
  ConfirmBookingInput, ConfirmBookingResult, hold_request, charge_request, confirmed_result, settle,
  after_hold, confirm_booking,
}

module _ {W : Type 0} (c : Clients W) (topic : String) (input : ConfirmBookingInput) where
  abbrev pub sold_event : String → ChargeResponse → Event
  sold_event id charged =
      booking_confirmed id input.user_id input.trip_id input.seat_id input.amount
        (text_or input.currency "INR") charged.payment_id

  abbrev pub lost_event : String → ChargeResponse → Event
  lost_event id charged =
      booking_failed id input.user_id (text_or charged.failure_reason "Payment declined")

  -- The four calls, each accepted, with the worlds between them.
  pub record IsSaga (before after : W) (x : ConfirmBookingResult) : Type 0 where
    pub hold : Booking
    pub held : W
    pub charged : ChargeResponse
    pub paid : W
    pub booking : Booking
    pub confirmed : W
    pub hold_call : c.create_hold (hold_request input) before ≡ (ok hold, held)
    pub charge_call : c.charge (charge_request input hold.id) held ≡ (ok charged, paid)
    pub accepted : is_succeeded charged.status ≡ true
    pub confirm_call : c.confirm_booking hold.id paid ≡ (ok booking, confirmed)
    pub publish_call : c.publish topic (sold_event hold.id charged) confirmed ≡ (ok tt, after)
    pub result : x ≡ confirmed_result booking charged

  module _ (h : Booking) (before w₁ : W) {x : ConfirmBookingResult} {after : W}
      (made : c.create_hold (hold_request input) before ≡ (ok h, w₁)) where
    paid-IsSaga :
        (ch : ChargeResponse) (w₂ : W)
        → c.charge (charge_request input h.id) w₁ ≡ (ok ch, w₂)
        → is_succeeded ch.status ≡ true
        → after_hold c topic input h.id w₁ ≡ (ok x, after)
        → IsSaga before after x
    unfolding after_hold settle
    paid-IsSaga ch w₂ called yes' e = elim (Outcome-cases (c.confirm_booking h.id w₂)) [
      | inl (b, w₃, done) ↦ elim (Outcome-cases (c.publish topic (sold_event h.id ch) w₃)) [
        | inl (u, w₄, said) ↦
            let end : w₄ ≡ after = ground arith in
            record {
              hold = h;
              held = w₁;
              charged = ch;
              paid = w₂;
              booking = b;
              confirmed = w₃;
              hold_call = made;
              charge_call = called;
              accepted = yes';
              confirm_call = done;
              publish_call = rw (← end) said;
              result = ground arith;
            }
        | inr (y, w₄, thrown) ↦ absurd (ground arith)
      ]
      | inr (y, w₃, thrown) ↦ absurd (ground arith)
    ]

    declined-fails :
        (ch : ChargeResponse) (w₂ : W)
        → c.charge (charge_request input h.id) w₁ ≡ (ok ch, w₂)
        → is_succeeded ch.status ≡ false
        → after_hold c topic input h.id w₁ ≡ (ok x, after)
        → x.success ≡ true
        → ⊥
    unfolding after_hold settle
    declined-fails ch w₂ called no' e good =
        elim (Outcome-cases (c.release_booking h.id payment_failed w₂)) [
          | inl (b, w₃, done) ↦ elim (Outcome-cases (c.publish topic (lost_event h.id ch) w₃)) [
            | inl (u, w₄, said) ↦ ground arith
            | inr (y, w₄, thrown) ↦ ground arith
          ]
          | inr (y, w₃, thrown) ↦ ground arith
        ]

    uncharged-fails :
        (y : Error) (w₂ : W)
        → c.charge (charge_request input h.id) w₁ ≡ (err y, w₂)
        → after_hold c topic input h.id w₁ ≡ (ok x, after)
        → ⊥
    unfolding after_hold settle
    uncharged-fails y w₂ thrown e = ground arith

    after_hold-IsSaga :
        after_hold c topic input h.id w₁ ≡ (ok x, after) → x.success ≡ true → IsSaga before after x
    after_hold-IsSaga e good = elim (Outcome-cases (c.charge (charge_request input h.id) w₁)) [
      | inl (ch, w₂, called) ↦ elim (Bool-cases (is_succeeded ch.status)) [
        | inl yes' ↦ paid-IsSaga ch w₂ called yes' e
        | inr no' ↦ absurd (declined-fails ch w₂ called no' e good)
      ]
      | inr (y, w₂, thrown) ↦ absurd (uncharged-fails y w₂ thrown e)
    ]

  -- A confirmation that reports success has made the four calls in order, each was accepted, and the
  -- charge succeeded.
  pub success-IsSaga :
      (before after : W) {x : ConfirmBookingResult}
      → confirm_booking c topic input before ≡ (ok x, after)
      → x.success ≡ true
      → IsSaga before after x
  unfolding confirm_booking
  success-IsSaga before after e good =
      elim (Outcome-cases (c.create_hold (hold_request input) before)) [
        | inl (h, w₁, made) ↦ after_hold-IsSaga h before w₁ made (ground arith) good
        | inr (y, w₁, thrown) ↦ absurd (ground arith)
      ]
