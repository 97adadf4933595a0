-- ===== src/Orchestrator/Keeps.antt =====
-- What every call of the clients keeps, a saga keeps, however it ends.
use billing_app_microservice.Prelude.{
  String, true, false, Option, none, some, ◌≡◌, inl, inr, arith, Bool-cases,
}
use billing_app_microservice.Effect.{ok, Action, Outcome-cases}
use billing_app_microservice.Payment.Model.{is_succeeded}
use billing_app_microservice.Orchestrator.Clients.{
  Clients, HoldRequest, ChargeRequest, ChargeResponse, ReleaseReason, payment_failed,
  user_cancelled, booking_cancelled, Event,
}
use billing_app_microservice.Orchestrator.Success.{sold_event, lost_event}
use billing_app_microservice.Orchestrator.Service.{
  ConfirmBookingInput, hold_request, charge_request, settle, after_hold, confirm_booking,
  refund_if_paid, cancel_booking,
}

abbrev pub Keeps : {S A : Type 0} → (S → Type 0) → Action S A → Type 0
Keeps {S} I m = (s : S) → I s → I (m s).1

-- Every call of the clients keeps `I`, whatever its answer.
pub record IsKept {W : Type 0} (I : W → Type 0) (c : Clients W) : Type 0 where
  pub create_hold : (q : HoldRequest) → Keeps I (c.create_hold q)
  pub confirm_booking : (id : String) → Keeps I (c.confirm_booking id)
  pub release_booking : (id : String) (r : ReleaseReason) → Keeps I (c.release_booking id r)
  pub charge : (q : ChargeRequest) → Keeps I (c.charge q)
  pub refund : (id : String) → Keeps I (c.refund id)
  pub publish : (topic : String) (e : Event) → Keeps I (c.publish topic e)

module _ {W : Type 0} (I : W → Type 0) (c : Clients W) (kept : IsKept I c) (topic : String) where
  paid-Keeps :
      (input : ConfirmBookingInput) (id : String) (w : W) {ch : ChargeResponse} {w₁ : W}
      → c.charge (charge_request input id) w ≡ (ok ch, w₁)
      → is_succeeded ch.status ≡ true
      → I w₁
      → I (after_hold c topic input id w).1
  unfolding after_hold settle
  paid-Keeps input id w {ch} {w₁} called good i =
      let k₂ = kept.confirm_booking id w₁ i in
      let k₃ = kept.publish topic (sold_event c topic input id ch) (c.confirm_booking id w₁).1 k₂ in
      ground (arith, kept.release_booking id payment_failed (c.confirm_booking id w₁).1 k₂)

  declined-Keeps :
      (input : ConfirmBookingInput) (id : String) (w : W) {ch : ChargeResponse} {w₁ : W}
      → c.charge (charge_request input id) w ≡ (ok ch, w₁)
      → is_succeeded ch.status ≡ false
      → I w₁
      → I (after_hold c topic input id w).1
  unfolding after_hold settle
  declined-Keeps input id w {ch} {w₁} called bad i =
      let w₂ = (c.release_booking id payment_failed w₁).1 in
      let k₂ = kept.release_booking id payment_failed w₁ i in
      let event = lost_event c topic input id ch in
      let k₃ = kept.publish topic event w₂ k₂ in
      ground (
        arith,
        kept.release_booking id payment_failed w₂ k₂,
        kept.release_booking id payment_failed (c.publish topic event w₂).1 k₃,
      )

  after_hold-Keeps :
      (input : ConfirmBookingInput) (id : String) → Keeps I (after_hold c topic input id)
  unfolding after_hold settle
  after_hold-Keeps input id w i = elim (Outcome-cases (c.charge (charge_request input id) w)) [
    | inl (ch, w₁, called) ↦
        let there : I w₁ = rw called at (kept.charge (charge_request input id) w i) in
        elim (Bool-cases (is_succeeded ch.status)) [
          | inl good ↦ paid-Keeps input id w called good there
          | inr bad ↦ declined-Keeps input id w called bad there
        ]
    | inr (e, w₁, thrown) ↦
        let there : I w₁ = rw thrown at (kept.charge (charge_request input id) w i) in
        ground (arith, kept.release_booking id payment_failed w₁ there)
  ]

  -- However a confirmation ends, it keeps what every call of the clients keeps.
  pub confirm_booking-Keeps :
      (input : ConfirmBookingInput) → Keeps I (confirm_booking c topic input)
  unfolding confirm_booking
  confirm_booking-Keeps input w i = elim (Outcome-cases (c.create_hold (hold_request input) w)) [
    | inl (h, w₁, made) ↦
        let there : I w₁ = rw made at (kept.create_hold (hold_request input) w i) in
        ground (arith, after_hold-Keeps input h.id w₁ there)
    | inr (e, w₁, thrown) ↦ ground (arith, kept.create_hold (hold_request input) w i)
  ]

  refund_if_paid-Keeps : (payment : Option String) → Keeps I (refund_if_paid c topic payment)
  refund_if_paid-Keeps none w i = i
  refund_if_paid-Keeps (some id) w i = ground (arith, kept.refund id w i)

  -- However a cancellation ends, it keeps what every call of the clients keeps.
  pub cancel_booking-Keeps :
      (now id : String) (payment : Option String) → Keeps I (cancel_booking c topic now id payment)
  unfolding cancel_booking
  cancel_booking-Keeps now id payment w i =
      let w₁ = (refund_if_paid c topic payment w).1 in
      let w₂ = (c.release_booking id user_cancelled w₁).1 in
      let k₁ = refund_if_paid-Keeps payment w i in
      let k₂ = kept.release_booking id user_cancelled w₁ k₁ in
      ground (arith, kept.publish topic (booking_cancelled id payment now) w₂ k₂)
