-- ===== src/Orchestrator/Compensation.antt =====
-- What the endings of the saga promise: compensation, charges and refunds.
use billing_app_microservice.Prelude.{
  ◌==◌, eq_refl, if◌then◌else◌, ℕ, suc, ◌+◌, ◌<◌, String, Bool, true, false, not, ◌&&◌, ◌||◌, [],
  ◌∷◌, ◌≡◌, ◌⊎◌, refl, arith, inl, inr, Bool-cases,
}
use billing_app_microservice.Prelude.Js.{number, num_le, is_empty}
use billing_app_microservice.Effect.{Result, is_ok, ok, err, Result-cases}
use billing_app_microservice.Utils.Errors.{Error}
use billing_app_microservice.Booking.Model.{Booking}
use billing_app_microservice.Payment.Model.{is_succeeded}
use billing_app_microservice.Orchestrator.Clients.{ChargeResponse, payment_failed}
use billing_app_microservice.Orchestrator.Trace.{
  hold, confirm, release, charge, refund, publish, Log, Answers, recorded,
}
use billing_app_microservice.Orchestrator.Service.{
  ConfirmBookingInput, ConfirmBookingResult, hold_request, charge_request, after_hold,
  confirm_booking,
}
use billing_app_microservice.Orchestrator.Saga.{
  charged_log, confirmed_event, Ending, paid, paid_unpublished, paid_unconfirmed, declined,
  declined_unpublished, declined_unreleased, uncharged, after_hold-Ending,
}

-- How often the release of the booking was asked for, after a payment that failed.
abbrev pub releases : String → Log → ℕ
releases k [] = 0
releases k (release id payment_failed ∷ log) =
    let rest = releases k log in if id == k then suc rest else rest
releases k (_ ∷ log) = releases k log

abbrev pub charges : Log → ℕ
charges [] = 0
charges (charge r ∷ log) = suc (charges log)
charges (_ ∷ log) = charges log

abbrev pub refunds : Log → ℕ
refunds [] = 0
refunds (refund id ∷ log) = suc (refunds log)
refunds (_ ∷ log) = refunds log

module _ (a : Answers) (topic : String) (input : ConfirmBookingInput) (id : String)
    (log : Log) where
  -- The charge went through and the booking service confirmed the booking.
  pub record WasConfirmed : Type 0 where
    pub charged : ChargeResponse
    pub booking : Booking
    pub charge_answer : a.to_charge log ≡ ok charged
    pub paid : is_succeeded charged.status ≡ true
    pub confirm_answer : a.to_confirm (charged_log a topic input id log) ≡ ok booking

  Ending-compensated :
      {r : Result ConfirmBookingResult} {end : Log}
      → Ending a topic input id log r end
      → (WasConfirmed × (releases id end ≡ releases id log)) ⊎ (releases id log < releases id end)
  Ending-compensated (paid ch b c s k out e) = inl (
    record { charged = ch; booking = b; charge_answer = c; paid = s; confirm_answer = k },
    rw e refl,
  )
  Ending-compensated (paid_unpublished ch b x c s k out e) = inl (
    record { charged = ch; booking = b; charge_answer = c; paid = s; confirm_answer = k },
    rw e refl,
  )
  Ending-compensated (paid_unconfirmed ch x c s k out e) = inr (rw e (ground (arith, eq_refl id)))
  Ending-compensated (declined ch c s out e) = inr (rw e (ground (arith, eq_refl id)))
  Ending-compensated (declined_unpublished ch x c s out e) = inr (rw e (ground (arith, eq_refl id)))
  Ending-compensated (declined_unreleased ch x c s out e) = inr (rw e (ground (arith, eq_refl id)))
  Ending-compensated (uncharged x c out e) = inr (rw e (ground (arith, eq_refl id)))

  Ending-charges :
      {r : Result ConfirmBookingResult} {end : Log}
      → Ending a topic input id log r end
      → (charges end ≡ charges log + 1) × (refunds end ≡ refunds log)
  Ending-charges (paid ch b c s k out e) = rw e (omega arith)
  Ending-charges (paid_unpublished ch b x c s k out e) = rw e (omega arith)
  Ending-charges (paid_unconfirmed ch x c s k out e) = rw e (omega arith)
  Ending-charges (declined ch c s out e) = rw e (omega arith)
  Ending-charges (declined_unpublished ch x c s out e) = rw e (omega arith)
  Ending-charges (declined_unreleased ch x c s out e) = rw e (omega arith)
  Ending-charges (uncharged x c out e) = rw e (omega arith)

  Ending-success :
      {r : Result ConfirmBookingResult} {end : Log} (x : ConfirmBookingResult)
      → Ending a topic input id log r end
      → r ≡ ok x
      → x.success ≡ true
      → (w : WasConfirmed) × (end
          ≡ publish (confirmed_event a topic input id log w.charged)
            ∷ confirm id
            ∷ charged_log a topic input id log)
  Ending-success x (paid ch b c s k out e) here yes' =
      (record { charged = ch; booking = b; charge_answer = c; paid = s; confirm_answer = k }, e)
  Ending-success x (paid_unpublished ch b y c s k out e) here yes' = absurd (ground arith)
  Ending-success x (paid_unconfirmed ch y c s k out e) here yes' = absurd (ground arith)
  Ending-success x (declined ch c s out e) here yes' = absurd (ground arith)
  Ending-success x (declined_unpublished ch y c s out e) here yes' = absurd (ground arith)
  Ending-success x (declined_unreleased ch y c s out e) here yes' = absurd (ground arith)
  Ending-success x (uncharged y c out e) here yes' = absurd (ground arith)

module _ (a : Answers) (topic : String) (input : ConfirmBookingInput) (log : Log) where
  abbrev held : Log
  held = hold (hold_request input) ∷ log

  abbrev run : Result ConfirmBookingResult × Log
  run = confirm_booking (recorded a) topic input log

  -- No hold was made: the run threw before its first call, or the first call, that for the hold, was
  -- refused, and it made no other.
  abbrev pub IsUnheld : Type 0
  IsUnheld =
      (is_ok run.0 ≡ false)
      × ((run.1 ≡ log) ⊎ ((run.1 ≡ held) × ((e : Error) × (a.to_hold log ≡ err e))))

  -- Either no hold was made, and nothing was charged or refunded; or one was.
  confirm_booking-held :
      ((charges run.1 ≡ charges log) × (refunds run.1 ≡ refunds log) × IsUnheld)
      ⊎ ((h : Booking) × (a.to_hold log ≡ ok h)
          × (run ≡ after_hold (recorded a) topic input h.id held))
  confirm_booking-held = elim (Result-cases (a.to_hold log)) [
    | inl (h, made) ↦ elim (Bool-cases valid) [
      | inl good ↦ inr (h, made, unfold confirm_booking in ground arith)
      | inr bad ↦ inl (unheld bad)
    ]
    | inr (e, refused) ↦ elim (Bool-cases valid) [
      | inl good ↦
          let here : run ≡ (err e, held) = unfold confirm_booking in ground arith in
          inl (rw here (refl, refl, (refl, inr (refl, (e, refused)))))
      | inr bad ↦ inl (unheld bad)
    ]
  ]
    where
      valid : Bool
      valid =
          not (is_empty input.trip_id || is_empty input.seat_id || is_empty input.user_id)
          && not (num_le input.to_stop_seq input.from_stop_seq)
          && not (num_le input.amount (number 0))

      unheld :
          valid ≡ false → (charges run.1 ≡ charges log) × (refunds run.1 ≡ refunds log) × IsUnheld
      unheld bad =
          let still : (run.1 ≡ log) × (is_ok run.0 ≡ false) =
            unfold confirm_booking in ground arith in
          rw (still.0) (refl, refl, (still.1, inl refl))

  -- Whatever the services answer: either no hold was made, and then the run throws, having made no
  -- call, or none but the one for the hold, which was refused; or a hold was made, and then either
  -- the charge succeeded and the booking was confirmed, and its release was not asked for, or its
  -- release was asked for at least once.
  pub saga_compensates :
      IsUnheld
      ⊎ ((h : Booking) × (a.to_hold log ≡ ok h)
          × ((WasConfirmed a topic input h.id held × (releases h.id run.1 ≡ releases h.id log))
              ⊎ (releases h.id log < releases h.id run.1)))
  saga_compensates = elim confirm_booking-held [
    | inl (_, _, none_made) ↦ inl none_made
    | inr (h, made, same) ↦ inr (
      h,
      made,
      rw same
          (Ending-compensated a topic input h.id held (after_hold-Ending a topic input h.id held)),
    )
  ]

  -- A run charges at most once, and exactly once if a hold was made and the run went on; it never
  -- refunds.
  pub saga_charges_once :
      (refunds run.1 ≡ refunds log)
      × (((charges run.1 ≡ charges log) × (is_ok run.0 ≡ false))
          ⊎ (charges run.1 ≡ charges log + 1))
  saga_charges_once = elim confirm_booking-held [
    | inl (ch, re, (threw, _)) ↦ (re, inl (ch, threw))
    | inr (h, made, same) ↦
        let (ch, re) =
          Ending-charges a topic input h.id held (after_hold-Ending a topic input h.id held) in
        rw same (re, inr ch)
  ]

  -- A run reports success only after hold, charge, confirmation and publication, in that order, with
  -- the charge keyed by the hold's id, and each of the first three accepted.
  pub saga_success :
      (x : ConfirmBookingResult)
      → run.0 ≡ ok x
      → x.success ≡ true
      → (h : Booking) × (a.to_hold log ≡ ok h)
        × (w : WasConfirmed a topic input h.id held) × (run.1
            ≡ publish (confirmed_event a topic input h.id held w.charged)
              ∷ confirm h.id
              ∷ charge (charge_request input h.id)
              ∷ hold (hold_request input)
              ∷ log)
  saga_success x here won = elim confirm_booking-held [
    | inl (_, _, (threw, _)) ↦ absurd (ground arith)
    | inr (h, made, same) ↦
        let (w, calls) =
          Ending-success a topic input h.id held x (after_hold-Ending a topic input h.id held)
            (rw same at here) won in
        (h, made, w, rw same calls)
  ]

-- A charge that succeeded is not given back when the booking service then refuses to confirm: the run
-- releases the hold, makes no refund, and throws that refusal.
pub paid_without_booking :
    (a : Answers) (topic : String) (input : ConfirmBookingInput) (id : String) (log : Log)
    {ch : ChargeResponse} {e : Error}
    → a.to_charge log ≡ ok ch
    → is_succeeded ch.status ≡ true
    → a.to_confirm (charge (charge_request input id) ∷ log) ≡ err e
    → after_hold (recorded a) topic input id log
      ≡ (err e, release id payment_failed ∷ confirm id ∷ charge (charge_request input id) ∷ log)
unfolding after_hold
paid_without_booking a topic input id log charged won refused = ground arith
