-- ===== src/Orchestrator/Progress.antt =====
-- When nothing stands in its way, a saga sells the seat.
use Prim.Native.String.{◌++◌ as ◌<>◌}
use Prim.Native.String.append
use billing_app_microservice.Prelude.{
  ℕ, ◌+◌, String, true, false, some, ◌∷◌, ◌≡◌, refl, ◌∙◌, arith, first, ◌==◌,
}
use billing_app_microservice.Prelude.Js.{Number, nan, num, num_le, is_empty-trim, is_space}
use billing_app_microservice.Effect.{ok}
use billing_app_microservice.Platform.Redis.{Redis}
use billing_app_microservice.Booking.Model.{BookingTable}
use billing_app_microservice.Booking.Lock.{release_lock}
use billing_app_microservice.Booking.Service.{Env, Draws, lock_key, hold_duration_ms}
use billing_app_microservice.Booking.Overlap.{IsJourney}
use billing_app_microservice.Booking.Forwards.{IsForwards}
use billing_app_microservice.Booking.SeatMap.{seat_map, IsOpen}
use billing_app_microservice.Booking.SeatMap.Granted.{create_hold-granted}
use billing_app_microservice.Payment.Model.{PaymentTable, succeeded}
use billing_app_microservice.Payment.Service.{is_blank, result_of}
use billing_app_microservice.Orchestrator.Success.{sold_event}
use billing_app_microservice.Orchestrator.Service.{
  ConfirmBookingInput, hold_request, charge_request, confirmed_result, settle, after_hold,
  confirm_booking,
}
use billing_app_microservice.Orchestrator.Answers.{key_same}
use billing_app_microservice.Orchestrator.Served.{
  Resolves, hold-served, charge-served, confirm-served, confirm-granted, found-fresh,
}
use billing_app_microservice.Orchestrator.Wired.{Axios, World, charge_answer, wired}
use billing_app_microservice.Orchestrator.Day.{FairDay, IsProper, Answered}

ordered : (from to : Number) → IsJourney from to → num_le to from ≡ false
ordered nan to h = absurd (ground arith)
ordered (num a) nan h = absurd (ground arith)
ordered (num a) (num b) h = ground arith

is_blank-key : (id : String) → is_blank ("booking-" <> id) ≡ false
unfolding is_space
is_blank-key id = rw (append.cons _ "ooking-" id) (is_empty-trim _ ("ooking-" <> id) refl)

module _ (t : BookingTable) (r : Redis) (p : PaymentTable) (env : Env) (rate : ℕ)
    (input : ConfirmBookingInput) where
  module _ (axios : Axios) (resolves : Resolves axios) (topic : String) (w : World t r p)
      (day : FairDay env rate) (a : Answered t r p env rate input w day)
      (proper : IsProper input) where
    -- The worlds before the calls.
    abbrev start_world : World t r p
    start_world = record w {
      turns = day.at_hold ∷ day.at_charge ∷ day.at_confirm ∷ day.at_publish ∷ day.rest;
    }

    abbrev held_world : World t r p
    held_world = record w {
      now = w.now + day.at_hold.wait;
      bookings = a.held;
      locks =
          (release_lock r (lock_key input.trip_id input.seat_id) day.at_hold.lock_value a.locks).1;
      turns = day.at_charge ∷ day.at_confirm ∷ day.at_publish ∷ day.rest;
    }

    abbrev paid_world : World t r p
    paid_world = record held_world {
      now = w.now + day.at_hold.wait + day.at_charge.wait;
      payments = a.paid;
      turns = day.at_confirm ∷ day.at_publish ∷ day.rest;
    }

    abbrev sold_world : World t r p
    sold_world = record paid_world {
      now = w.now + day.at_hold.wait + day.at_charge.wait + day.at_confirm.wait;
      bookings = a.sold;
      turns = day.at_publish ∷ day.rest;
    }

    hold_step :
        IsForwards (t.rows w.bookings)
        → IsOpen input.trip_id input.seat_id input.from_stop_seq input.to_stop_seq
            (seat_map (w.now + day.at_hold.wait) (t.rows w.bookings))
        → (wired t r p axios env rate).create_hold (hold_request input) start_world
          ≡ (ok a.hold, held_world)
    hold_step runs free =
        let draws : Draws = record {
          lock_value = day.at_hold.lock_value;
          searched_at = w.now + day.at_hold.wait;
          held_at = w.now + day.at_hold.wait;
        } in
        hold-served t r p axios resolves env (hold_request input) start_world day.fair_hold
          proper.user
          (create_hold-granted t r env draws input.trip_id input.seat_id input.user_id
            input.from_stop_seq input.to_stop_seq (w.bookings, w.locks) proper.trip proper.seat
            proper.user day.value proper.forwards runs free a.lock_answer a.search_answer
            a.hold_answer)

    charge_step :
        (wired t r p axios env rate).charge (charge_request input a.hold.id) held_world
        ≡ (ok (charge_answer t r p (result_of true a.payment)), paid_world)
    charge_step =
        charge-served t r p axios resolves env rate (charge_request input a.hold.id) held_world
          day.fair_charge day.drawn (is_blank-key a.hold.id) proper.user_shown a.named proper.priced
          (rw (key_same ("booking-" <> a.hold.id)) a.key_answer) a.payment_answer

    confirm_step :
        (wired t r p axios env rate).confirm_booking a.hold.id paid_world
        ≡ (ok a.booking, sold_world)
    confirm_step =
        let (id, row, stored, fresh) = t.create_ok _ w.bookings a.hold_answer in
        let there : first (λ z. z.id == a.hold.id) (t.rows a.held) ≡ some a.hold =
          rw stored (found-fresh a.hold (t.rows w.bookings) fresh) in
        let hit : a.found ≡ some a.hold = t.find_first_ok _ a.held a.id_answer ∙ there in
        let until : a.hold.hold_expires_at
            ≡ some (w.now + day.at_hold.wait + hold_duration_ms env) =
          rw row refl in
        confirm-served t r p axios resolves a.hold.id paid_world day.fair_confirm (
          confirm-granted t (w.now + day.at_hold.wait + day.at_charge.wait + day.at_confirm.wait)
            a.hold.id a.held {x = a.hold} (ground (arith, a.named)) (rw (← hit) a.id_answer)
            (rw row refl) (ground (arith, until, day.in_time)) a.sold_answer)

    -- A proper request for a seat that is open on the map of a table whose bookings run forwards, on
    -- a day on which every call is fair, in time and answered by the databases, with the seat's lock
    -- and the payment's key free: where axios resolves what is answered with a status from 200 to
    -- 299, `confirmBooking` returns with success, with the booking that the database has confirmed
    -- and the payment that it has stored.
    pub confirm_booking-served :
        IsForwards (t.rows w.bookings)
        → IsOpen input.trip_id input.seat_id input.from_stop_seq input.to_stop_seq
            (seat_map (w.now + day.at_hold.wait) (t.rows w.bookings))
        → (after : World t r p) × (confirm_booking
              (wired t r p axios env rate)
              topic
              input
              start_world
            ≡ (
              ok (confirmed_result a.booking (charge_answer t r p (result_of true a.payment))),
              after,
            ))
          × (after.bookings ≡ a.sold)
          × (after.payments ≡ a.paid)
    unfolding confirm_booking after_hold settle
    confirm_booking-served runs free =
        let c = wired t r p axios env rate in
        let charged = charge_answer t r p (result_of true a.payment) in
        let after = (c.publish topic (sold_event c topic input a.hold.id charged) sold_world).1 in
        let (id, row, _, _) = p.create_ok _ w.payments a.payment_answer in
        let good : a.payment.status ≡ succeeded = rw row refl in
        let made = hold_step runs free in
        let clear = day.fair_publish in
        (
          after,
          ground (
            arith,
            made,
            charge_step,
            confirm_step,
            clear,
            good,
            ordered input.from_stop_seq input.to_stop_seq proper.forwards,
          ),
          ground arith,
          ground arith,
        )
