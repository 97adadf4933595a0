-- ===== src/Orchestrator/ProgressRuns.antt =====
-- A day on which the sample orchestrator sells a seat.
use billing_app_microservice.Prelude.{true, some, [], ◌∷◌, ◌≡◌, refl, arith}
use billing_app_microservice.Prelude.Js.{number, trim, show_ℕ}
use billing_app_microservice.Effect.{ok}
use billing_app_microservice.Platform.Memory.{locks}
use billing_app_microservice.Booking.Model.{Booking, confirmed}
use billing_app_microservice.Booking.Lock.{acquire_lock}
use billing_app_microservice.Booking.Repository.{booking_of, set_status}
use billing_app_microservice.Booking.Service.{new_hold, lock_key}
use billing_app_microservice.Payment.Model.{Payment}
use billing_app_microservice.Payment.Repository.{payment_of}
use billing_app_microservice.Payment.Service.{new_payment, result_of}
use billing_app_microservice.Payment.Controller as PaymentHandlers
use billing_app_microservice.Orchestrator.Service.{
  charge_request, confirmed_result, confirm_booking,
}
use billing_app_microservice.Orchestrator.Wired.{
  Turn, World, fair, calm, charge_body, charge_answer, wired,
}
use billing_app_microservice.Orchestrator.Served.{Resolves}
use billing_app_microservice.Orchestrator.Day.{FairDay, IsProper, Answered}
use billing_app_microservice.Orchestrator.Progress.{confirm_booking-served}
use billing_app_microservice.Orchestrator.Sample.{axios, bookings, payments, env, input, starting}

axios-Resolves : Resolves axios
axios-Resolves A answer a low high body = ground (arith, body)

abbrev first_turn : Turn
first_turn = record { wait = 1; weather = fair; lock_value = "V"; random = 0 }

abbrev second_turn : Turn
second_turn = record { wait = 20; weather = fair; lock_value = "V"; random = 3 }

abbrev day : FairDay env 9
day = record {
  at_hold = first_turn;
  at_charge = second_turn;
  at_confirm = calm;
  at_publish = calm;
  rest = [];
  fair_hold = refl;
  fair_charge = refl;
  fair_confirm = refl;
  fair_publish = refl;
  value = refl;
  drawn = omega arith;
  in_time = omega arith;
}

abbrev world : World bookings locks payments
world = starting fair 3

abbrev hold : Booking
hold = booking_of (new_hold env 101 "T" "A1" "U" (number 3) (number 5)) "0"

abbrev payment : Payment
payment =
    payment_of
      (new_payment
        (PaymentHandlers.dto_of (charge_body bookings locks payments (charge_request input "0")))
        true)
      "0"

answers : Answered bookings locks payments env 9 input world day
unfolding acquire_lock lock_key show_ℕ trim
answers = record {
  locks = ("lock:trip:T:seat:A1", "V") ∷ [];
  active = [];
  hold = hold;
  held = hold ∷ [];
  payment = payment;
  paid = payment ∷ [];
  found = some hold;
  booking = set_status confirmed hold;
  sold = set_status confirmed hold ∷ [];
  lock_answer = refl;
  search_answer = refl;
  hold_answer = refl;
  named = refl;
  key_answer = refl;
  payment_answer = refl;
  id_answer = refl;
  sold_answer = refl;
}

proper : IsProper input
unfolding trim
proper = record {
  trip = refl;
  seat = refl;
  user = refl;
  user_shown = refl;
  forwards = refl;
  priced = refl;
}

confirm_booking-served_example :
    (after : World bookings locks payments) × (confirm_booking
        (wired bookings locks payments axios env 9)
        "booking-events"
        input
        (record world { turns = first_turn ∷ second_turn ∷ calm ∷ calm ∷ [] })
      ≡ (
        ok (
            confirmed_result answers.booking
              (charge_answer bookings locks payments (result_of true answers.payment))),
        after,
      ))
    × (after.bookings ≡ answers.sold)
    × (after.payments ≡ answers.paid)
confirm_booking-served_example =
    confirm_booking-served bookings locks payments env 9 input axios axios-Resolves "booking-events"
      world day answers proper tt (λ k leg. refl)
