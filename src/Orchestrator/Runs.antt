-- ===== src/Orchestrator/Runs.antt =====
-- A run of the orchestrator with the two services behind it, on the tables in memory, and a
-- publication.
use billing_app_microservice.Prelude.{Bool, true, false, List, [], ◌∷◌, ◌≡◌, refl, Any, arith}
use billing_app_microservice.Prelude.Js.{number, trim, to_upper_case, show_ℕ}
use billing_app_microservice.Prelude.ParseInt.{number_or_parsed}
use billing_app_microservice.Effect.{Result, ok}
use billing_app_microservice.Utils.Response.{respond, respond_error}
use billing_app_microservice.Platform.Memory.{locks}
use billing_app_microservice.Booking.Model.{Booking, confirmed}
use billing_app_microservice.Booking.Segments.{is_blocking, has_segment_conflict}
use billing_app_microservice.Booking.Lock.{acquire_lock, release_lock, release_script}
use billing_app_microservice.Booking.Repository.{booking_of, set_status}
use billing_app_microservice.Booking.Service.{
  Env, new_hold, lock_key, check_availability, check_and_hold,
}
use billing_app_microservice.Booking.Service as BookingService
use billing_app_microservice.Booking.Controller as BookingHandlers
use billing_app_microservice.Payment.Model.{Payment}
use billing_app_microservice.Payment.Repository.{payment_of}
use billing_app_microservice.Payment.Service.{
  charge, process_new, simulate_charge_outcome, new_payment, result_of,
}
use billing_app_microservice.Payment.Controller.{dto_of, process_charge}
use billing_app_microservice.Orchestrator.Service.{
  charge_request, confirmed_result, settle, after_hold, confirm_booking,
}
use billing_app_microservice.Orchestrator.Wired.{World, fair, charge_body, charge_answer, wired}
use billing_app_microservice.Orchestrator.Clients.{Event, booking_failed}
use billing_app_microservice.Orchestrator.Publisher.{
  Message, Producer, connect, message, IsRecord, publish, publish-ok,
}
use billing_app_microservice.Orchestrator.Success.{sold_event}
use billing_app_microservice.Orchestrator.Sale.{IsSale, confirm_booking-IsSale}
use billing_app_microservice.Orchestrator.Sample.{axios, bookings, payments, env, input, starting}

abbrev before : World bookings locks payments
before = starting fair 3

abbrev hold : Booking
hold = booking_of (new_hold env 101 "T" "A1" "U" (number 3) (number 5)) "0"

abbrev payment : Payment
payment =
    payment_of
      (new_payment (dto_of (charge_body bookings locks payments (charge_request input "0"))) true)
      "0"

abbrev after : World bookings locks payments
after = record {
  now = 121;
  bookings = set_status confirmed hold ∷ [];
  locks = [];
  payments = payment ∷ [];
  published =
      (
        "booking-events",
        sold_event (wired bookings locks payments axios env 9) "booking-events" input "0"
            (charge_answer bookings locks payments (result_of true payment)),
      )
      ∷ [];
  turns = [];
}

run : confirm_booking (wired bookings locks payments axios env 9) "booking-events" input before ≡ (
  ok (
      confirmed_result
        (set_status confirmed hold)
        (charge_answer bookings locks payments (result_of true payment))),
  after,
)
unfolding confirm_booking after_hold settle BookingHandlers.create_hold
    BookingHandlers.confirm_booking BookingService.create_hold BookingService.confirm_booking
    check_and_hold check_availability has_segment_conflict is_blocking to_upper_case acquire_lock
    release_lock release_script lock_key show_ℕ trim respond respond_error number_or_parsed
    process_charge charge process_new simulate_charge_outcome
run = refl

confirm_booking-IsSale_example :
    IsSale bookings locks payments env "booking-events" input before after
confirm_booking-IsSale_example =
    confirm_booking-IsSale bookings locks payments axios env 9 "booking-events" input before after
      run refl

send_taken :
    (m : Message) (s : List Message) {s' : List Message}
    → ◌≡◌ {A = Result (Unit {0}) × List Message} (ok tt, m ∷ s) (ok tt, s')
    → Any (λ x. x ≡ m) s'
send_taken m s e = ground arith

-- A producer that keeps the records in a list, the last one first.
abbrev producer : Producer
producer = record {
  Store = List Message;
  taken = λ s. s;
  connect = λ s. (ok tt, s);
  disconnect = λ s. (ok tt, s);
  send = λ m s. (ok tt, m ∷ s);
  connect_taken = λ s. refl;
  disconnect_taken = λ s. refl;
  send_ok = send_taken;
}

abbrev event : Event
event = booking_failed "B" "U" "Payment declined"

published :
    publish producer "orchestrator" "now" "booking-events" event
      (record { producer = []; is_connected = false })
    ≡ (
      ok tt,
      record {
        producer = message producer "orchestrator" "booking-events" "now" event ∷ [];
        is_connected = true;
      },
    )
unfolding publish connect
published = refl

publish-ok_example :
    ◌≡◌ {A = Bool} true true
    × Any
        (IsRecord producer "orchestrator" "booking-events" "now" event)
        (message producer "orchestrator" "booking-events" "now" event ∷ [])
publish-ok_example =
    publish-ok producer "orchestrator" "now" "booking-events" event
      (record { producer = []; is_connected = false }) published
