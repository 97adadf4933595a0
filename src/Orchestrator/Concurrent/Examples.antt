-- ===== src/Orchestrator/Concurrent/Examples.antt =====
-- A saga that runs to its end among idle ones, and the services' answers to other sagas.
use billing_app_microservice.Prelude.{◌+◌, ◌≤◌, some, [], refl, All, length}
use billing_app_microservice.Effect.{err}
use billing_app_microservice.Utils.Errors.{plain}
use billing_app_microservice.Platform.Memory.{locks}
use billing_app_microservice.Platform.Url.{all_plain}
use billing_app_microservice.Orchestrator.Clients.{Clients}
use billing_app_microservice.Orchestrator.Trace.{Answers, recorded}
use billing_app_microservice.Orchestrator.Service.{confirm_booking, cancel_booking}
use billing_app_microservice.Orchestrator.Wired.{World, fair}
use billing_app_microservice.Orchestrator.Program.Bounds.{sagas-length}
use billing_app_microservice.Orchestrator.Paid.{IsPaidFor}
use billing_app_microservice.Orchestrator.Concurrent.{idle, clients, System}
use billing_app_microservice.Orchestrator.Concurrent.Safety.{Reach-paid}
use billing_app_microservice.Orchestrator.Concurrent.Sound.{Reach-IsSound}
use billing_app_microservice.Orchestrator.Whole.{IsSound}
use billing_app_microservice.Orchestrator.Concurrent.Runs.{confirms, cancels, Ended, sagas-Reach}
use billing_app_microservice.Orchestrator.Sample.{axios, bookings, payments, env, input, starting}

abbrev world : World bookings locks payments
world = starting fair 3

abbrev services : Clients (World bookings locks payments)
services = clients bookings locks payments axios env 9 "booking-events"

abbrev quiet : System bookings locks payments axios env 9 "booking-events"
quiet = record { world = world; pc = λ i. idle; late = [] }

-- Services that refuse every call.
abbrev deaf : Answers
deaf = record {
  to_hold = λ log. err (plain "no");
  to_confirm = λ log. err (plain "no");
  to_release = λ log. err (plain "no");
  to_charge = λ log. err (plain "no");
  to_refund = λ log. err (plain "no");
  to_publish = λ log. err (plain "no");
}

sagas-length_example :
    (length (confirm_booking (recorded deaf) "booking-events" input []).1 ≤ 5 + 0)
    × (length (cancel_booking (recorded deaf) "booking-events" "now" "0" (some "0") []).1 ≤ 3 + 0)
sagas-length_example = sagas-length deaf "booking-events" input "now" "0" (some "0") []

ended :
    Ended bookings locks payments axios env 9 "booking-events" quiet
      (confirms input)
      0
      (confirm_booking services "booking-events" input world).1
unfolding all_plain
ended =
    (sagas-Reach bookings locks payments axios env 9 "booking-events" quiet 0 input "now" "0"
      (some "0") refl (refl, refl)).0

sagas-Reach_example :
    Ended bookings locks payments axios env 9 "booking-events" quiet
      (confirms input)
      0
      (confirm_booking services "booking-events" input world).1
    × Ended bookings locks payments axios env 9 "booking-events" quiet
        (cancels "now" "0" (some "0"))
        0
        (cancel_booking services "booking-events" "now" "0" (some "0") world).1
unfolding all_plain
sagas-Reach_example =
    sagas-Reach bookings locks payments axios env 9 "booking-events" quiet 0 input "now" "0"
      (some "0") refl (refl, refl)

Reach-paid_example :
    All (IsPaidFor (payments.rows ended.0.world.payments)) (bookings.rows ended.0.world.bookings)
Reach-paid_example =
    Reach-paid bookings locks payments axios env 9 "booking-events" quiet ended.0 (λ i. refl) refl
      tt ended.1

Reach-IsSound_example : IsSound bookings locks payments ended.0.world
Reach-IsSound_example =
    Reach-IsSound bookings locks payments axios env 9 "booking-events" quiet ended.0 (tt, tt)
      ended.1
