-- ===== src/Orchestrator/Sample.antt =====
-- A small instance of the orchestrator with the two services behind it, on tables in memory.
use billing_app_microservice.Prelude.{
  ℕ, ◌≤◌, ◌<◌, Bool, ◌&&◌, none, some, [], ◌∷◌, ◌≡◌, arith, leb, ltb, if◌then◌else◌, inl, inr,
  Option-cases,
}
use billing_app_microservice.Prelude.Js.{number}
use billing_app_microservice.Effect.{Result, ok, err}
use billing_app_microservice.Utils.Errors.{plain}
use billing_app_microservice.Utils.Response.{Response}
use billing_app_microservice.Platform.Memory.{memory, locks}
use billing_app_microservice.Booking.Model.{BookingTable, same_id}
use billing_app_microservice.Booking.Service.{Env}
use billing_app_microservice.Payment.Model.{PaymentTable, same_id_or_key}
use billing_app_microservice.Orchestrator.Service.{ConfirmBookingInput}
use billing_app_microservice.Orchestrator.Wired.{Axios, World, Weather, fair}

abbrev pub resolves : ℕ → Bool
resolves n = leb 200 n && ltb n 300

abbrev pub data_of : (A : Type 0) → Response A → Result A
data_of A r =
    if resolves r.status
    then elim r.body [ none ↦ err (plain "no data") | some a ↦ ok a ]
    else err (plain "Request failed")

pub data_of-ok :
    (A : Type 0) (r : Response A) {a : A}
    → data_of A r ≡ ok a
    → (200 ≤ r.status) × (r.status < 300) × (r.body ≡ some a)
data_of-ok A r e = elim (Option-cases r.body) [
  | inl empty ↦ absurd (ground arith)
  | inr (b, there) ↦ (ground arith, ground arith, ground arith)
]

abbrev pub axios : Axios
axios = record { data_of = data_of; data_of_ok = data_of-ok }

abbrev pub bookings : BookingTable
bookings = memory (λ b. b.id) same_id

abbrev pub payments : PaymentTable
payments = memory (λ p. p.id) same_id_or_key

abbrev pub env : Env
env = record { hold_duration_minutes = 5; lock_ttl_ms = 5000 }

abbrev pub input : ConfirmBookingInput
input = record {
  trip_id = "T";
  seat_id = "A1";
  user_id = "U";
  from_stop_seq = number 3;
  to_stop_seq = number 5;
  amount = number 500;
  currency = none;
}

-- Twenty milliseconds pass before the charge, which meets `weather` and draws `random`.
abbrev pub starting : Weather → ℕ → World bookings locks payments
starting weather random = record {
  now = 100;
  bookings = [];
  locks = [];
  payments = [];
  published = [];
  turns =
      record { wait = 1; weather = fair; lock_value = "V"; random = 0 }
      ∷ record { wait = 20; weather = weather; lock_value = "V"; random = random }
      ∷ [];
}
