-- ===== src/Orchestrator/Day.antt =====
-- A day on which nothing stands in the way of a confirmation: the turns of its calls, a proper
-- request, and the answers of the databases.
use billing_app_microservice.Prelude.{
  ℕ, ◌+◌, ◌≤◌, ◌<◌, true, false, Option, none, some, List, ◌≡◌, ◌==◌,
}
use billing_app_microservice.Prelude.Js.{is_empty}
use billing_app_microservice.Effect.{ok}
use billing_app_microservice.Platform.Redis.{Redis}
use billing_app_microservice.Booking.Model.{Booking, BookingTable, confirmed}
use billing_app_microservice.Booking.Lock.{acquire_lock}
use billing_app_microservice.Booking.Repository.{is_active_for, create_booking, update_status}
use billing_app_microservice.Booking.Service.{Env, new_hold, lock_key, or_default, hold_duration_ms}
use billing_app_microservice.Booking.Overlap.{IsJourney}
use billing_app_microservice.Payment.Model.{Payment, PaymentTable}
use billing_app_microservice.Payment.Repository.{create_payment}
use billing_app_microservice.Payment.Service.{is_blank, new_payment}
use billing_app_microservice.Payment.Controller as PaymentHandlers
use billing_app_microservice.Orchestrator.Service.{ConfirmBookingInput, charge_request}
use billing_app_microservice.Orchestrator.Paid.{paid_key}
use billing_app_microservice.Orchestrator.Wired.{fair, Turn, World, charge_body}

-- The turns of the four calls of a saga: they are fair, the draw of the payment lies below the rate,
-- and no more time passes between the hold and its confirmation than the hold lasts.
pub record FairDay (env : Env) (rate : ℕ) : Type 0 where
  pub at_hold : Turn
  pub at_charge : Turn
  pub at_confirm : Turn
  pub at_publish : Turn
  pub rest : List Turn
  pub fair_hold : at_hold.weather ≡ fair
  pub fair_charge : at_charge.weather ≡ fair
  pub fair_confirm : at_confirm.weather ≡ fair
  pub fair_publish : at_publish.weather ≡ fair
  pub value : is_empty at_hold.lock_value ≡ false
  pub drawn : at_charge.random < rate
  pub in_time : at_charge.wait + at_confirm.wait ≤ hold_duration_ms env

-- The request names a trip, a seat and a user, a journey that runs forwards, and an amount.
pub record IsProper (input : ConfirmBookingInput) : Type 0 where
  pub trip : is_empty input.trip_id ≡ false
  pub seat : is_empty input.seat_id ≡ false
  pub user : is_empty input.user_id ≡ false
  pub user_shown : is_blank input.user_id ≡ false
  pub forwards : IsJourney input.from_stop_seq input.to_stop_seq
  pub priced : PaymentHandlers.is_no_amount (some input.amount) ≡ false

module _ (t : BookingTable) (r : Redis) (p : PaymentTable) (env : Env) (rate : ℕ)
    (input : ConfirmBookingInput) where
  -- The databases and Redis answer; no one has the lock of the seat, and no payment the key.
  pub record Answered (w : World t r p) (day : FairDay env rate) : Type 0 where
    pub locks : r.Store
    pub active : List Booking
    pub hold : Booking
    pub held : t.Store
    pub payment : Payment
    pub paid : p.Store
    pub found : Option Booking
    pub booking : Booking
    pub sold : t.Store
    pub lock_answer :
        acquire_lock r day.at_hold.lock_value
          (lock_key input.trip_id input.seat_id)
          (or_default env.lock_ttl_ms 5000)
          w.locks
        ≡ (ok (some day.at_hold.lock_value), locks)
    pub search_answer :
        t.find_many
          (is_active_for (w.now + day.at_hold.wait) input.trip_id input.seat_id)
          w.bookings
        ≡ ok active
    pub hold_answer :
        create_booking t
          (new_hold env
            (w.now + day.at_hold.wait)
            input.trip_id
            input.seat_id
            input.user_id
            input.from_stop_seq
            input.to_stop_seq)
          w.bookings
        ≡ (ok hold, held)
    pub named : is_blank hold.id ≡ false
    pub key_answer : p.find_first (λ z. z.idempotency_key == paid_key hold.id) w.payments ≡ ok none
    pub payment_answer :
        create_payment p
          (new_payment
            (PaymentHandlers.dto_of (charge_body t r p (charge_request input hold.id)))
            true)
          w.payments
        ≡ (ok payment, paid)
    pub id_answer : t.find_first (λ z. z.id == hold.id) held ≡ ok found
    pub sold_answer : update_status t hold.id confirmed held ≡ (ok booking, sold)
