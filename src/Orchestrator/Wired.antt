-- ===== src/Orchestrator/Wired.antt =====
-- booking-orchestrator/src/clients/bookingServiceClient.ts and paymentServiceClient.ts, joined to the
-- handlers of the two services: what a call does to the databases, to Redis and to the topic of
-- Kafka. The paths of the calls are in Urls.
use billing_app_microservice.Prelude.{ℕ, ◌+◌, ◌≤◌, ◌<◌, String, none, some, List, [], ◌∷◌, ◌≡◌}
use billing_app_microservice.Prelude.Js.{text_or}
use billing_app_microservice.Prelude.ParseInt.{a_number}
use billing_app_microservice.Effect.{Result, ok, err, Action, pure, ◌>>=◌}
use billing_app_microservice.Utils.Errors.{plain}
use billing_app_microservice.Utils.Response.{Response}
use billing_app_microservice.Platform.Redis.{Redis}
use billing_app_microservice.Booking.Model.{Booking, BookingTable}
use billing_app_microservice.Booking.Service.{Env}
use billing_app_microservice.Booking.Controller as BookingHandlers
use billing_app_microservice.Payment.Model.{Payment, PaymentTable, ChargeResult}
use billing_app_microservice.Payment.Service.{Gateway}
use billing_app_microservice.Payment.Controller as PaymentHandlers
use billing_app_microservice.Orchestrator.Clients.{
  Clients, HoldRequest, ChargeRequest, ChargeResponse, ReleaseReason, payment_failed,
  user_cancelled, Event,
}

-- The package axios: `res.data.data` of a call that was answered, where a call resolves for a status
-- from 200 to 299 only.
pub record Axios : Type 1 where
  pub data_of : (A : Type 0) → Response A → Result A
  pub data_of_ok :
      (A : Type 0) (r : Response A) {a : A}
      → data_of A r ≡ ok a
      → (200 ≤ r.status) × (r.status < 300) × (r.body ≡ some a)

-- What becomes of a call on its way.
pub data Weather : Type 0 where
  fair lost_request lost_answer : Weather

-- What the environment gives one call: the time that passes before it, its way, and the draws of the
-- services.
pub record Turn : Type 0 where
  pub wait : ℕ
  pub weather : Weather
  pub lock_value : String
  pub random : ℕ

abbrev pub calm : Turn
calm = record { wait = 0; weather = fair; lock_value = "lock"; random = 0 }

module _ (t : BookingTable) (r : Redis) (p : PaymentTable) where
  pub record World : Type 0 where
    pub now : ℕ
    pub bookings : t.Store
    pub locks : r.Store
    pub payments : p.Store
    pub published : List (String × Event)
    pub turns : List Turn

  -- The turn of a call, with the clock set forward; when none is left all is calm.
  abbrev pub next_turn : List Turn → Turn
  next_turn [] = calm
  next_turn (x ∷ xs) = x

  abbrev pub rest_turns : List Turn → List Turn
  rest_turns [] = []
  rest_turns (x ∷ xs) = xs

  abbrev pub begin : World → World
  begin w = record w { now = w.now + (next_turn w.turns).wait; turns = rest_turns w.turns }

  -- A call over HTTP, with its handler.
  abbrev pub deliver :
      {A : Type 0} → Axios → Weather → (World → Response A × World) → Action World A
  deliver {A} axios fair handler w = let (answer, w') = handler w in (axios.data_of A answer, w')
  deliver axios lost_request handler w = (err (plain "Network Error"), w)
  deliver axios lost_answer handler w = (err (plain "timeout of 5000ms exceeded"), (handler w).1)

  abbrev pub call : {A : Type 0} → Axios → (Turn → World → Response A × World) → Action World A
  call axios handler w =
      deliver axios (next_turn w.turns).weather (handler (next_turn w.turns)) (begin w)

  abbrev pub hold_handler : Env → HoldRequest → Turn → World → Response Booking × World
  hold_handler env q turn w =
      let (answer, s) =
        BookingHandlers.create_hold t r env
          (record { lock_value = turn.lock_value; searched_at = w.now; held_at = w.now })
          (some q.user_id)
          (record {
            trip_id = q.trip_id;
            seat_id = q.seat_id;
            from_stop_seq = a_number q.from_stop_seq;
            to_stop_seq = a_number q.to_stop_seq;
            user_id = some q.user_id;
          })
          (w.bookings, w.locks) in
      (answer, record w { bookings = s.0; locks = s.1 })

  abbrev pub confirm_handler : String → Turn → World → Response Booking × World
  confirm_handler id turn w =
      let (answer, s) = BookingHandlers.confirm_booking t w.now id w.bookings in
      (answer, record w { bookings = s })

  abbrev pub reason_name : ReleaseReason → String
  reason_name payment_failed = "PAYMENT_FAILED"
  reason_name user_cancelled = "USER_CANCELLED"

  abbrev pub release_handler : String → ReleaseReason → Turn → World → Response Booking × World
  release_handler id reason turn w =
      let (answer, s) =
        BookingHandlers.release_booking t id (some (reason_name reason)) w.bookings in
      (answer, record w { bookings = s })

  abbrev pub gateway_at : ℕ → Turn → Gateway
  gateway_at rate turn = record { simulator = none; random = turn.random; success_rate = rate }

  abbrev pub charge_body : ChargeRequest → PaymentHandlers.ChargeRequest
  charge_body q = record {
    idempotency_key = some q.idempotency_key;
    x_idempotency_key = none;
    x_user_id = some q.user_id;
    user_id = none;
    booking_id = some q.booking_id;
    amount = some q.amount;
    currency = some (text_or (some q.currency) "INR");
  }

  abbrev pub charge_handler : ℕ → ChargeRequest → Turn → World → Response ChargeResult × World
  charge_handler rate q turn w =
      let (answer, s) =
        PaymentHandlers.process_charge p (gateway_at rate turn) (charge_body q) w.payments in
      (answer, record w { payments = s })

  abbrev pub refund_handler : String → Turn → World → Response Payment × World
  refund_handler id turn w =
      let (answer, s) = PaymentHandlers.process_refund p id w.payments in
      (answer, record w { payments = s })

  -- The fields of the payment service's answer that the orchestrator reads.
  abbrev pub charge_answer : ChargeResult → ChargeResponse
  charge_answer x = record {
    payment_id = x.payment_id;
    status = x.status;
    failure_reason = x.failure_reason;
  }

  -- `publish` of the event publisher: the message is on the topic, or the call throws.
  abbrev pub send : Weather → String → Event → Action World (Unit {0})
  send fair topic e w = (ok tt, record w { published = (topic, e) ∷ w.published })
  send lost_request topic e w = (err (plain "KafkaJSConnectionError"), w)
  send lost_answer topic e w =
      (err (plain "KafkaJSRequestTimeoutError"), record w { published = (topic, e) ∷ w.published })

  -- The id of a call stands for itself in its path, as the ids do that the databases choose; the path
  -- then leads to the handler that is meant (Urls). What other ids lead to is not modelled here.
  -- `rate` is the payment service's PAYMENT_SUCCESS_RATE, in the unit of the random draws.
  abbrev pub wired : Axios → Env → (rate : ℕ) → Clients World
  wired axios env rate = record {
    create_hold = λ q. call axios (hold_handler env q);
    confirm_booking = λ id. call axios (confirm_handler id);
    release_booking = λ id reason. call axios (release_handler id reason);
    charge = λ q. (do x ← call axios (charge_handler rate q); pure (charge_answer x));
    refund = λ id. (do x ← call axios (refund_handler id); pure tt);
    publish = λ topic e w. send (next_turn w.turns).weather topic e (begin w);
  }
