-- ===== src/Orchestrator/Answers.antt =====
-- What an answer of a service with data says of the operation behind its handler.
use Prim.Native.String.{◌++◌ as ◌<>◌}
use billing_app_microservice.Prelude.{
  ℕ, String, Option, none, some, ◌≡◌, refl, sym, ap, inl, inr, arith,
}
use billing_app_microservice.Prelude.ParseInt.{a_number, number_or_parsed}
use billing_app_microservice.Effect.{ok, Outcome-cases}
use billing_app_microservice.Utils.Response.{Response, respond, respond_error}
use billing_app_microservice.Platform.Redis.{Redis}
use billing_app_microservice.Booking.Model.{Booking, BookingTable}
use billing_app_microservice.Booking.Service.{Env, Draws, new_hold, State}
use billing_app_microservice.Booking.Service as BookingService
use billing_app_microservice.Booking.Controller as BookingHandlers
use billing_app_microservice.Payment.Model.{PaymentTable, ChargeDto, ChargeResult}
use billing_app_microservice.Payment.Service.{Gateway}
use billing_app_microservice.Payment.Service as PaymentService
use billing_app_microservice.Payment.Laws.{charge-ok}
use billing_app_microservice.Payment.Controller as PaymentHandlers
use billing_app_microservice.Orchestrator.Clients.{HoldRequest}
use billing_app_microservice.Orchestrator.Wired.{
  Axios, Weather, fair, lost_request, lost_answer, World, deliver,
}

module _ (t : BookingTable) (r : Redis) (p : PaymentTable) (axios : Axios) where
  -- A call that resolves was delivered, and its answer has the value as its data.
  pub deliver-ok :
      {A : Type 0} (weather : Weather) (handler : World t r p → Response A × World t r p)
      (w : World t r p) {a : A} {w' : World t r p}
      → deliver t r p axios weather handler w ≡ (ok a, w')
      → ((handler w).0.body ≡ some a) × (w' ≡ (handler w).1)
  deliver-ok {A} fair handler w {a} e =
      let answer : axios.data_of A (handler w).0 ≡ ok a = ap (λ z. z.0) e in
      ((axios.data_of_ok A (handler w).0 answer).2, sym (ap (λ z. z.1) e))
  deliver-ok lost_request handler w e = absurd (ground arith)
  deliver-ok lost_answer handler w e = absurd (ground arith)

pub create_hold-answer :
    (t : BookingTable) (r : Redis) (env : Env) (draws : Draws) (q : HoldRequest) (s : State t r)
    {b : Booking}
    → let (answer, s') =
        BookingHandlers.create_hold t r env draws
          (some q.user_id)
          (record {
            trip_id = q.trip_id;
            seat_id = q.seat_id;
            from_stop_seq = a_number q.from_stop_seq;
            to_stop_seq = a_number q.to_stop_seq;
            user_id = some q.user_id;
          })
          s in
      answer.body ≡ some b
      → BookingService.create_hold t r env draws q.trip_id q.seat_id q.user_id q.from_stop_seq
          q.to_stop_seq s
        ≡ (ok b, s')
unfolding BookingHandlers.create_hold respond respond_error number_or_parsed
create_hold-answer t r env draws q s e =
    elim (Outcome-cases (
      BookingService.create_hold t r env draws q.trip_id q.seat_id q.user_id q.from_stop_seq
        q.to_stop_seq s)) [
          | inl (c, s', done) ↦ ground arith
          | inr (x, s', thrown) ↦ absurd (ground arith)
        ]

pub confirm_booking-answer :
    (t : BookingTable) (now : ℕ) (id : String) (s : t.Store) {b : Booking}
    → let (answer, s') = BookingHandlers.confirm_booking t now id s in
      answer.body ≡ some b → BookingService.confirm_booking t now id s ≡ (ok b, s')
unfolding BookingHandlers.confirm_booking respond respond_error
confirm_booking-answer t now id s e =
    elim (Outcome-cases (BookingService.confirm_booking t now id s)) [
      | inl (c, s', done) ↦ ground arith
      | inr (x, s', thrown) ↦ absurd (ground arith)
    ]

pub process_charge-answer :
    (p : PaymentTable) (g : Gateway) (q : PaymentHandlers.ChargeRequest) (s : p.Store)
    {x : ChargeResult}
    → let (answer, s') = PaymentHandlers.process_charge p g q s in
      answer.body ≡ some x → PaymentService.charge p g (PaymentHandlers.dto_of q) s ≡ (ok x, s')
unfolding PaymentHandlers.process_charge respond respond_error
process_charge-answer p g q s e =
    elim (Outcome-cases (PaymentService.charge p g (PaymentHandlers.dto_of q) s)) [
      | inl (c, s', done) ↦ ground arith
      | inr (x, s', thrown) ↦ absurd (ground arith)
    ]

pub charge-status :
    (p : PaymentTable) (g : Gateway) (dto : ChargeDto) (s : p.Store) {x : ChargeResult}
    {s' : p.Store}
    → PaymentService.charge p g dto s ≡ (ok x, s')
    → x.status ≡ x.payment.status
charge-status p g dto s e = elim (charge-ok p g dto s e) [
  | inl old ↦ ap (λ z. z.status) old.result
  | inr new ↦ ap (λ z. z.status) new.result
]

pub release_booking-answer :
    (t : BookingTable) (id : String) (reason : Option String) (s : t.Store) {b : Booking}
    → let (answer, s') = BookingHandlers.release_booking t id reason s in
      answer.body ≡ some b → BookingService.release_booking t id reason s ≡ (ok b, s')
unfolding BookingHandlers.release_booking respond respond_error
release_booking-answer t id reason s e =
    elim (Outcome-cases (BookingService.release_booking t id reason s)) [
      | inl (c, s', done) ↦ ground arith
      | inr (x, s', thrown) ↦ absurd (ground arith)
    ]

pub key_same : (k : String) → PaymentHandlers.text_of (PaymentHandlers.or_else (some k) none) ≡ k
key_same Prim.Native.String.[] = refl
key_same (Prim.Native.String.◌∷◌ c k) = refl
