-- ===== src/Orchestrator/Served.antt =====
-- A confirmation that nothing stands in the way of succeeds.
use billing_app_microservice.Prelude.{
  ℕ, ◌≤◌, ◌<◌, String, true, false, none, some, List, [], ◌∷◌, ◌++◌, ◌≡◌, refl, arith, All, first,
  ◌==◌, eq_iff,
}
use billing_app_microservice.Prelude.Js.{is_empty, trim}
use billing_app_microservice.Prelude.ParseInt.{number_or_parsed}
use billing_app_microservice.Effect.{ok}
use billing_app_microservice.Utils.StatusCode
use billing_app_microservice.Utils.Response.{Response, respond}
use billing_app_microservice.Platform.Redis.{Redis}
use billing_app_microservice.Booking.Model.{Booking, BookingTable, confirmed, same_id, is_pending}
use billing_app_microservice.Booking.Repository.{update_status}
use billing_app_microservice.Booking.Service.{
  Env, Draws, State, new_hold, lock_key, or_default, hold_duration_ms, has_expired,
}
use billing_app_microservice.Booking.Service as BookingService
use billing_app_microservice.Booking.Controller as BookingHandlers
use billing_app_microservice.Payment.Model.{Payment, PaymentTable}
use billing_app_microservice.Payment.Repository.{create_payment}
use billing_app_microservice.Payment.Service.{
  Gateway, is_blank, simulate_charge_outcome, new_payment, result_of,
}
use billing_app_microservice.Payment.Service as PaymentService
use billing_app_microservice.Payment.Controller as PaymentHandlers
use billing_app_microservice.Orchestrator.Clients.{HoldRequest, ChargeRequest}
use billing_app_microservice.Orchestrator.Wired.{
  Axios, fair, Turn, World, next_turn, begin, call, hold_handler, confirm_handler, charge_handler,
  charge_body, charge_answer, wired,
}

-- axios resolves an answer with a status from 200 to 299, with its data.
abbrev pub Resolves : Axios → Type 1
Resolves axios =
    (A : Type 0) (answer : Response A) (a : A)
    → 200 ≤ answer.status
    → answer.status < 300
    → answer.body ≡ some a
    → axios.data_of A answer ≡ ok a

module _ (t : BookingTable) (r : Redis) (p : PaymentTable) (axios : Axios)
    (resolves : Resolves axios) where
  -- A fair call of a handler that answers with data.
  call-fair :
      {A : Type 0} (handler : Turn → World t r p → Response A × World t r p) (w : World t r p)
      {answer : Response A} {w' : World t r p} {a : A}
      → (next_turn t r p w.turns).weather ≡ fair
      → handler (next_turn t r p w.turns) (begin t r p w) ≡ (answer, w')
      → 200 ≤ answer.status
      → answer.status < 300
      → answer.body ≡ some a
      → call t r p axios handler w ≡ (ok a, w')
  call-fair {A} handler w {answer} {w'} {a} clear handled low high body =
      let given = resolves A answer a low high body in rw (clear, handled, given) refl

  pub hold-served :
      (env : Env) (q : HoldRequest) (w : World t r p) {b : Booking} {d : t.Store} {l : r.Store}
      → (next_turn t r p w.turns).weather ≡ fair
      → is_empty q.user_id ≡ false
      → let w₀ = begin t r p w in
        BookingService.create_hold t r env
            (record {
              lock_value = (next_turn t r p w.turns).lock_value;
              searched_at = w₀.now;
              held_at = w₀.now;
            })
            q.trip_id
            q.seat_id
            q.user_id
            q.from_stop_seq
            q.to_stop_seq
            (w.bookings, w.locks)
          ≡ (ok b, (d, l))
        → call t r p axios (hold_handler t r p env q) w
          ≡ (ok b, record w₀ { bookings = d; locks = l })
  unfolding BookingHandlers.create_hold respond number_or_parsed
  hold-served env q w {b} {d} {l} clear named made =
      call-fair (hold_handler t r p env q) w
        {answer = respond StatusCode.created b "Booking hold created successfully"} clear
        (ground arith) (omega arith) (omega arith) refl

  pub confirm-served :
      (id : String) (w : World t r p) {b : Booking} {d : t.Store}
      → (next_turn t r p w.turns).weather ≡ fair
      → BookingService.confirm_booking t (begin t r p w).now id w.bookings ≡ (ok b, d)
      → call t r p axios (confirm_handler t r p id) w
        ≡ (ok b, record (begin t r p w) { bookings = d })
  unfolding BookingHandlers.confirm_booking respond
  confirm-served id w {b} {d} clear made =
      call-fair (confirm_handler t r p id) w
        {answer = respond StatusCode.success b "Booking confirmed successfully"} clear
        (ground arith) (omega arith) (omega arith) refl

  pub charge-served :
      (env : Env) (rate : ℕ) (q : ChargeRequest) (w : World t r p) {y : Payment} {d : p.Store}
      → (next_turn t r p w.turns).weather ≡ fair
      → (next_turn t r p w.turns).random < rate
      → is_blank q.idempotency_key ≡ false
      → is_blank q.user_id ≡ false
      → is_blank q.booking_id ≡ false
      → PaymentHandlers.is_no_amount (some q.amount) ≡ false
      → let dto = PaymentHandlers.dto_of (charge_body t r p q) in
        p.find_first (λ z. z.idempotency_key == trim dto.idempotency_key) w.payments ≡ ok none
        → create_payment p (new_payment dto true) w.payments ≡ (ok y, d)
        → (wired t r p axios env rate).charge q w
          ≡ (ok (charge_answer t r p (result_of true y)), record (begin t r p w) { payments = d })
  unfolding PaymentHandlers.process_charge PaymentService.charge PaymentService.process_new
      simulate_charge_outcome respond
  charge-served env rate q w {y} {d} clear drawn keyed named booked paid absent made =
      let turn = next_turn t r p w.turns in
      let given : call t r p axios (charge_handler t r p rate q) w
          ≡ (ok (result_of true y), record (begin t r p w) { payments = d }) =
        call-fair (charge_handler t r p rate q) w
          {answer = respond StatusCode.created (result_of true y) "Payment processed successfully"}
          clear (ground arith) (omega arith) (omega arith) refl in
      ground (arith, given)

-- `confirmBooking` of a pending booking whose time is not over.
pub confirm-granted :
    (t : BookingTable) (now : ℕ) (id : String) (s : t.Store) {x b : Booking} {d : t.Store}
    → is_empty id ≡ false
    → t.find_first (λ z. z.id == id) s ≡ ok (some x)
    → is_pending x.status ≡ true
    → has_expired t now x.hold_expires_at ≡ false
    → update_status t id confirmed s ≡ (ok b, d)
    → BookingService.confirm_booking t now id s ≡ (ok b, d)
unfolding BookingService.confirm_booking
confirm-granted t now id s given found waiting live made = ground arith

-- The row that was inserted last is the one that a search for its id finds.
pub found-fresh :
    (b : Booking) (xs : List Booking)
    → All (λ x. same_id b x ≡ false) xs
    → first (λ z. z.id == b.id) (xs ++ b ∷ []) ≡ some b
found-fresh b [] h = ground (arith, eq_iff b.id b.id)
found-fresh b (x ∷ xs) (other, h) =
    ground (arith, found-fresh b xs h, eq_iff x.id b.id, eq_iff b.id x.id)
