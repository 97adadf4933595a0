-- ===== src/Orchestrator/Delivery.antt =====
-- What a call does to the two tables when its handler keeps some relation of them, whatever becomes
-- of the call on its way.
use billing_app_microservice.Prelude.{ℕ, String, arith}
use billing_app_microservice.Utils.Response.{Response}
use billing_app_microservice.Platform.Redis.{Redis}
use billing_app_microservice.Booking.Model.{BookingTable}
use billing_app_microservice.Booking.Service.{Env}
use billing_app_microservice.Payment.Model.{PaymentTable}
use billing_app_microservice.Orchestrator.Clients.{ChargeRequest, Event}
use billing_app_microservice.Orchestrator.Keeps.{Keeps}
use billing_app_microservice.Orchestrator.Wired.{
  Axios, Weather, fair, lost_request, lost_answer, Turn, World, next_turn, begin, deliver, call,
  charge_handler, refund_handler, send, wired,
}

module _ (t : BookingTable) (r : Redis) (p : PaymentTable) (J : t.Store → p.Store → Type 0) where
  abbrev pub Holds : World t r p → Type 0
  Holds w = J w.bookings w.payments

  -- The handler keeps it, whatever the turn.
  abbrev pub IsKeeping : {A : Type 0} → (Turn → World t r p → Response A × World t r p) → Type 0
  IsKeeping handler = (turn : Turn) (w : World t r p) → Holds w → Holds (handler turn w).1

  deliver-Keeps :
      {A : Type 0} (axios : Axios) (weather : Weather)
      (handler : World t r p → Response A × World t r p)
      → ((w : World t r p) → Holds w → Holds (handler w).1)
      → Keeps Holds (deliver t r p axios weather handler)
  deliver-Keeps axios fair handler h w i = h w i
  deliver-Keeps axios lost_request handler h w i = i
  deliver-Keeps axios lost_answer handler h w i = h w i

  pub call-Keeps :
      {A : Type 0} (axios : Axios) (handler : Turn → World t r p → Response A × World t r p)
      → IsKeeping handler
      → Keeps Holds (call t r p axios handler)
  call-Keeps axios handler h w i =
      deliver-Keeps axios (next_turn t r p w.turns).weather (handler (next_turn t r p w.turns))
        (h (next_turn t r p w.turns)) (begin t r p w) i

  send-Keeps :
      (weather : Weather) (topic : String) (e : Event) → Keeps Holds (send t r p weather topic e)
  send-Keeps fair topic e w i = i
  send-Keeps lost_request topic e w i = i
  send-Keeps lost_answer topic e w i = i

  module _ (axios : Axios) (env : Env) (rate : ℕ) where
    pub charge-Keeps :
        (q : ChargeRequest)
        → IsKeeping (charge_handler t r p rate q)
        → Keeps Holds ((wired t r p axios env rate).charge q)
    charge-Keeps q h w i = ground (arith, call-Keeps axios (charge_handler t r p rate q) h w i)

    pub refund-Keeps :
        (id : String)
        → IsKeeping (refund_handler t r p id)
        → Keeps Holds ((wired t r p axios env rate).refund id)
    refund-Keeps id h w i = ground (arith, call-Keeps axios (refund_handler t r p id) h w i)

    pub publish-Keeps :
        (topic : String) (e : Event) → Keeps Holds ((wired t r p axios env rate).publish topic e)
    publish-Keeps topic e w i =
        send-Keeps (next_turn t r p w.turns).weather topic e (begin t r p w) i
