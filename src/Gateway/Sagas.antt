-- ===== src/Gateway/Sagas.antt =====
-- A request for a saga on its way: api-gateway/src, then the handlers of
-- booking-orchestrator/src/controllers/bookingOrchestrator.controller.ts.
use billing_app_microservice.Prelude.{ℕ, String, Bool, true, false, Option, some, List, ◌∷◌}
use billing_app_microservice.Prelude.Js.{Number}
use billing_app_microservice.Utils.Jwt.{JsonWebToken, JwtConfig}
use billing_app_microservice.Utils.Response.{Response}
use billing_app_microservice.Platform.Express.{Endpoint, handler, health}
use billing_app_microservice.Orchestrator.Clients.{Clients}
use billing_app_microservice.Orchestrator.Service.{ConfirmBookingResult, CancelBookingResult}
use billing_app_microservice.Orchestrator.Controller.{SagaBody}
use billing_app_microservice.Orchestrator.Controller as Handlers
use billing_app_microservice.Orchestrator.Routes.{
  SagaCall, confirm_booking_saga, cancel_booking_saga,
}
use billing_app_microservice.Gateway.Auth.{Headers, Handled, next, answered, auth_middleware}
use billing_app_microservice.Gateway.Reach.{Call, at_orchestrator, reach}

-- What the caller sends, and the orchestrator's clock when it cancels.
pub record SagaRequest : Type 0 where
  pub headers : Headers
  pub body : SagaBody
  pub payment_id : Option String
  pub timestamp : String

pub data Reply : Type 0 where
  refused : Response (Unit {0}) → Reply
  confirmation : Response ConfirmBookingResult → Reply
  cancellation : Response CancelBookingResult → Reply
  alive : Reply
  -- The request goes to another service, or to none.
  elsewhere : Reply

module _ {W : Type 0} (c : Clients W) (topic : String) (parse_float : String → Number) where
  -- The orchestrator, which reads the identity from the headers that the gateway has sent on.
  abbrev pub serve : Endpoint SagaCall → SagaRequest → Headers → W → Reply × W
  serve (handler confirm_booking_saga) q h w =
      let (r, w') = Handlers.confirm_booking_saga c topic parse_float h.x_user_id q.body w in
      (confirmation r, w')
  serve (handler (cancel_booking_saga id)) q h w =
      let (r, w') = Handlers.cancel_booking_saga c topic q.timestamp id q.payment_id w in
      (cancellation r, w')
  serve health q h w = (alive, w)

  module _ (j : JsonWebToken) (config : JwtConfig) (now : ℕ) where
    -- The request after the middleware.
    abbrev pub let_through : Endpoint SagaCall → SagaRequest → Handled → W → Reply × W
    let_through e q (next h) w = serve e q h w
    let_through e q (answered r) w = (refused r, w)

    abbrev pub to_orchestrator : Option (Bool × Call) → SagaRequest → W → Reply × W
    to_orchestrator (some (true, at_orchestrator e)) q w =
        let_through e q (auth_middleware j config now q.headers) w
    to_orchestrator (some (false, at_orchestrator e)) q w = serve e q q.headers w
    to_orchestrator _ q w = (elsewhere, w)

    unfoldable pub post : List String → SagaRequest → W → Reply × W
    post path q w = to_orchestrator (reach "POST" ("api" ∷ path)) q w
