-- ===== src/Orchestrator/Routes.antt =====
-- booking-orchestrator/src/routes/bookingOrchestrator.routes.ts and app.ts
use billing_app_microservice.Prelude.{String, ◌&&◌, none, some, [], ◌∷◌, ◌==◌, if◌then◌else◌}
use billing_app_microservice.Platform.Express.{Router, Endpoint, mount, app}

pub data SagaCall : Type 0 where
  confirm_booking_saga : SagaCall
  cancel_booking_saga : (id : String) → SagaCall

unfoldable pub orchestrator_router : Router SagaCall
orchestrator_router method (a ∷ []) =
    if method == "POST" && a == "confirm" then some confirm_booking_saga else none
orchestrator_router method (a ∷ b ∷ []) =
    if method == "POST" && a == "bookings" && b == "confirm"
    then some confirm_booking_saga
    else if method == "POST" && b == "cancel"
    then some (cancel_booking_saga a)
    else none
orchestrator_router method (a ∷ b ∷ c ∷ []) =
    if method == "POST" && a == "bookings" && c == "cancel"
    then some (cancel_booking_saga b)
    else none
orchestrator_router method _ = none

unfoldable pub orchestrator_app : Router (Endpoint SagaCall)
orchestrator_app = app (mount "bookings" orchestrator_router) orchestrator_router
