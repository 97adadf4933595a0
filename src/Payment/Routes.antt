-- ===== src/Payment/Routes.antt =====
-- payment-service/src/routes/payment.routes.ts and app.ts
use billing_app_microservice.Prelude.{String, ◌&&◌, none, some, [], ◌∷◌, ◌==◌, if◌then◌else◌}
use billing_app_microservice.Platform.Express.{Router, Endpoint, mount, app}

pub data PaymentCall : Type 0 where
  process_charge : PaymentCall
  process_refund get_payment_by_id : (id : String) → PaymentCall

unfoldable pub payment_router : Router PaymentCall
payment_router method (a ∷ []) =
    if method == "POST" && a == "charge"
    then some process_charge
    else if method == "GET"
    then some (get_payment_by_id a)
    else none
payment_router method (a ∷ b ∷ []) =
    if method == "POST" && a == "payments" && b == "charge"
    then some process_charge
    else if method == "POST" && b == "refund"
    then some (process_refund a)
    else if method == "GET" && a == "payments"
    then some (get_payment_by_id b)
    else none
payment_router method (a ∷ b ∷ c ∷ []) =
    if method == "POST" && a == "payments" && c == "refund" then some (process_refund b) else none
payment_router method _ = none

unfoldable pub payment_app : Router (Endpoint PaymentCall)
payment_app = app (mount "payments" payment_router) payment_router
