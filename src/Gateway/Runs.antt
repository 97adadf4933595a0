-- ===== src/Gateway/Runs.antt =====
-- Requests for the sagas through the gateway, with the orchestrator and the services behind it.
use billing_app_microservice.Prelude.{arith, String, some, none, [], ◌∷◌, ◌≡◌, ◌⊎◌, refl, All}
use billing_app_microservice.Prelude.Js.{Number, nan, number}
use billing_app_microservice.Prelude.ParseInt.{a_number}
use billing_app_microservice.Effect.{ok, err}
use billing_app_microservice.Utils.Errors.{Error}
use billing_app_microservice.Utils.Response.{respond_error}
use billing_app_microservice.Utils.Jwt.{Payload, JsonWebToken, verified, verify_access_token}
use billing_app_microservice.Utils.Examples.{toy, config}
use billing_app_microservice.Platform.Memory.{locks}
use billing_app_microservice.Platform.Url.{all_plain}
use billing_app_microservice.Orchestrator.Clients.{Clients}
use billing_app_microservice.Orchestrator.Controller.{SagaBody}
use billing_app_microservice.Orchestrator.Owner.{IsOwned}
use billing_app_microservice.Orchestrator.Wired.{World, fair, wired}
use billing_app_microservice.Orchestrator.Sample.{axios, bookings, payments, env, starting}
use billing_app_microservice.Gateway.Auth.{Headers, bearer_token, authenticate}
use billing_app_microservice.Gateway.Sagas.{SagaRequest, refused, post}
use billing_app_microservice.Gateway.Identity.{post_cancel-anyone, post_confirm-owner}

abbrev headers : Headers
headers = record {
  authorization = some "Bearer access";
  x_user_id = some "someone else";
  x_user_email = none;
  x_user_role = none;
}

abbrev body : SagaBody
body = record {
  trip_id = "T";
  seat_id = "A1";
  from_stop_seq = a_number (number 3);
  to_stop_seq = a_number (number 5);
  amount = a_number (number 500);
  currency = none;
  user_id = some "yet another";
}

abbrev request : SagaRequest
request = record { headers = headers; body = body; payment_id = none; timestamp = "now" }

abbrev clients : Clients (World bookings locks payments)
clients = wired bookings locks payments axios env 9

abbrev parse_float : String → Number
parse_float s = nan

-- Tokens that name their user, and that this interface never makes itself.
abbrev named : String → Payload
named id = record {
  id = id;
  email = "E";
  role = "user";
  token_type = "access";
  iat = none;
  exp = none;
}

abbrev naming : JsonWebToken
naming = record {
  sign = λ now p secret n. none;
  verify = λ now token secret. verified (named token);
  decode = λ token. some (named token);
  sign_twice = λ now p secret n e. refl;
  verify-sign = λ now later p secret n made early. absurd (ground arith);
  verify-sign_late = λ now later p secret n made late. absurd (ground arith);
  verify-sign_ne = λ now later p secret other n made ne. absurd (ground arith);
}

abbrev of_alice : Headers
of_alice = record headers { authorization = some "Bearer alice" }

abbrev of_bob : Headers
of_bob = record headers { authorization = some "Bearer bob" }

alice_is_known : authenticate naming config 5 of_alice ≡ ok (named "alice")
unfolding authenticate bearer_token verify_access_token
alice_is_known = refl

bob_is_known : authenticate naming config 5 of_bob ≡ ok (named "bob")
unfolding authenticate bearer_token verify_access_token
bob_is_known = refl

abbrev alices : SagaRequest
alices = record request { headers = of_alice }

post_cancel-anyone_example :
    post clients "booking-events" parse_float naming config 5
      ("bookings" ∷ "0" ∷ "cancel" ∷ [])
      (record request { headers = of_bob })
      (starting fair 3)
    ≡ post clients "booking-events" parse_float naming config 5
        ("bookings" ∷ "0" ∷ "cancel" ∷ [])
        alices
        (starting fair 3)
unfolding all_plain
post_cancel-anyone_example =
    post_cancel-anyone clients "booking-events" parse_float naming config 5 alices of_bob
      (starting fair 3) "0" alice_is_known bob_is_known refl

post_confirm-owner_example :
    ((e : Error) × (authenticate toy config 5 headers ≡ err e)
      × (post clients "booking-events" parse_float toy config 5
            ("bookings" ∷ "confirm" ∷ [])
            request
            (starting fair 3)
          ≡ (refused (respond_error e), starting fair 3)))
    ⊎ ((user : Payload) × (authenticate toy config 5 headers ≡ ok user)
        × All (IsOwned [] user.id) (
            bookings.rows
              (post clients "booking-events" parse_float toy config 5
                ("bookings" ∷ "confirm" ∷ [])
                request
                (starting fair 3)).1.bookings))
post_confirm-owner_example =
    post_confirm-owner bookings locks payments axios env 9 "booking-events" parse_float toy config 5
      request (starting fair 3)
