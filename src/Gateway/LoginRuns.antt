-- ===== src/Gateway/LoginRuns.antt =====
-- A user logs in, and the gateway takes the token, in one environment.
use billing_app_microservice.Prelude.{String, ◌||◌, Option, none, some, ◌==◌, if◌then◌else◌}
use billing_app_microservice.Prelude.Js.{Number, number}
use billing_app_microservice.User.Model.{User}
use billing_app_microservice.User.Service.{AuthResponse, without_password}
use billing_app_microservice.User.Settings as UserSettings
use billing_app_microservice.User.Examples.{first_user, tokens}
use billing_app_microservice.Gateway.Settings.{ProcessEnv}
use billing_app_microservice.Gateway.Auth.{Headers}

-- Both secrets are "S", and a refresh token lives as long as an access token.
abbrev env : ProcessEnv
env name =
    if name == "JWT_SECRET" || name == "JWT_REFRESH_SECRET"
    then some "S"
    else if name == "JWT_REFRESH_EXPIRES_IN"
    then some "15m"
    else none

abbrev to_number : Option String → Number
to_number s = number 0

abbrev answer : AuthResponse
answer = record { tokens = tokens; user = without_password first_user }

abbrev headers : Headers
headers = record {
  authorization = some "Bearer access";
  x_user_id = some "someone else";
  x_user_email = none;
  x_user_role = some "admin";
}
