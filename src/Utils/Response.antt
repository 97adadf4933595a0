-- ===== src/Utils/Response.antt =====
-- utils/src/http.response.ts, `AppResponse`; and the `try`/`catch` that wraps every handler, whose
-- `next(error)` reaches the global error handler of app.ts.
use billing_app_microservice.Prelude.{
  ℕ, String, Bool, true, false, Option, none, some, nat_eq, if◌then◌else◌,
}
use billing_app_microservice.Effect.{ok, err, Action}
use billing_app_microservice.Utils.Errors.{Error, status_of, message_of}
use billing_app_microservice.Utils.StatusCode

pub record Response (A : Type 0) : Type 0 where
  pub success : Bool
  pub status : ℕ
  pub message : String
  pub body : Option A

unfoldable pub respond : {A : Type 0} → ℕ → A → String → Response A
respond status body message = record {
  success = true;
  status = status;
  message = message;
  body = some body;
}

-- `error.statusCode && typeof error.statusCode === "number"`: a code of 0 counts as none.
abbrev pub http_status : Option ℕ → ℕ
http_status none = StatusCode.error
http_status (some n) = if nat_eq n 0 then StatusCode.error else n

-- `AppResponse.error` of any object with the two fields.
abbrev pub respond_fields : {A : Type 0} → Option ℕ → String → Response A
respond_fields status message = record {
  success = false;
  status = http_status status;
  message = message;
  body = none;
}

unfoldable pub respond_error : {A : Type 0} → Error → Response A
respond_error e = respond_fields (status_of e) (message_of e)

-- The outer `try { … } catch (error) { next(error) }` of a handler.
abbrev pub handle : {S A : Type 0} → Action S (Response A) → S → Response A × S
handle m s = let (r, s') = m s in (elim r [ ok a ↦ a | err e ↦ respond_error e ], s')
