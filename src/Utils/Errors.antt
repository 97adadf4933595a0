-- ===== src/Utils/Errors.antt =====
-- utils/src/custom.error.ts and http.errors.ts, with the gateway's `UnauthorizedError`: what is
-- thrown. `custom` is a bare `CustomError`; `plain` is any other `Error`, a library's too.
use billing_app_microservice.Prelude.{ℕ, String, Option, none, some}
use billing_app_microservice.Utils.StatusCode

pub data Error : Type 0 where
  bad_request validation not_found conflict internal unauthorized : String → Error
  custom : String → ℕ → Error
  plain : String → Error

-- The field `statusCode`, which a plain `Error` lacks.
abbrev pub status_of : Error → Option ℕ
status_of (bad_request m) = some StatusCode.bad_request
status_of (validation m) = some StatusCode.bad_request
status_of (not_found m) = some StatusCode.not_found
status_of (conflict m) = some StatusCode.conflict
status_of (internal m) = some StatusCode.error
status_of (unauthorized m) = some StatusCode.unauthorized
status_of (custom m n) = some n
status_of (plain m) = none

abbrev pub message_of : Error → String
message_of (bad_request m) = m
message_of (validation m) = m
message_of (not_found m) = m
message_of (conflict m) = m
message_of (internal m) = m
message_of (unauthorized m) = m
message_of (custom m n) = m
message_of (plain m) = m
