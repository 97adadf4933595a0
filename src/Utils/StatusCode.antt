-- ===== src/Utils/StatusCode.antt =====
-- utils/src/http.statusCodes.ts
use billing_app_microservice.Prelude.{ℕ}

abbrev pub success : ℕ
success = 200

abbrev pub created : ℕ
created = 201

abbrev pub no_content : ℕ
no_content = 204

abbrev pub bad_request : ℕ
bad_request = 400

abbrev pub unauthorized : ℕ
unauthorized = 401

abbrev pub forbidden : ℕ
forbidden = 403

abbrev pub not_found : ℕ
not_found = 404

abbrev pub conflict : ℕ
conflict = 409

abbrev pub error : ℕ
error = 500
