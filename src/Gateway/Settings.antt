-- ===== src/Gateway/Settings.antt =====
-- api-gateway/src/config/dotenv.ts, and the configuration of `JWTService` in
-- api-gateway/src/middleware/auth.middleware.ts.
use Prim.Native.String.{◌++◌ as ◌<>◌}
use billing_app_microservice.Prelude.{String, Option, none, some, List, [], ◌∷◌, select}
use billing_app_microservice.Prelude.Js.{Number, is_missing, text_or}
use billing_app_microservice.Prelude.ParseInt.{parse_int}
use billing_app_microservice.Effect.{Result, ok, err}
use billing_app_microservice.Utils.Errors.{plain}
use billing_app_microservice.Utils.Jwt.{JwtConfig}

-- `process.env`: a variable that is not set is `undefined`.
abbrev pub ProcessEnv : Type 0
ProcessEnv = String → Option String

pub record EnvConfig : Type 0 where
  pub port : Number
  pub node_env : String
  pub user_database_url : String
  pub jwt_secret : String
  pub jwt_refresh_secret : String
  pub jwt_expires_in : String
  pub jwt_refresh_expires_in : String
  pub user_service_url : String
  pub route_service_url : String
  pub trip_service_url : String
  pub booking_service_url : String
  pub payment_service_url : String
  pub booking_orchestrator_url : String

abbrev pub required : List String
required = "JWT_SECRET" ∷ "JWT_REFRESH_SECRET" ∷ []

abbrev pub missing : ProcessEnv → List String
missing env = select (λ name. is_missing (env name)) required

-- `names.join(", ")`
abbrev pub joined : List String → String
joined [] = ""
joined (s ∷ []) = s
joined (s ∷ t ∷ rest) = s <> ", " <> joined (t ∷ rest)

-- `process.env.X!`, after the test that it is set.
abbrev pub asserted : Option String → String
asserted none = ""
asserted (some s) = s

abbrev pub settings : ProcessEnv → EnvConfig
settings env = record {
  port = parse_int (text_or (env "PORT") "3000");
  node_env = text_or (env "NODE_ENV") "development";
  user_database_url = text_or (env "USER_DATABASE_URL") "";
  jwt_secret = asserted (env "JWT_SECRET");
  jwt_refresh_secret = asserted (env "JWT_REFRESH_SECRET");
  jwt_expires_in = text_or (env "JWT_EXPIRES_IN") "15m";
  jwt_refresh_expires_in = text_or (env "JWT_REFRESH_EXPIRES_IN") "7d";
  user_service_url = text_or (env "USER_SERVICE_URL") "http://localhost:3002";
  route_service_url = text_or (env "ROUTE_SERVICE_URL") "http://localhost:3007";
  trip_service_url = text_or (env "TRIP_SERVICE_URL") "http://localhost:3008";
  booking_service_url = text_or (env "BOOKING_SERVICE_URL") "http://localhost:3009";
  payment_service_url = text_or (env "PAYMENT_SERVICE_URL") "http://localhost:3010";
  booking_orchestrator_url = text_or (env "BOOKING_ORCHESTRATOR_URL") "http://localhost:3011";
}

abbrev complete : EnvConfig → List String → Result EnvConfig
complete g [] = ok g
complete g names = err (plain ("Missing required environment variables: " <> joined names))

unfoldable pub validate_env : ProcessEnv → Result EnvConfig
validate_env env = complete (settings env) (missing env)

abbrev pub jwt_config : EnvConfig → JwtConfig
jwt_config g = record {
  access_secret = g.jwt_secret;
  refresh_secret = g.jwt_refresh_secret;
  access_expires_in = g.jwt_expires_in;
  refresh_expires_in = g.jwt_refresh_expires_in;
}
