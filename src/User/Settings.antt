-- ===== src/User/Settings.antt =====
-- user-service/src/config/dotenv.ts and config/jwt.ts. JavaScript's `Number` of the port is an
-- argument.
use billing_app_microservice.Prelude.{String, Option, ◌&&◌, if◌then◌else◌}
use billing_app_microservice.Prelude.Js.{Number, nan, num, number, text_or}
use billing_app_microservice.Prelude.Int.{pos, leb_ℤ}
use billing_app_microservice.Utils.Jwt.{JwtConfig}

pub record EnvConfig : Type 0 where
  pub port : Number
  pub node_env : String
  pub user_database_url : String
  pub jwt_secret : String
  pub jwt_refresh_secret : String
  pub jwt_expires_in : String
  pub jwt_refresh_expires_in : String

-- `n || d`
abbrev or_number : Number → Number → Number
or_number nan d = d
or_number (num z) d = if leb_ℤ z (pos 0) && leb_ℤ (pos 0) z then d else num z

unfoldable pub settings :
    (to_number : Option String → Number) → (String → Option String) → EnvConfig
settings to_number env = record {
  port = or_number (to_number (env "PORT")) (number 3002);
  node_env = text_or (env "NODE_ENV") "development";
  user_database_url = text_or (env "USER_DATABASE_URL") "";
  jwt_secret = text_or (env "JWT_SECRET") "billing-app-microservice-access";
  jwt_refresh_secret = text_or (env "JWT_REFRESH_SECRET") "billing-app-microservice-refresh";
  jwt_expires_in = text_or (env "JWT_EXPIRES_IN") "15m";
  jwt_refresh_expires_in = text_or (env "JWT_REFRESH_EXPIRES_IN") "7d";
}

abbrev pub jwt_config : EnvConfig → JwtConfig
jwt_config g = record {
  access_secret = g.jwt_secret;
  refresh_secret = g.jwt_refresh_secret;
  access_expires_in = g.jwt_expires_in;
  refresh_expires_in = g.jwt_refresh_expires_in;
}
