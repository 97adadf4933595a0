-- ===== src/User/Examples.antt =====
-- One user who registers, and logs in.
use billing_app_microservice.Prelude.{
  String, true, none, some, [], ◌∷◌, ◌≡◌, refl, ◌==◌, arith, eq_refl,
}
use billing_app_microservice.Prelude.Js.{show_ℕ}
use billing_app_microservice.Effect.{ok}
use billing_app_microservice.Platform.Memory.{memory}
use billing_app_microservice.Utils.Duration.{get_expiration_time, match_duration}
use billing_app_microservice.Utils.Jwt.{
  TokenPair, generate_token_pair, generate_access_token, generate_refresh_token,
}
use billing_app_microservice.Utils.Examples.{toy, config}
use billing_app_microservice.User.Model.{user, User, UserTable, Bcrypt, same_id_or_email}
use billing_app_microservice.User.Service.{
  Registration, user_of, subject, without_password, register, login,
}
use billing_app_microservice.User.Laws.{IsRegistered, register-ok, login-register}

pub table_compare :
    (salt password : String) {h : String} → ok password ≡ ok h → ok (password == h) ≡ ok true
table_compare salt password e = ground (arith, eq_refl password)

abbrev pub table : UserTable
table = memory (λ u. u.id) same_id_or_email

-- A hash that only has to compare.
abbrev pub bcrypt : Bcrypt
bcrypt = record {
  hash = λ salt password. ok password;
  compare = λ password h. ok (password == h);
  compare-hash = table_compare;
}

abbrev pub form : Registration
form = record { name = "N"; email = "E"; password = "P"; role = none }

abbrev pub first_user : User
first_user = user_of form "P" "0"

registered : register table bcrypt "salt" form [] ≡ (ok tt, first_user ∷ [])
unfolding register show_ℕ
registered = refl

register-ok_example : IsRegistered bcrypt "salt" form [] (first_user ∷ [])
register-ok_example = register-ok table bcrypt "salt" form [] registered

abbrev pub tokens : TokenPair
tokens = record {
  access_token = "access";
  refresh_token = "refresh";
  access_token_expires_in = 900;
  refresh_token_expires_in = 900;
}

signs :
    (u : User) → some first_user ≡ some u → generate_token_pair toy config 0 (subject u) ≡ ok tokens
unfolding generate_token_pair generate_access_token generate_refresh_token get_expiration_time
    match_duration
signs u e = let same : first_user ≡ u = cc in rw (← same) refl

login-register_example :
    (u : User) × (u.email ≡ "E")
    × (u.role ≡ user)
    × (login table bcrypt toy config 0 "E" "P" (first_user ∷ [])
        ≡ (ok (record { tokens = tokens; user = without_password u }), first_user ∷ []))
login-register_example =
    login-register table bcrypt toy config "salt" form 0 [] registered refl signs

pub logged_in :
    login table bcrypt toy config 0 "E" "P" (first_user ∷ [])
    ≡ (ok (record { tokens = tokens; user = without_password first_user }), first_user ∷ [])
unfolding login generate_token_pair generate_access_token generate_refresh_token get_expiration_time
    match_duration
logged_in = refl
