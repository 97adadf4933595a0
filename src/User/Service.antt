-- ===== src/User/Service.antt =====
-- user-service/src/services/userService.ts and repositories/user.repository.ts, with
-- `hashPassword` and `comparePassword` of utils/src/hashPassword.ts
use billing_app_microservice.Prelude.{ℕ, String, Bool, true, false, not, Option, none, some, ◌==◌}
use billing_app_microservice.Prelude.Js.{is_empty}
use billing_app_microservice.Effect.{
  Result, ok, err, Action, pure, throw_if, lift, or_throw, ◌>>=◌, ◌>>◌,
}
use billing_app_microservice.Utils.Errors.{validation, not_found, conflict, custom}
use billing_app_microservice.Utils.Jwt.{
  JsonWebToken, JwtConfig, Subject, TokenPair, generate_token_pair, verify_access_token,
}
use billing_app_microservice.Platform.Table.{query}
use billing_app_microservice.User.Model.{Role, user, role_name, User, UserTable, PublicUser, Bcrypt}

-- A role that the caller left out is `none`.
pub record Registration : Type 0 where
  pub name : String
  pub email : String
  pub password : String
  pub role : Option Role

pub record AuthResponse : Type 0 where
  pub tokens : TokenPair
  pub user : PublicUser

-- `const { password: _, ...userWithoutPassword } = user`
abbrev pub without_password : User → PublicUser
without_password u = record {
  id = u.id;
  name = u.name;
  email = u.email;
  role = u.role;
  is_active = u.is_active;
}

-- The column's default.
abbrev pub role_or_user : Option Role → Role
role_or_user none = user
role_or_user (some r) = r

abbrev pub user_of : Registration → String → String → User
user_of d hashed id = record {
  id = id;
  name = d.name;
  email = d.email;
  password = hashed;
  role = role_or_user d.role;
  is_active = true;
}

abbrev pub subject : User → Subject
subject u = record { id = u.id; email = u.email; role = role_name u.role; iat = none; exp = none }

module _ (t : UserTable) where
  abbrev pub find_by_email : String → Action t.Store (Option User)
  find_by_email email = query (t.find_first (λ u. u.email == email))

  abbrev pub find_user_by_id : String → Action t.Store (Option User)
  find_user_by_id id = query (t.find_first (λ u. u.id == id))

  unfoldable pub find_by_id : String → Action t.Store User
  find_by_id id = do
    throw_if (is_empty id) (validation "User id is required")
    found ← find_user_by_id id
    or_throw found (not_found "User not found,Please try again later")

  abbrev is_some : {A : Type 0} → Option A → Bool
  is_some none = false
  is_some (some a) = true

  unfoldable pub register : Bcrypt → (salt : String) → Registration → Action t.Store (Unit {0})
  register b salt d = do
    existing ← find_by_email d.email
    throw_if (is_some existing) (conflict "User with this email already exists")
    hashed ← lift (b.hash salt d.password)
    t.create (user_of d hashed)
    pure tt

module _ (t : UserTable) (b : Bcrypt) (j : JsonWebToken) (c : JwtConfig) where
  unfoldable pub login : (now : ℕ) → (email password : String) → Action t.Store AuthResponse
  login now email password = do
    found ← find_by_email t email
    u ← or_throw found (conflict "Invalid email or password")
    throw_if (not u.is_active) (custom "User account is deactivated" 401)
    is_password_valid ← lift (b.compare password u.password)
    throw_if (not is_password_valid) (conflict "Invalid email or password")
    tokens ← lift (generate_token_pair j c now (subject u))
    pure (record { tokens = tokens; user = without_password u })

  -- Every error is caught, and answered by null.
  abbrev null_on_error : Result (Option PublicUser) → Result (Option PublicUser)
  null_on_error (ok u) = ok u
  null_on_error (err e) = ok none

  abbrev public_user : Option User → Option PublicUser
  public_user none = none
  public_user (some u) = some (without_password u)

  abbrev current : ℕ → String → Action t.Store (Option PublicUser)
  current now token = do
    payload ← lift (verify_access_token j c now token)
    found ← find_user_by_id t payload.id
    pure (public_user found)

  unfoldable pub get_current_user : (now : ℕ) → String → Action t.Store (Option PublicUser)
  get_current_user now token s = let (r, s') = current now token s in (null_on_error r, s')
