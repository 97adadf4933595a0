-- ===== src/User/Model.antt =====
-- The types that user-service's schema generates, and bcrypt. The columns `phone`, `createdAt` and
-- `updatedAt`, which no code reads, are left out.
use billing_app_microservice.Prelude.{String, Bool, true, ◌||◌, ◌≡◌, ◌==◌}
use billing_app_microservice.Effect.{Result, ok}
use billing_app_microservice.Platform.Table.{Table}

pub data Role : Type 0 where
  admin user : Role

abbrev pub role_name : Role → String
role_name admin = "admin"
role_name user = "user"

pub record User : Type 0 where
  pub id : String
  pub name : String
  pub email : String
  pub password : String
  pub role : Role
  pub is_active : Bool

-- `@id` and `@unique`
abbrev pub same_id_or_email : User → User → Bool
same_id_or_email a b = a.id == b.id || a.email == b.email

abbrev pub UserTable : Type 1
UserTable = Table User (λ u. u.id) same_id_or_email

-- `Omit<User, 'password'>`
pub record PublicUser : Type 0 where
  pub id : String
  pub name : String
  pub email : String
  pub role : Role
  pub is_active : Bool

-- `bcrypt.hash(password, 10)`, with the salt that it draws, and `bcrypt.compare(password, hash)`.
pub record Bcrypt : Type 0 where
  pub hash : (salt password : String) → Result String
  pub compare : (password hash : String) → Result Bool
  pub compare-hash :
      (salt password : String) {h : String}
      → hash salt password ≡ ok h
      → compare password h ≡ ok true
