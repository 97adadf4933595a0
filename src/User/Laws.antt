-- ===== src/User/Laws.antt =====
-- Registering and logging in.
use billing_app_microservice.Prelude.{
  ℕ, String, true, Option, none, some, List, [], ◌∷◌, ◌++◌, ◌≡◌, refl, sym, ◌∙◌, arith, first, inl,
  inr, ◌==◌, eq_refl,
}
use billing_app_microservice.Effect.{ok, Result-cases, Outcome-cases}
use billing_app_microservice.Platform.Rows.{first-concat}
use billing_app_microservice.Utils.Jwt.{
  JsonWebToken, JwtConfig, TokenPair, generate_token_pair, generate_access_token,
  generate_refresh_token,
}
use billing_app_microservice.User.Model.{Role, user, User, UserTable, Bcrypt}
use billing_app_microservice.User.Service.{
  Registration, AuthResponse, role_or_user, user_of, subject, without_password, register, login,
}

-- The role that the caller asked for, and `user` for a caller that asked for none.
abbrev pub asked_role : Option Role → Role
asked_role none = user
asked_role (some role) = role

role_or_user-asked : (o : Option Role) → role_or_user o ≡ asked_role o
role_or_user-asked none = refl
role_or_user-asked (some role) = refl

user_of-asked :
    (d : Registration) (hashed id : String)
    → user_of d hashed id ≡ record {
      id = id;
      name = d.name;
      email = d.email;
      password = hashed;
      role = asked_role d.role;
      is_active = true;
    }
user_of-asked d hashed id = rw (role_or_user-asked d.role) refl

-- What a registration that succeeds has done.
pub record IsRegistered (b : Bcrypt) (salt : String) (d : Registration) (before after : List User)
    : Type 0 where
  pub hashed : String
  pub id : String
  pub hash_answer : b.hash salt d.password ≡ ok hashed
  pub unknown : first (λ u. u.email == d.email) before ≡ none
  pub stored :
      after
      ≡ before
        ++ record {
          id = id;
          name = d.name;
          email = d.email;
          password = hashed;
          role = asked_role d.role;
          is_active = true;
        }
          ∷ []

-- A registration that succeeds is under an email that no user had, and adds exactly one user, who
-- is active, has the role that the caller asked for (`user` if none), and not the password but its
-- hash.
pub register-ok :
    (t : UserTable) (b : Bcrypt) (salt : String) (d : Registration) (s : t.Store) {s' : t.Store}
    → register t b salt d s ≡ (ok tt, s')
    → IsRegistered b salt d (t.rows s) (t.rows s')
unfolding register
register-ok t b salt d s {s'} e = elim (Result-cases (t.find_first (λ u. u.email == d.email) s)) [
  | inl (none, found) ↦ elim (Result-cases (b.hash salt d.password)) [
    | inl (h, hashed) ↦ elim (Outcome-cases (t.create (user_of d h) s)) [
      | inl (u, s₁, made) ↦
          let (id, row, stored, _) = t.create_ok _ s made in
          let after : s₁ ≡ s' = ground arith in
          record {
            hashed = h;
            id = id;
            hash_answer = hashed;
            unknown = sym (t.find_first_ok _ s found);
            stored = rw (← after, ← user_of-asked d h id, ← row) stored;
          }
      | inr (x, s₁, thrown) ↦ absurd (ground arith)
    ]
    | inr (x, thrown) ↦ absurd (ground arith)
  ]
  | inl (some u, found) ↦ absurd (ground arith)
  | inr (x, thrown) ↦ absurd (ground arith)
]

-- After a registration has succeeded, a login with the same email and password succeeds, with the
-- tokens of the new user, as long as the search for the email is answered and the tokens are signed.
pub login-register :
    (t : UserTable) (b : Bcrypt) (j : JsonWebToken) (c : JwtConfig) (salt : String)
    (d : Registration) (now : ℕ) (s : t.Store) {s' : t.Store} {found : Option User}
    {tokens : TokenPair}
    → register t b salt d s ≡ (ok tt, s')
    → t.find_first (λ u. u.email == d.email) s' ≡ ok found
    → ((u : User) → found ≡ some u → generate_token_pair j c now (subject u) ≡ ok tokens)
    → (u : User) × (u.email ≡ d.email)
      × (u.role ≡ role_or_user d.role)
      × (login t b j c now d.email d.password s'
          ≡ (ok (record { tokens = tokens; user = without_password u }), s'))
unfolding login
login-register t b j c salt d now s {s'} {found} {tokens} e answered signed =
    let done = register-ok t b salt d s e in
    let new : User = user_of d done.hashed done.id in
    let there : first (λ u. u.email == d.email) (t.rows s') ≡ some new =
      rw (done.stored, ← user_of-asked d done.hashed done.id)
        (first-concat (λ u. u.email == d.email) new (t.rows s) done.unknown (eq_refl d.email)) in
    let hit : found ≡ some new = t.find_first_ok _ s' answered ∙ there in
    (
      new,
      refl,
      refl,
      ground (arith, b.compare-hash salt d.password done.hash_answer, signed new hit),
    )

-- A login that succeeds is for the email of an active user whose stored hash fits the password; it
-- changes nothing.
pub login-ok :
    (t : UserTable) (b : Bcrypt) (j : JsonWebToken) (c : JwtConfig) (now : ℕ)
    (email password : String) (s : t.Store) {a : AuthResponse} {s' : t.Store}
    → login t b j c now email password s ≡ (ok a, s')
    → (s' ≡ s)
      × ((u : User) × (first (λ x. x.email == email) (t.rows s) ≡ some u)
          × (u.is_active ≡ true)
          × (b.compare password u.password ≡ ok true)
          × (a.user ≡ without_password u))
unfolding login
login-ok t b j c now email password s e =
    elim (Result-cases (t.find_first (λ u. u.email == email) s)) [
      | inl (none, found) ↦ absurd (ground arith)
      | inl (some u, found) ↦ (
        ground arith,
        (u, sym (t.find_first_ok _ s found), ground arith, ground arith, ground arith),
      )
      | inr (x, thrown) ↦ absurd (ground arith)
    ]

-- The access token of a login is made for the user of the email.
pub login-access :
    (t : UserTable) (b : Bcrypt) (j : JsonWebToken) (c : JwtConfig) (now : ℕ)
    (email password : String) (s : t.Store) {a : AuthResponse} {s' : t.Store}
    → login t b j c now email password s ≡ (ok a, s')
    → (u : User) × (first (λ x. x.email == email) (t.rows s) ≡ some u)
      × (u.is_active ≡ true)
      × (b.compare password u.password ≡ ok true)
      × (generate_access_token j c now (subject u) ≡ ok a.tokens.access_token)
unfolding login generate_token_pair
login-access t b j c now email password s {a} e =
    elim (Result-cases (t.find_first (λ u. u.email == email) s)) [
      | inl (none, found) ↦ absurd (ground arith)
      | inl (some u, found) ↦ elim (Result-cases (generate_access_token j c now (subject u))) [
        | inl (access, made) ↦ elim (Result-cases (generate_refresh_token j c now (subject u))) [
          | inl (refresh, made') ↦
              (u, sym (t.find_first_ok _ s found), ground arith, ground arith, ground arith)
          | inr (x, thrown) ↦ absurd (ground arith)
        ]
        | inr (x, thrown) ↦ absurd (ground arith)
      ]
      | inr (x, thrown) ↦ absurd (ground arith)
    ]
