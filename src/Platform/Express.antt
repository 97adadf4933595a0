-- ===== src/Platform/Express.antt =====
-- How the files app.ts and routes/*.ts of the services use Express: a request is a method and the
-- parts of its path; a router gives the handler that takes it, and a request that no route of a
-- router takes goes on to the next one. The query string, and the spellings of one path that Express
-- holds equal, are left out.
use billing_app_microservice.Prelude.{
  String, ◌&&◌, Option, none, some, List, [], ◌∷◌, ◌==◌, if◌then◌else◌,
}

abbrev pub Router : Type 0 → Type 0
Router A = String → List String → Option A

-- `app.get("/health", …)`, and the routers that come after it.
pub data Endpoint (A : Type 0) : Type 0 where
  health : Endpoint A
  handler : A → Endpoint A

abbrev pub or_next : {A : Type 0} → Option A → Option A → Option A
or_next none b = b
or_next (some a) b = some a

-- `app.use("/" + name, router)`
abbrev pub mount : {A : Type 0} → String → Router A → Router A
mount name router method [] = none
mount name router method (part ∷ rest) = if part == name then router method rest else none

abbrev is_health : {A : Type 0} → Router (Endpoint A)
is_health method (part ∷ []) = if method == "GET" && part == "health" then some health else none
is_health method _ = none

abbrev handled : {A : Type 0} → Option A → Option (Endpoint A)
handled none = none
handled (some a) = some (handler a)

-- An application with two routers, one after the other.
abbrev pub app : {A : Type 0} → Router A → Router A → Router (Endpoint A)
app first second method path =
    or_next (is_health method path) (handled (or_next (first method path) (second method path)))
