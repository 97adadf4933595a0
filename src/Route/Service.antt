-- ===== src/Route/Service.antt =====
-- route-service/src/services/routeService.ts, repositories/route.repository.ts and
-- interface/routeInterface.ts. A stop's own `id` and `routeId` are left out, and the time columns.
use Prim.Native.String.{◌++◌}
use billing_app_microservice.Prelude.{
  ℕ, ◌+◌, String, Bool, true, false, ◌||◌, Option, none, some, List, [], ◌∷◌, length, ltb, ◌==◌,
  if◌then◌else◌, map,
}
use billing_app_microservice.Prelude.Js.{is_empty, trim, show_ℕ}
use billing_app_microservice.Effect.{
  Result, ok, err, Action, pure, throw_if, lift, or_throw, ◌>>=◌, ◌>>◌,
}
use billing_app_microservice.Utils.Errors.{validation, not_found, conflict}
use billing_app_microservice.Platform.Table.{Table, query}
use billing_app_microservice.Platform.Order.{NumberOrder}

pub record Stop : Type 0 where
  pub name : String
  pub sequence_number : ℕ

pub record Route : Type 0 where
  pub id : String
  pub name : String
  pub stops : List Stop

-- Only `id` is unique in the schema; a route's name is not.
abbrev pub same_id : Route → Route → Bool
same_id a b = a.id == b.id

abbrev pub RouteTable : Type 1
RouteTable = Table Route (λ r. r.id) same_id

abbrev pub StopOrder : Type 0
StopOrder = NumberOrder Stop (λ s. s.sequence_number)

abbrev pub is_blank : String → Bool
is_blank s = is_empty s || is_empty (trim s)

-- `stopNames.map((stopName, index) => ({ name, sequenceNumber: index + 1 }))`
abbrev pub numbered : ℕ → List String → List Stop
numbered index [] = []
numbered index (s ∷ names) =
    record { name = s; sequence_number = index + 1 } ∷ numbered (index + 1) names

-- The `map` that trims the stops; the first blank one is thrown with its position.
unfoldable pub trim_stops : ℕ → List String → Result (List String)
trim_stops idx [] = ok []
trim_stops idx (s ∷ stops) =
    let rest = trim_stops (idx + 1) stops in
    if is_blank s
    then err (validation ("Stop at position " ++ show_ℕ (idx + 1) ++ " must be a non-empty string"))
    else elim rest [ ok names ↦ ok (trim s ∷ names) | err e ↦ err e ]

abbrev is_some : {A : Type 0} → Option A → Bool
is_some none = false
is_some (some a) = true

module _ (t : RouteTable) (o : StopOrder) where
  -- `include: { stops: { orderBy: { sequenceNumber: "asc" } } }`
  abbrev pub with_stops : Route → Route
  with_stops r = record r { stops = o.order r.stops }

  abbrev pub find_by_name : String → Action t.Store (Option Route)
  find_by_name name = query (t.find_first (λ r. r.name == name))

  abbrev pub create_route_with_stops : String → List String → Action t.Store Route
  create_route_with_stops name names = do
    r ← t.create (λ id. record { id = id; name = name; stops = numbered 0 names })
    pure (with_stops r)

  abbrev pub find_route_by_id : String → Action t.Store (Option Route)
  find_route_by_id id = query (t.find_first (λ r. r.id == id))

  abbrev stops_of : Option Route → List Stop
  stops_of none = []
  stops_of (some r) = o.order r.stops

  -- The stops whose `routeId` is the id: those of the one route with it.
  abbrev pub find_stops_by_route_id : String → Action t.Store (List Stop)
  find_stops_by_route_id id = do found ← find_route_by_id id; pure (stops_of found)

  unfoldable pub create_route : String → List String → Action t.Store Route
  unfolding trim_stops
  create_route name stops = do
    throw_if (is_blank name) (validation "Route name is required and must be a non-empty string")
    throw_if (ltb (length stops) 2) (validation "A route must have at least 2 stops")
    names ← lift (trim_stops 0 stops)
    existing ← find_by_name (trim name)
    throw_if (is_some existing) (conflict ("Route with name '" ++ trim name ++ "' already exists"))
    create_route_with_stops (trim name) names

  -- `by_created` stands for `orderBy: { createdAt: "desc" }`.
  unfoldable pub get_all_routes :
      (by_created : List Route → List Route) → Action t.Store (List Route)
  get_all_routes by_created = do
    rs ← query (t.find_many (λ r. true))
    pure (map with_stops (by_created rs))

  unfoldable pub get_route_stops : String → Action t.Store (List Stop)
  get_route_stops route_id = do
    throw_if (is_blank route_id) (validation "Route ID is required")
    found ← find_route_by_id (trim route_id)
    or_throw found (not_found "Route not found")
    find_stops_by_route_id (trim route_id)
