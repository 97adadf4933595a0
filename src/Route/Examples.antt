-- ===== src/Route/Examples.antt =====
-- A route with two stops, and one that is added to it.
use billing_app_microservice.Prelude.{[], ◌∷◌, refl}
use billing_app_microservice.Platform.Memory.{memory}
use billing_app_microservice.Route.Service.{Route, RouteTable, StopOrder, same_id}

abbrev table : RouteTable
table = memory (λ r. r.id) same_id

abbrev order : StopOrder
order = record { order = λ xs. xs; order-ascending = λ xs up. refl }

abbrev north : Route
north = record {
  id = "0";
  name = "North";
  stops =
      record { name = "A"; sequence_number = 1 } ∷ record { name = "B"; sequence_number = 2 } ∷ [];
}
