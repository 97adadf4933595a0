-- ===== src/Route/Laws.antt =====
-- Creating a route and reading its stops.
use billing_app_microservice.Prelude.{
  ℕ, ◌+◌, ◌≤◌, String, false, none, some, List, [], ◌∷◌, ◌++◌, ◌≡◌, refl, sym, ◌∙◌, arith, first,
  length, map, inl, inr, ◌==◌, All, eq_iff,
}
use billing_app_microservice.Prelude.Js.{trim}
use billing_app_microservice.Effect.{ok, Result-cases, Outcome-cases}
use billing_app_microservice.Platform.Order.{IsAscending}
use billing_app_microservice.Route.Service.{
  Route, RouteTable, StopOrder, is_blank, numbered, trim_stops, create_route, same_id,
}

numbered-IsAscending :
    (i : ℕ) (names : List String) → IsAscending (λ s. s.sequence_number) (numbered i names)
numbered-IsAscending i [] = tt
numbered-IsAscending i (a ∷ []) = tt
numbered-IsAscending i (a ∷ b ∷ names) = (omega arith, numbered-IsAscending (i + 1) (b ∷ names))

trim_stops-ok :
    (i : ℕ) (stops : List String) {names : List String}
    → trim_stops i stops ≡ ok names
    → (names ≡ map trim stops) × All (λ s. is_blank s ≡ false) stops
unfolding trim_stops
trim_stops-ok i [] e = (ground arith, tt)
trim_stops-ok i (s ∷ stops) e = elim (Result-cases (trim_stops (i + 1) stops)) [
  | inl (rest, done) ↦
      let (same, filled) = trim_stops-ok (i + 1) stops done in
      (ground arith, (ground arith, filled))
  | inr (x, thrown) ↦ absurd (ground arith)
]

-- Where no row has the id of the new one, the search for it finds none.
first-apart :
    (r : Route) (xs : List Route)
    → All (λ x. same_id r x ≡ false) xs
    → first (λ x. x.id == r.id) xs ≡ none
first-apart r [] h = refl
first-apart r (x ∷ xs) (p, h) =
    ground (arith, eq_iff r.id x.id, eq_iff x.id r.id, first-apart r xs h)

-- What a route that was created looks like.
pub record IsNewRoute (name : String) (stops : List String) (before after : List Route) (r : Route)
    : Type 0 where
  pub id : String
  pub row : r ≡ record { id = id; name = trim name; stops = numbered 0 (map trim stops) }
  pub enough : 2 ≤ length stops
  pub filled : All (λ s. is_blank s ≡ false) stops
  pub unknown : first (λ x. x.name == trim name) before ≡ none
  pub fresh : first (λ x. x.id == r.id) before ≡ none
  pub stored : after ≡ before ++ r ∷ []

-- A route that is created has the trimmed name, which no route had; its stops are the trimmed names
-- in the given order, two at least, none blank, numbered from 1; and it is the one row that the
-- table has gained.
pub create_route-ok :
    (t : RouteTable) (o : StopOrder) (name : String) (stops : List String) (s : t.Store) {r : Route}
    {s' : t.Store}
    → create_route t o name stops s ≡ (ok r, s')
    → IsNewRoute name stops (t.rows s) (t.rows s') r
unfolding create_route
create_route-ok t o name stops s {r} {s'} e = elim (Result-cases (trim_stops 0 stops)) [
  | inl (names, done) ↦ elim (Result-cases (t.find_first (λ x. x.name == trim name) s)) [
    | inl (none, found) ↦
        elim (Outcome-cases
          (t.create (λ id. record { id = id; name = trim name; stops = numbered 0 names }) s)) [
            | inl (c, s₁, made) ↦
                let (same, filled) = trim_stops-ok 0 stops done in
                let (id, row, stored, apart) = t.create_ok _ s made in
                let after : s₁ ≡ s' = ground arith in
                let row' : c
                    ≡ record { id = id; name = trim name; stops = numbered 0 (map trim stops) } =
                  rw (row, same) refl in
                let sorted : o.order c.stops ≡ c.stops = rw row' (
                  o.order-ascending (numbered 0 (map trim stops))
                    (numbered-IsAscending 0 (map trim stops))) in
                let answer : record c { stops = o.order c.stops } ≡ r = ground arith in
                let answer' : c ≡ r = rw (← answer, sorted) refl in
                record {
                  id = id;
                  row = sym answer' ∙ row';
                  enough = ground arith;
                  filled = filled;
                  fresh = rw (← answer') (first-apart c (t.rows s) apart);
                  unknown = sym (t.find_first_ok _ s found);
                  stored = rw (← after, ← answer') stored;
                }
            | inr (x, s₁, thrown) ↦ absurd (ground arith)
          ]
    | inl (some u, found) ↦ absurd (ground arith)
    | inr (x, thrown) ↦ absurd (ground arith)
  ]
  | inr (x, thrown) ↦ absurd (ground arith)
]
