-- ===== src/Gateway/Reach.antt =====
-- The gateway with the services behind it: which handler of which service a request reaches.
use billing_app_microservice.Prelude.{
  String, Bool, true, Option, none, some, List, [], ◌∷◌, ◌≡◌, ◌≢◌, refl, inl, inr, arith,
  Option-cases, sym, ap, ◌∙◌, eq_iff,
}
use billing_app_microservice.Platform.Express.{Endpoint, handler, health}
use billing_app_microservice.Platform.Url.{is_path_part, all_plain, path_with-parts}
use billing_app_microservice.Booking.Routes.{
  BookingCall, check_availability, create_hold, confirm_booking, release_booking, booking_router,
  booking_app,
}
use billing_app_microservice.Payment.Routes.{
  PaymentCall, process_charge, process_refund, get_payment_by_id, payment_router, payment_app,
}
use billing_app_microservice.User.Routes.{UserCall, register, login, user_router, user_app}
use billing_app_microservice.Route.Routes.{
  RouteCall, create_route, get_all_routes, get_route_stops, route_router, route_app,
}
use billing_app_microservice.Trip.Routes.{
  TripCall, create_bus, create_trip, search_trips, get_bus_layout, get_trip_with_layout,
  get_trip_seats, bus_router, trip_router, trip_app,
}
use billing_app_microservice.Orchestrator.Routes.{
  SagaCall, confirm_booking_saga, cancel_booking_saga, orchestrator_router, orchestrator_app,
}
use billing_app_microservice.Gateway.Routes.{
  Service, user_service, route_service, trip_service, booking_service, payment_service,
  orchestrator, route, booking_routes,
}
use billing_app_microservice.Gateway.Laws.{route-authenticated}

pub data Call : Type 0 where
  at_user : Endpoint UserCall → Call
  at_route : Endpoint RouteCall → Call
  at_trip : Endpoint TripCall → Call
  at_booking : Endpoint BookingCall → Call
  at_payment : Endpoint PaymentCall → Call
  at_orchestrator : Endpoint SagaCall → Call

abbrev called : {A : Type 0} → (A → Call) → Option A → Option Call
called f none = none
called f (some a) = some (f a)

-- The application of the service takes the request.
abbrev pub dispatch : Service → String → List String → Option Call
dispatch user_service method path = called at_user (user_app method path)
dispatch route_service method path = called at_route (route_app method path)
dispatch trip_service method path = called at_trip (trip_app method path)
dispatch booking_service method path = called at_booking (booking_app method path)
dispatch payment_service method path = called at_payment (payment_app method path)
dispatch orchestrator method path = called at_orchestrator (orchestrator_app method path)

-- A call with `true` has passed the middleware.
abbrev reached : Bool → Option Call → Option (Bool × Call)
reached b none = none
reached b (some c) = some (b, c)

unfoldable pub reach : (method : String) → List String → Option (Bool × Call)
reach method path = elim (route method path) [
  | none ↦ none
  | some f ↦ reached f.authenticated (dispatch f.service method f.path)
]

abbrev pub Reaches : String → List String → Call → Type 0
Reaches method path c = reach method ("api" ∷ path) ≡ some (true, c)

-- The paths of the gateway, each with the handler that is meant.
abbrev pub HasHandlers : (id trip seat : String) → Type 0
HasHandlers id trip seat =
    Reaches "GET" ("bookings" ∷ "trips" ∷ trip ∷ "seats" ∷ seat ∷ "availability" ∷ [])
      (at_booking (handler (check_availability trip seat)))
    × Reaches "POST" ("bookings" ∷ "hold" ∷ []) (at_booking (handler create_hold))
    × Reaches "POST" ("bookings" ∷ id ∷ "confirm" ∷ []) (at_booking (handler (confirm_booking id)))
    × Reaches "POST" ("bookings" ∷ id ∷ "release" ∷ []) (at_booking (handler (release_booking id)))
    × Reaches "POST" ("payments" ∷ "charge" ∷ []) (at_payment (handler process_charge))
    × Reaches "POST" ("payments" ∷ id ∷ "refund" ∷ []) (at_payment (handler (process_refund id)))
    × Reaches "GET" ("payments" ∷ id ∷ []) (at_payment (handler (get_payment_by_id id)))
    × Reaches "POST" ("bookings" ∷ "confirm" ∷ []) (at_orchestrator (handler confirm_booking_saga))
    × Reaches "POST" ("bookings" ∷ id ∷ "cancel" ∷ [])
        (at_orchestrator (handler (cancel_booking_saga id)))
    × Reaches "POST" ("buses" ∷ []) (at_trip (handler create_bus))
    × Reaches "GET" ("buses" ∷ id ∷ "layout" ∷ []) (at_trip (handler (get_bus_layout id)))
    × Reaches "POST" ("trips" ∷ []) (at_trip (handler create_trip))
    × Reaches "GET" ("trips" ∷ []) (at_trip (handler search_trips))
    × Reaches "GET" ("trips" ∷ id ∷ []) (at_trip (handler (get_trip_with_layout id)))
    × Reaches "GET" ("trips" ∷ id ∷ "seats" ∷ []) (at_trip (handler (get_trip_seats id)))
    × Reaches "POST" ("routes" ∷ []) (at_route (handler create_route))
    × Reaches "GET" ("routes" ∷ []) (at_route (handler get_all_routes))
    × Reaches "GET" ("routes" ∷ id ∷ "stops" ∷ []) (at_route (handler (get_route_stops id)))

-- With the middleware passed, each of the gateway's paths leads to its handler, if the ids in it stand
-- for themselves.
pub reach-handlers : (id trip seat : String) → is_path_part id ≡ true → HasHandlers id trip seat
unfolding reach route booking_routes booking_app booking_router payment_app payment_router
    orchestrator_app orchestrator_router all_plain trip_app trip_router bus_router route_app
    route_router
reach-handlers id trip seat plain = (
  refl,
  refl,
  ground arith,
  ground arith,
  refl,
  ground arith,
  refl,
  refl,
  ground (arith, path_with-parts id "cancel" plain refl),
  refl,
  refl,
  refl,
  refl,
  refl,
  refl,
  refl,
  refl,
  ground arith,
)

-- What the user service takes, and under which method.
abbrev pub IsPublic : String → Endpoint UserCall → Type 0
IsPublic method (handler register) = method ≡ "POST"
IsPublic method (handler login) = method ≡ "POST"
IsPublic method health = method ≡ "GET"

user_app-IsPublic :
    (method a : String) {c : Endpoint UserCall}
    → user_app method (a ∷ []) ≡ some c
    → IsPublic method c
unfolding user_app user_router
user_app-IsPublic method a {c = handler register} e = ground (arith, eq_iff method "POST")
user_app-IsPublic method a {c = handler login} e = ground (arith, eq_iff method "POST")
user_app-IsPublic method a {c = health} e = ground (arith, eq_iff method "GET")

user_app-one :
    (method : String) (path : List String) {c : Endpoint UserCall}
    → user_app method path ≡ some c
    → IsPublic method c
unfolding user_app user_router
user_app-one method [] e = absurd (ground arith)
user_app-one method (a ∷ []) e = user_app-IsPublic method a e
user_app-one method (a ∷ b ∷ path) e = absurd (ground arith)

-- A call of a service other than the user service has passed the middleware.
abbrev pub IsGuarded : String → Bool → Call → Type 0
IsGuarded method passed (at_user c) = IsPublic method c
IsGuarded method passed _ = passed ≡ true

called-IsGuarded :
    {A : Type 0} (f : A → Call) (o : Option A) (method : String) (passed : Bool) {c : Call}
    → ((a : A) → o ≡ some a → IsGuarded method passed (f a))
    → called f o ≡ some c
    → IsGuarded method passed c
called-IsGuarded f none method passed h e = absurd (ground arith)
called-IsGuarded f (some a) method passed {c} h e =
    let same : f a ≡ c = ground arith in rw (← same) (h a refl)

dispatch-IsGuarded :
    (service : Service) (method : String) (path : List String) (passed : Bool) {c : Call}
    → (service ≢ user_service → passed ≡ true)
    → dispatch service method path ≡ some c
    → IsGuarded method passed c
dispatch-IsGuarded user_service method path passed h e =
    called-IsGuarded at_user (user_app method path) method passed (λ a. user_app-one method path) e
dispatch-IsGuarded route_service method path passed h e =
    called-IsGuarded at_route (route_app method path) method passed
      (λ a t. h (λ x. absurd (ground arith))) e
dispatch-IsGuarded trip_service method path passed h e =
    called-IsGuarded at_trip (trip_app method path) method passed
      (λ a t. h (λ x. absurd (ground arith))) e
dispatch-IsGuarded booking_service method path passed h e =
    called-IsGuarded at_booking (booking_app method path) method passed
      (λ a t. h (λ x. absurd (ground arith))) e
dispatch-IsGuarded payment_service method path passed h e =
    called-IsGuarded at_payment (payment_app method path) method passed
      (λ a t. h (λ x. absurd (ground arith))) e
dispatch-IsGuarded orchestrator method path passed h e =
    called-IsGuarded at_orchestrator (orchestrator_app method path) method passed
      (λ a t. h (λ x. absurd (ground arith))) e

-- No request reaches a handler of another service than the user service without passing the
-- middleware; and the user service is asked only to register and to log in, each by a POST, and for
-- its health.
pub reach-IsGuarded :
    (method : String) (path : List String) {passed : Bool} {c : Call}
    → reach method path ≡ some (passed, c)
    → IsGuarded method passed c
unfolding reach
reach-IsGuarded method path {passed} {c} e = elim (Option-cases (route method path)) [
  | inl missed ↦ absurd (ground arith)
  | inr (f, sent) ↦ elim (Option-cases (dispatch f.service method f.path)) [
    | inl missed ↦ absurd (ground arith)
    | inr (d, taken) ↦
        let same : d ≡ c = ground arith in
        let flag : f.authenticated ≡ passed = ground arith in
        dispatch-IsGuarded f.service method f.path passed
          (λ other. sym flag ∙ route-authenticated method path sent other) (taken ∙ ap some same)
  ]
]
