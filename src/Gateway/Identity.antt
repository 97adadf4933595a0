-- ===== src/Gateway/Identity.antt =====
-- In whose name the gateway lets a caller book, and whose bookings it lets a caller cancel.
use billing_app_microservice.Prelude.{
  true, ℕ, String, false, some, List, [], ◌∷◌, ◌≡◌, ◌⊎◌, refl, sym, ◌∙◌, inl, inr, arith, All,
}
use billing_app_microservice.Prelude.Js.{Number, is_empty}
use billing_app_microservice.Effect.{ok, err, Result-cases, Outcome-cases}
use billing_app_microservice.Utils.Errors.{Error}
use billing_app_microservice.Utils.Response.{respond_error}
use billing_app_microservice.Utils.Jwt.{JsonWebToken, JwtConfig, Payload, verify_access_token}
use billing_app_microservice.Platform.Redis.{Redis}
use billing_app_microservice.Booking.Model.{BookingTable}
use billing_app_microservice.Booking.Service.{Env}
use billing_app_microservice.Payment.Model.{PaymentTable}
use billing_app_microservice.Orchestrator.Clients.{Clients}
use billing_app_microservice.Orchestrator.Service.{confirm_booking}
use billing_app_microservice.Orchestrator.Controller as Handlers
use billing_app_microservice.Orchestrator.Controller.{SagaBody, user_of, input_of}
use billing_app_microservice.Orchestrator.Routes.{orchestrator_app, orchestrator_router}
use billing_app_microservice.Orchestrator.Owner.{IsOwned, there-IsOwned, confirm_booking-IsOwned}
use billing_app_microservice.Orchestrator.Wired.{Axios, World, wired}
use billing_app_microservice.Gateway.Auth.{Headers, bearer_token, authenticate, auth_middleware}
use billing_app_microservice.Gateway.Reach.{reach}
use billing_app_microservice.Platform.Url.{is_path_part, all_plain, path_with-parts}
use billing_app_microservice.Gateway.Routes.{booking_routes, route}
use billing_app_microservice.Gateway.Sagas.{SagaRequest, Reply, refused, cancellation, post}

module _ (j : JsonWebToken) (config : JwtConfig) (now : ℕ) (h : Headers) where
  authenticate-id : {p : Payload} → authenticate j config now h ≡ ok p → is_empty p.id ≡ false
  unfolding authenticate
  authenticate-id e = elim (Result-cases (bearer_token h.authorization)) [
    | inl (token, held) ↦ elim (Result-cases (verify_access_token j config now token)) [
      | inl (p, accepted) ↦ ground arith
      | inr (x, thrown) ↦ absurd (ground arith)
    ]
    | inr (x, missing) ↦ absurd (ground arith)
  ]

module _ {W : Type 0} (c : Clients W) (topic : String) (parse_float : String → Number) where
  saga-world :
      (user : String) (body : SagaBody) (w : W)
      → is_empty user ≡ false
      → (Handlers.confirm_booking_saga c topic parse_float (some user) body w).1
        ≡ (confirm_booking c topic (input_of parse_float user body) w).1
  unfolding Handlers.confirm_booking_saga
  saga-world user body w given =
      elim (Outcome-cases (confirm_booking c topic (input_of parse_float user body) w)) [
        | inl (x, w', done) ↦ ground arith
        | inr (e, w', thrown) ↦ ground arith
      ]

  module _ (j : JsonWebToken) (config : JwtConfig) (now : ℕ) (q : SagaRequest) (w : W) where
    abbrev sent : List String → Reply × W
    sent path = post c topic parse_float j config now path q w

    post_confirm-ok :
        (p : Payload)
        → authenticate j config now q.headers ≡ ok p
        → (sent ("bookings" ∷ "confirm" ∷ [])).1
          ≡ (confirm_booking c topic (input_of parse_float p.id q.body) w).1
    unfolding post reach route booking_routes orchestrator_app orchestrator_router auth_middleware
    post_confirm-ok p e =
        ground (arith, saga-world p.id q.body w (authenticate-id j config now q.headers e))

    post_confirm-err :
        (e : Error)
        → authenticate j config now q.headers ≡ err e
        → sent ("bookings" ∷ "confirm" ∷ []) ≡ (refused (respond_error e), w)
    unfolding post reach route booking_routes orchestrator_app orchestrator_router auth_middleware
    post_confirm-err e refused' = ground arith

    post_cancel-ok :
        (id : String) (p : Payload)
        → authenticate j config now q.headers ≡ ok p
        → is_path_part id ≡ true
        → sent ("bookings" ∷ id ∷ "cancel" ∷ []) ≡ (
            let (r, w') = Handlers.cancel_booking_saga c topic q.timestamp id q.payment_id w in
            (cancellation r, w'))
    unfolding post reach route booking_routes orchestrator_app orchestrator_router auth_middleware
        all_plain
    post_cancel-ok id p e plain = ground (arith, path_with-parts id "cancel" plain refl)

  -- A cancellation is carried out in the same way for every logged-in user: sent with another set of
  -- headers, whose token may name another user, the same request gets the same reply and leaves the
  -- same world, whoever the booking belongs to, if both sets have a good access token and the id has
  -- only letters, digits, `-`, `_` and `~`.
  pub post_cancel-anyone :
      (j : JsonWebToken) (config : JwtConfig) (now : ℕ) (q : SagaRequest) (h : Headers) (w : W)
      (id : String) {p p' : Payload}
      → authenticate j config now q.headers ≡ ok p
      → authenticate j config now h ≡ ok p'
      → is_path_part id ≡ true
      → sent j config now (record q { headers = h }) w ("bookings" ∷ id ∷ "cancel" ∷ [])
        ≡ sent j config now q w ("bookings" ∷ id ∷ "cancel" ∷ [])
  post_cancel-anyone j config now q h w id {p} {p'} e e' plain =
      post_cancel-ok j config now (record q { headers = h }) w id p' e' plain
      ∙ sym (post_cancel-ok j config now q w id p e plain)

module _ (t : BookingTable) (r : Redis) (p : PaymentTable) (axios : Axios) (env : Env) (rate : ℕ)
    (topic : String) (parse_float : String → Number) (j : JsonWebToken) (config : JwtConfig)
    (now : ℕ) where
  -- `POST /api/bookings/confirm`, from the gateway down to the two databases.
  abbrev posted : SagaRequest → World t r p → Reply × World t r p
  posted q w =
      post (wired t r p axios env rate) topic parse_float j config now ("bookings" ∷ "confirm" ∷ [])
        q w

  -- A request to confirm a booking either has no good access token, and then it changes nothing and
  -- is answered with the error; or it has the token of some user, and then every booking in the
  -- table afterwards stood there before with the same user, trip, seat and stops, or is a booking of
  -- that very user, whatever user the caller named in the body or in the header, and however the
  -- saga ends.
  pub post_confirm-owner :
      (q : SagaRequest) (w : World t r p)
      → ((e : Error) × (authenticate j config now q.headers ≡ err e)
          × (posted q w ≡ (refused (respond_error e), w)))
        ⊎ ((user : Payload) × (authenticate j config now q.headers ≡ ok user)
            × All (IsOwned (t.rows w.bookings) user.id) (t.rows (posted q w).1.bookings))
  post_confirm-owner q w =
      let c = wired t r p axios env rate in
      elim (Result-cases (authenticate j config now q.headers)) [
        | inl (user, e) ↦ inr (
          user,
          e,
          rw (post_confirm-ok c topic parse_float j config now q w user e) (
              confirm_booking-IsOwned t r p (t.rows w.bookings) user.id axios env rate topic
                (input_of parse_float user.id q.body) w refl
                (authenticate-id j config now q.headers e)
                (there-IsOwned user.id (t.rows w.bookings))),
        )
        | inr (x, e) ↦ inl (x, e, post_confirm-err c topic parse_float j config now q w x e)
      ]
