-- ===== src/Orchestrator/Urls.antt =====
-- The paths that clients/bookingServiceClient.ts and clients/paymentServiceClient.ts post to, and the
-- handlers that they reach.
use billing_app_microservice.Prelude.{String, true, some, List, [], ◌∷◌, ◌≡◌, refl, arith}
use billing_app_microservice.Platform.Express.{handler}
use billing_app_microservice.Platform.Url.{
  is_path_part, all_plain, parts, path_with, path_with-parts, parts-id,
}
use billing_app_microservice.Booking.Routes.{
  create_hold, confirm_booking, release_booking, booking_router, booking_app,
}
use billing_app_microservice.Payment.Routes.{
  process_charge, process_refund, get_payment_by_id, payment_router, payment_app,
}

abbrev pub hold_url : List String
hold_url = "bookings" ∷ "hold" ∷ []

abbrev pub confirm_url : String → List String
confirm_url id = "bookings" ∷ path_with id "confirm"

abbrev pub release_url : String → List String
release_url id = "bookings" ∷ path_with id "release"

abbrev pub charge_url : List String
charge_url = "payments" ∷ "charge" ∷ []

abbrev pub refund_url : String → List String
refund_url id = "payments" ∷ path_with id "refund"

abbrev pub payment_url : String → List String
payment_url id = "payments" ∷ parts id

-- Each call of the two clients reaches the handler that it means, for an id that stands for itself in
-- a path.
pub urls-handlers :
    (id : String)
    → is_path_part id ≡ true
    → (booking_app "POST" hold_url ≡ some (handler create_hold))
      × (booking_app "POST" (confirm_url id) ≡ some (handler (confirm_booking id)))
      × (booking_app "POST" (release_url id) ≡ some (handler (release_booking id)))
      × (payment_app "POST" charge_url ≡ some (handler process_charge))
      × (payment_app "POST" (refund_url id) ≡ some (handler (process_refund id)))
      × (payment_app "GET" (payment_url id) ≡ some (handler (get_payment_by_id id)))
unfolding booking_app booking_router payment_app payment_router all_plain
urls-handlers id plain = (
  refl,
  rw (path_with-parts id "confirm" plain refl) (ground arith),
  rw (path_with-parts id "release" plain refl) (ground arith),
  refl,
  rw (path_with-parts id "refund" plain refl) (ground arith),
  rw (parts-id id plain) (ground arith),
)
