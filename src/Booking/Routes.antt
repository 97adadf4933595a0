-- ===== src/Booking/Routes.antt =====
-- booking-service/src/routes/booking.routes.ts and app.ts
use billing_app_microservice.Prelude.{String, ◌&&◌, none, some, [], ◌∷◌, ◌==◌, if◌then◌else◌}
use billing_app_microservice.Platform.Express.{Router, Endpoint, mount, app}

-- A handler with the parameters in the path.
pub data BookingCall : Type 0 where
  check_availability : (trip seat : String) → BookingCall
  create_hold : BookingCall
  confirm_booking release_booking : (id : String) → BookingCall

unfoldable pub booking_router : Router BookingCall
booking_router method (a ∷ []) = if method == "POST" && a == "hold" then some create_hold else none
booking_router method (a ∷ b ∷ []) =
    if method == "POST" && a == "bookings" && b == "hold"
    then some create_hold
    else if method == "POST" && b == "confirm"
    then some (confirm_booking a)
    else if method == "POST" && b == "release"
    then some (release_booking a)
    else none
booking_router method (a ∷ b ∷ c ∷ []) =
    if method == "POST" && a == "bookings" && c == "confirm"
    then some (confirm_booking b)
    else if method == "POST" && a == "bookings" && c == "release"
    then some (release_booking b)
    else none
booking_router method (a ∷ trip ∷ b ∷ seat ∷ c ∷ []) =
    if method == "GET" && a == "trips" && b == "seats" && c == "availability"
    then some (check_availability trip seat)
    else none
booking_router method _ = none

unfoldable pub booking_app : Router (Endpoint BookingCall)
booking_app = app (mount "bookings" booking_router) booking_router
