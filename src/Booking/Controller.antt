-- ===== src/Booking/Controller.antt =====
-- booking-service/src/controllers/booking.controller.ts. What a request leaves out is `none`, or
-- `left_out` for a field that may be a number; a path's parameter is one text.
use billing_app_microservice.Prelude.{
  String, Bool, true, false, ◌||◌, Option, none, some, if◌then◌else◌,
}
use billing_app_microservice.Prelude.Js.{is_empty, is_missing}
use billing_app_microservice.Prelude.ParseInt.{parse_int, Field, number_or_parsed}
use billing_app_microservice.Prelude.{ℕ}
use billing_app_microservice.Effect.{pure, throw_if, ◌>>=◌, ◌>>◌}
use billing_app_microservice.Utils.Errors.{validation}
use billing_app_microservice.Utils.StatusCode
use billing_app_microservice.Utils.Response.{Response, respond, handle}
use billing_app_microservice.Platform.Redis.{Redis}
use billing_app_microservice.Booking.Model.{Booking, BookingTable}
use billing_app_microservice.Booking.Service.{Env, Draws, State}
use billing_app_microservice.Booking.Service

-- The stops in the query: `from` or `fromStopSeq`, `to` or `toStopSeq`.
pub record StopQuery : Type 0 where
  pub from : Option String
  pub from_stop_seq : Option String
  pub to : Option String
  pub to_stop_seq : Option String

-- `a ?? b`
abbrev pub or_next : Option String → Option String → Option String
or_next none b = b
or_next (some s) b = some s

abbrev pub is_undefined : Option String → Bool
is_undefined none = true
is_undefined (some s) = false

abbrev pub text_of : Option String → String
text_of none = ""
text_of (some s) = s

pub record HoldBody : Type 0 where
  pub trip_id : String
  pub seat_id : String
  pub from_stop_seq : Field
  pub to_stop_seq : Field
  pub user_id : Option String

-- `header || body.userId`
abbrev pub user_of : Option String → Option String → Option String
user_of none body = body
user_of (some s) body = if is_empty s then body else some s

module _ (t : BookingTable) where
  -- The answer's `data` is the object with the one field `available`.
  unfoldable pub check_availability :
      ℕ → (trip_id seat_id : String) → StopQuery → t.Store → Response Bool × t.Store
  check_availability now trip_id seat_id q = handle (do
    throw_if
        (is_undefined (or_next q.from q.from_stop_seq) || is_undefined (or_next q.to q.to_stop_seq))
        (validation "Query parameters 'from' and 'to' stop sequences are required")
    available ←
        Service.check_availability t now trip_id seat_id
          (parse_int (text_of (or_next q.from q.from_stop_seq)))
          (parse_int (text_of (or_next q.to q.to_stop_seq)))
    pure (respond StatusCode.success available "Seat availability checked successfully"))

  unfoldable pub confirm_booking : ℕ → String → t.Store → Response Booking × t.Store
  confirm_booking now id = handle (do
    booking ← Service.confirm_booking t now id
    pure (respond StatusCode.success booking "Booking confirmed successfully"))

  unfoldable pub release_booking : String → Option String → t.Store → Response Booking × t.Store
  release_booking id reason = handle (do
    booking ← Service.release_booking t id reason
    pure (respond StatusCode.success booking "Booking released successfully"))

module _ (t : BookingTable) (r : Redis) where
  unfoldable pub create_hold :
      Env
      → Draws
      → (x_user_id : Option String) → HoldBody
      → State t r
      → Response Booking × State t r
  create_hold env draws x_user_id body = handle (do
    throw_if (is_missing (user_of x_user_id body.user_id))
        (validation "User ID is required. Please authenticate via API Gateway.")
    booking ←
        Service.create_hold t r env draws body.trip_id body.seat_id
          (text_of (user_of x_user_id body.user_id)) (number_or_parsed body.from_stop_seq)
          (number_or_parsed body.to_stop_seq)
    pure (respond StatusCode.created booking "Booking hold created successfully"))
