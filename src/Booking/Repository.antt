-- ===== src/Booking/Repository.antt =====
-- booking-service/src/repositories/booking.repository.ts
use billing_app_microservice.Prelude.{
  ℕ, String, Bool, true, ◌&&◌, ◌||◌, Option, none, some, List, ltb, ◌==◌,
}
use billing_app_microservice.Prelude.Js.{Number}
use billing_app_microservice.Effect.{Action}
use billing_app_microservice.Platform.Table.{query}
use billing_app_microservice.Booking.Model.{
  Booking, BookingStatus, is_pending, is_confirmed, BookingTable,
}

-- `OR: [{ holdExpiresAt: null }, { holdExpiresAt: { gt: now } }]`
abbrev pub holds_after : ℕ → Option ℕ → Bool
holds_after now none = true
holds_after now (some t) = ltb now t

abbrev pub is_active : ℕ → Booking → Bool
is_active now b = is_confirmed b.status || is_pending b.status && holds_after now b.hold_expires_at

-- The `where` of `findActiveBookingsForSeat`.
abbrev pub is_active_for : ℕ → String → String → Booking → Bool
is_active_for now trip seat b = b.trip_id == trip && b.seat_id == seat && is_active now b

pub record NewBooking : Type 0 where
  pub trip_id : String
  pub seat_id : String
  pub user_id : String
  pub from_stop_seq : Number
  pub to_stop_seq : Number
  pub status : BookingStatus
  pub hold_expires_at : Option ℕ

abbrev pub booking_of : NewBooking → String → Booking
booking_of d id = record {
  id = id;
  trip_id = d.trip_id;
  seat_id = d.seat_id;
  user_id = d.user_id;
  from_stop_seq = d.from_stop_seq;
  to_stop_seq = d.to_stop_seq;
  status = d.status;
  hold_expires_at = d.hold_expires_at;
}

abbrev pub set_status : BookingStatus → Booking → Booking
set_status status b = record b { status = status }

module _ (t : BookingTable) where
  -- `now` is the reading of the clock by `new Date()`.
  abbrev pub find_active_bookings_for_seat : ℕ → String → String → Action t.Store (List Booking)
  find_active_bookings_for_seat now trip seat = query (t.find_many (is_active_for now trip seat))

  abbrev pub create_booking : NewBooking → Action t.Store Booking
  create_booking d = t.create (booking_of d)

  abbrev pub find_by_id : String → Action t.Store (Option Booking)
  find_by_id id = query (t.find_first (λ b. b.id == id))

  abbrev pub update_status : String → BookingStatus → Action t.Store Booking
  update_status id status = t.update id (set_status status)
