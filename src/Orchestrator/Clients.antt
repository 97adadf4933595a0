-- ===== src/Orchestrator/Clients.antt =====
-- The interfaces that the orchestrator calls: clients/bookingServiceClient.ts,
-- clients/paymentServiceClient.ts and `IEventPublisher` of config/kafka.ts, over any state of the
-- world. A call may throw, and the world may have changed all the same.
use billing_app_microservice.Prelude.{String, Option}
use billing_app_microservice.Prelude.Js.{Number}
use billing_app_microservice.Effect.{Action}
use billing_app_microservice.Booking.Model.{Booking}
use billing_app_microservice.Payment.Model.{PaymentStatus}

pub record HoldRequest : Type 0 where
  pub trip_id : String
  pub seat_id : String
  pub user_id : String
  pub from_stop_seq : Number
  pub to_stop_seq : Number

pub record ChargeRequest : Type 0 where
  pub booking_id : String
  pub user_id : String
  pub amount : Number
  pub currency : String
  pub idempotency_key : String

-- The fields of `ChargeResponse` that the orchestrator reads.
pub record ChargeResponse : Type 0 where
  pub payment_id : String
  pub status : PaymentStatus
  pub failure_reason : Option String

pub data ReleaseReason : Type 0 where
  payment_failed user_cancelled : ReleaseReason

-- The events with their payloads.
pub data Event : Type 0 where
  booking_confirmed :
      (booking_id user_id trip_id seat_id : String) (amount : Number) (currency payment_id : String)
      → Event
  booking_failed : (booking_id user_id failure_reason : String) → Event
  booking_cancelled :
      (booking_id : String) (payment_id : Option String) (timestamp : String) → Event

pub record Clients (W : Type 0) : Type 0 where
  pub create_hold : HoldRequest → Action W Booking
  pub confirm_booking : String → Action W Booking
  pub release_booking : String → ReleaseReason → Action W Booking
  pub charge : ChargeRequest → Action W ChargeResponse
  pub refund : String → Action W (Unit {0})
  pub publish : (topic : String) → Event → Action W (Unit {0})
