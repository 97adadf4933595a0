-- ===== src/Booking/Model.antt =====
-- booking-service/src/interface/bookingInterface.ts and the types that prisma/schema.prisma
-- generates. The columns `createdAt` and `updatedAt`, which no code reads, are left out. An instant
-- is a number of milliseconds.
use billing_app_microservice.Prelude.{ℕ, String, Bool, true, false, Option, ◌==◌}
use billing_app_microservice.Prelude.Js.{Number}
use billing_app_microservice.Platform.Table.{Table}

pub data BookingStatus : Type 0 where
  pending confirmed failed cancelled expired : BookingStatus

-- The generated constants: a status is a text.
abbrev pub status_name : BookingStatus → String
status_name pending = "PENDING"
status_name confirmed = "CONFIRMED"
status_name failed = "FAILED"
status_name cancelled = "CANCELLED"
status_name expired = "EXPIRED"

abbrev pub is_pending : BookingStatus → Bool
is_pending pending = true
is_pending _ = false

abbrev pub is_confirmed : BookingStatus → Bool
is_confirmed confirmed = true
is_confirmed _ = false

pub record Booking : Type 0 where
  pub id : String
  pub trip_id : String
  pub seat_id : String
  pub user_id : String
  pub from_stop_seq : Number
  pub to_stop_seq : Number
  pub status : BookingStatus
  pub hold_expires_at : Option ℕ

-- `id` is the only unique column. The ids are columns of type UUID, which PostgreSQL compares by value
-- and gives out in one spelling; the texts of the model are in that spelling. What a caller gets who
-- spells an id otherwise, in upper case for instance, is not modelled.
abbrev pub same_id : Booking → Booking → Bool
same_id a b = a.id == b.id

abbrev pub BookingTable : Type 1
BookingTable = Table Booking (λ b. b.id) same_id
