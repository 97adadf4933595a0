-- ===== src/Payment/Model.antt =====
-- payment-service/src/interface/paymentInterface.ts and the types that prisma/schema.prisma
-- generates. The columns `createdAt` and `updatedAt`, which no code reads, are left out.
use billing_app_microservice.Prelude.{String, Bool, true, false, ◌||◌, Option, ◌==◌}
use billing_app_microservice.Prelude.Js.{Number}
use billing_app_microservice.Platform.Table.{Table}

pub data PaymentStatus : Type 0 where
  succeeded failed refunded : PaymentStatus

abbrev pub status_name : PaymentStatus → String
status_name succeeded = "SUCCEEDED"
status_name failed = "FAILED"
status_name refunded = "REFUNDED"

abbrev pub is_succeeded : PaymentStatus → Bool
is_succeeded succeeded = true
is_succeeded _ = false

abbrev pub is_refunded : PaymentStatus → Bool
is_refunded refunded = true
is_refunded _ = false

pub record Payment : Type 0 where
  pub id : String
  pub booking_id : String
  pub user_id : String
  pub amount : Number
  pub currency : String
  pub status : PaymentStatus
  pub idempotency_key : String
  pub failure_reason : Option String

-- `@id` and `@unique`
abbrev pub same_id_or_key : Payment → Payment → Bool
same_id_or_key a b = a.id == b.id || a.idempotency_key == b.idempotency_key

abbrev pub PaymentTable : Type 1
PaymentTable = Table Payment (λ p. p.id) same_id_or_key

-- `ChargeDto`; a field that the caller left out is `none`.
pub record ChargeDto : Type 0 where
  pub booking_id : String
  pub user_id : String
  pub amount : Option Number
  pub currency : Option String
  pub idempotency_key : String

pub record ChargeResult : Type 0 where
  pub success : Bool
  pub payment_id : String
  pub status : PaymentStatus
  pub failure_reason : Option String
  pub payment : Payment
  pub is_idempotent_replay : Bool
