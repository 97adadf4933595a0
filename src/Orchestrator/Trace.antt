-- ===== src/Orchestrator/Trace.antt =====
-- Runs of the orchestrator against services that answer anything at all, seen as the calls made,
-- the latest first. An answer may depend on every call before it.
use billing_app_microservice.Prelude.{String, List, ◌∷◌}
use billing_app_microservice.Effect.{Result}
use billing_app_microservice.Booking.Model.{Booking}
use billing_app_microservice.Orchestrator.Clients.{
  Clients, HoldRequest, ChargeRequest, ChargeResponse, ReleaseReason, Event,
}

pub data Call : Type 0 where
  hold : HoldRequest → Call
  confirm : String → Call
  release : String → ReleaseReason → Call
  charge : ChargeRequest → Call
  refund : String → Call
  publish : Event → Call

abbrev pub Log : Type 0
Log = List Call

pub record Answers : Type 0 where
  pub to_hold : Log → Result Booking
  pub to_confirm : Log → Result Booking
  pub to_release : Log → Result Booking
  pub to_charge : Log → Result ChargeResponse
  pub to_refund : Log → Result (Unit {0})
  pub to_publish : Log → Result (Unit {0})

abbrev pub recorded : Answers → Clients Log
recorded a = record {
  create_hold = λ r log. (a.to_hold log, hold r ∷ log);
  confirm_booking = λ id log. (a.to_confirm log, confirm id ∷ log);
  release_booking = λ id why log. (a.to_release log, release id why ∷ log);
  charge = λ r log. (a.to_charge log, charge r ∷ log);
  refund = λ id log. (a.to_refund log, refund id ∷ log);
  publish = λ topic e log. (a.to_publish log, publish e ∷ log);
}
