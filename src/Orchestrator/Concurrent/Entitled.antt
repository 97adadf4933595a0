-- ===== src/Orchestrator/Concurrent/Entitled.antt =====
-- Which calls have the payment that they need.
use billing_app_microservice.Prelude.{String, false, List, ◌≡◌, arith, All, All-Any}
use billing_app_microservice.Prelude.Js.{trim}
use billing_app_microservice.Payment.Model.{Payment}
use billing_app_microservice.Payment.Kept.{IsKeyPaid}
use billing_app_microservice.Orchestrator.Trace.{
  Call, hold, confirm, release, charge, refund, publish,
}
use billing_app_microservice.Orchestrator.Paid.{paid_key, IsEntitled, IsAfter}
use billing_app_microservice.Orchestrator.Concurrent.Careful.{IsCovered}
use billing_app_microservice.Orchestrator.Concurrent.{is_confirm}

-- All the keys are paid.
abbrev pub ArePaidKeys : List Payment → List String → Type 0
ArePaidKeys payments = All (λ k. IsKeyPaid (trim k) payments)

pub covered-IsEntitled :
    (payments : List Payment) (keys : List String) (q : Call)
    → ArePaidKeys payments keys
    → IsCovered keys q
    → IsEntitled payments q
covered-IsEntitled payments keys (hold q) paid c = tt
covered-IsEntitled payments keys (confirm id) paid c =
    All-Any (λ k. IsKeyPaid (trim k) payments) keys c paid
covered-IsEntitled payments keys (release id reason) paid c = tt
covered-IsEntitled payments keys (charge q) paid c = tt
covered-IsEntitled payments keys (refund id) paid c = tt
covered-IsEntitled payments keys (publish e) paid c = tt

pub direct-IsEntitled :
    (payments : List Payment) (q : Call) → is_confirm q ≡ false → IsEntitled payments q
direct-IsEntitled payments (hold q) h = tt
direct-IsEntitled payments (confirm id) h = absurd (ground arith)
direct-IsEntitled payments (release id reason) h = tt
direct-IsEntitled payments (charge q) h = tt
direct-IsEntitled payments (refund id) h = tt
direct-IsEntitled payments (publish e) h = tt

pub later-IsEntitled :
    (xs ys : List Payment) → IsAfter xs ys → (q : Call) → IsEntitled xs q → IsEntitled ys q
later-IsEntitled xs ys more (hold q) h = tt
later-IsEntitled xs ys more (confirm id) h = more (paid_key id) h
later-IsEntitled xs ys more (release id reason) h = tt
later-IsEntitled xs ys more (charge q) h = tt
later-IsEntitled xs ys more (refund id) h = tt
later-IsEntitled xs ys more (publish e) h = tt
