-- ===== src/Orchestrator/Concurrent/Careful.antt =====
-- A saga asks to confirm only the booking whose charge was answered with success.
use Prim.Native.String.{◌++◌ as ◌<>◌}
use billing_app_microservice.Prelude.{
  String, Bool, true, false, Option, none, some, List, ◌∷◌, ◌≡◌, refl, inl, inr, arith, Any,
  Bool-cases, if◌then◌else◌,
}
use billing_app_microservice.Prelude.Js.{is_empty}
use billing_app_microservice.Effect.{Result, ok, err}
use billing_app_microservice.Utils.Errors.{Error}
use billing_app_microservice.Booking.Model.{Booking}
use billing_app_microservice.Payment.Model.{is_succeeded}
use billing_app_microservice.Orchestrator.Clients.{ChargeResponse}
use billing_app_microservice.Orchestrator.Trace.{
  Call, hold, confirm, release, charge, refund, publish,
}
use billing_app_microservice.Orchestrator.Service.{
  ConfirmBookingInput, ConfirmBookingResult, hold_request, charge_request,
}
use billing_app_microservice.Orchestrator.Program.{
  Answer, Program, finish, await, on_held, saga, say_cancelled, with_refund, say_confirmed,
  on_answer, on_charged, undo, rethrow, say_failed, checked, cancellation,
}
use billing_app_microservice.Orchestrator.Concurrent.{forget}

-- The keys known to be paid after a call was answered.
abbrev pub paid_by : (q : Call) → Result (Answer q) → List String → List String
paid_by (charge q) (ok ch) keys = if is_succeeded ch.status then q.idempotency_key ∷ keys else keys
paid_by _ _ keys = keys

pub paid_by_err : (q : Call) (e : Error) (keys : List String) → paid_by q (err e) keys ≡ keys
paid_by_err (hold q) e keys = refl
paid_by_err (confirm id) e keys = refl
paid_by_err (release id reason) e keys = refl
paid_by_err (charge q) e keys = refl
paid_by_err (refund id) e keys = refl
paid_by_err (publish m) e keys = refl

-- A call that needs a payment has its key among those.
abbrev pub IsCovered : List String → Call → Type 0
IsCovered keys (confirm id) = Any (λ k. k ≡ "booking-" <> id) keys
IsCovered keys _ = Unit

-- A program asks to confirm only a booking whose charge has been answered with success.
abbrev pub IsCareful : {A : Type 0} → List String → Program A → Type 0
IsCareful keys (finish r) = Unit
IsCareful keys (await q k) =
    IsCovered keys q × ((a : Result (Answer q)) → IsCareful (paid_by q a keys) (k a))

answer-IsCareful :
    {A B : Type 0} (keys : List String) (k : B → Program A) (h : Error → Program A)
    → ((b : B) → IsCareful keys (forget (k b)))
    → ((e : Error) → IsCareful keys (forget (h e)))
    → (a : Result B) → IsCareful keys (forget (on_answer k h a))
answer-IsCareful keys k h f g (ok b) = f b
answer-IsCareful keys k h f g (err e) = g e

module _ (input : ConfirmBookingInput) (id : String) where
  undo-IsCareful :
      (keys : List String) (e : Error)
      → IsCareful keys (forget (undo {A = ConfirmBookingResult} id e))
  unfolding forget
  undo-IsCareful keys e = (tt, λ a. tt)

  say_confirmed-IsCareful :
      (ch : ChargeResponse) (b : Booking) (keys : List String)
      → IsCareful keys (forget (say_confirmed input id ch b))
  unfolding forget
  say_confirmed-IsCareful ch b keys = (tt, answer-IsCareful keys _ _ (λ u. tt) (λ e. tt))

  say_failed-IsCareful :
      (ch : ChargeResponse) (keys : List String) → IsCareful keys (forget (say_failed input id ch))
  unfolding forget
  say_failed-IsCareful ch keys = (tt, answer-IsCareful keys _ _ (λ u. tt) (undo-IsCareful keys))

  charged-IsCareful :
      (keys : List String) (a : Result ChargeResponse)
      → IsCareful
          (paid_by (charge (charge_request input id)) a keys)
          (forget (on_answer (on_charged input id) (undo id) a))
  unfolding forget
  charged-IsCareful keys (ok ch) = elim (Bool-cases (is_succeeded ch.status)) [
    | inl good ↦
        let keys' : List String = ("booking-" <> id) ∷ keys in
        rw good (
          inl refl,
          answer-IsCareful keys' _ _ (λ b. say_confirmed-IsCareful ch b keys')
              (undo-IsCareful keys'),
        )
    | inr bad ↦
        rw bad
          (tt, answer-IsCareful keys _ _ (λ b. say_failed-IsCareful ch keys) (undo-IsCareful keys))
  ]
  charged-IsCareful keys (err e) = undo-IsCareful keys e

  on_held-IsCareful : (keys : List String) → IsCareful keys (forget (on_held input id))
  unfolding forget
  on_held-IsCareful keys = (tt, charged-IsCareful keys)

checked-IsCareful :
    {A : Type 0} (keys : List String) (refused : Bool) (e : Error) (k : Program A)
    → IsCareful keys (forget k)
    → IsCareful keys (forget (checked refused e k))
unfolding forget
checked-IsCareful keys true e k h = tt
checked-IsCareful keys false e k h = h

pub saga-IsCareful :
    (input : ConfirmBookingInput) (keys : List String) → IsCareful keys (forget (saga input))
unfolding forget saga
saga-IsCareful input keys =
    let k = await (hold (hold_request input)) (on_answer (λ h. on_held input h.id) rethrow) in
    let held : IsCareful keys (forget k) = (
      tt,
      answer-IsCareful {B = Booking} keys _ rethrow (λ h. on_held-IsCareful input h.id keys)
          (λ e. tt),
    ) in
    ground (arith, held)

say_cancelled-IsCareful :
    (now id : String) (payment : Option String) (keys : List String)
    → IsCareful keys (forget (say_cancelled now id payment))
unfolding forget
say_cancelled-IsCareful now id payment keys = (
  tt,
  answer-IsCareful keys _ _ (λ b. (tt, answer-IsCareful keys _ _ (λ u. tt) (λ e. tt))) (λ e. tt),
)

with_refund-IsCareful :
    {A : Type 0} (payment : Option String) (keys : List String) (k : Program A)
    → IsCareful keys (forget k)
    → IsCareful keys (forget (with_refund payment k))
unfolding forget
with_refund-IsCareful none keys k h = h
with_refund-IsCareful (some id) keys k h = elim (Bool-cases (is_empty id)) [
  | inl no' ↦ rw no' h
  | inr given ↦ rw given (tt, λ a. h)
]

pub cancellation-IsCareful :
    (now id : String) (payment : Option String) (keys : List String)
    → IsCareful keys (forget (cancellation now id payment))
unfolding cancellation
cancellation-IsCareful now id payment keys =
    checked-IsCareful keys _ _ _
      (with_refund-IsCareful payment keys _ (say_cancelled-IsCareful now id payment keys))
