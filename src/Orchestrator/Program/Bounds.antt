-- ===== src/Orchestrator/Program/Bounds.antt =====
-- How many calls a saga makes at most before it ends.
use billing_app_microservice.Prelude.{
  ℕ, zero, suc, ◌+◌, ◌≤◌, String, Bool, true, false, Option, none, some, ◌≡◌, refl, inl, inr, arith,
  length, Bool-cases,
}
use billing_app_microservice.Prelude.Js.{is_empty}
use billing_app_microservice.Effect.{Result, ok, err}
use billing_app_microservice.Utils.Errors.{Error}
use billing_app_microservice.Booking.Model.{Booking}
use billing_app_microservice.Payment.Model.{is_succeeded}
use billing_app_microservice.Orchestrator.Clients.{ChargeResponse}
use billing_app_microservice.Orchestrator.Trace.{
  Call, hold, confirm, release, charge, refund, publish, Log, Answers, recorded,
}
use billing_app_microservice.Orchestrator.Service.{
  ConfirmBookingInput, hold_request, confirm_booking, cancel_booking,
}
use billing_app_microservice.Orchestrator.Program.{
  Answer, Program, finish, await, ask, run, on_answer, undo, rethrow, checked, say_failed,
  say_confirmed, on_charged, on_held, saga, say_cancelled, with_refund, cancellation,
}
use billing_app_microservice.Orchestrator.Program.Runs.{programs-run}

-- The program ends after at most `n` calls, whatever their answers.
abbrev pub IsWithin : {A : Type 0} → ℕ → Program A → Type 0
IsWithin n (finish r) = Unit
IsWithin zero (await q k) = ⊥
IsWithin (suc n) (await q k) = (a : Result (Answer q)) → IsWithin n (k a)

answer-IsWithin :
    {A B : Type 0} (n : ℕ) (k : B → Program A) (h : Error → Program A)
    → ((b : B) → IsWithin n (k b))
    → ((e : Error) → IsWithin n (h e))
    → (a : Result B) → IsWithin n (on_answer k h a)
answer-IsWithin n k h f g (ok b) = f b
answer-IsWithin n k h f g (err e) = g e

checked-IsWithin :
    {A : Type 0} (n : ℕ) (refused : Bool) (e : Error) (k : Program A)
    → IsWithin n k
    → IsWithin n (checked refused e k)
checked-IsWithin n true e k h = tt
checked-IsWithin n false e k h = h

module _ (input : ConfirmBookingInput) (id : String) where
  charged-IsWithin : (ch : ChargeResponse) → IsWithin 3 (on_charged input id ch)
  charged-IsWithin ch = elim (Bool-cases (is_succeeded ch.status)) [
    | inl good ↦ rw good (
        answer-IsWithin {B = Booking} 2 (say_confirmed input id ch) (undo id)
          (λ b. answer-IsWithin {B = Unit {0}} 1 _ rethrow (λ u. tt) (λ e. tt)) (λ e a. tt))
    | inr bad ↦ rw bad (
        answer-IsWithin {B = Booking} 2 (λ b. say_failed input id ch) (undo id)
          (λ b. answer-IsWithin {B = Unit {0}} 1 _ (undo id) (λ u. tt) (λ e a. tt)) (λ e a. tt))
  ]

  on_held-IsWithin : IsWithin 4 (on_held input id)
  on_held-IsWithin =
      answer-IsWithin {B = ChargeResponse} 3 (on_charged input id) (undo id) charged-IsWithin
        (λ e a. tt)

saga-IsWithin : (input : ConfirmBookingInput) → IsWithin 5 (saga input)
unfolding saga
saga-IsWithin input =
    let k = await (hold (hold_request input)) (on_answer (λ h. on_held input h.id) rethrow) in
    let held : IsWithin 5 k =
      answer-IsWithin {B = Booking} 4 (λ h. on_held input h.id) rethrow
        (λ h. on_held-IsWithin input h.id) (λ e. tt) in
    ground (arith, held)

say_cancelled-IsWithin :
    (n : ℕ) (now id : String) (payment : Option String)
    → IsWithin (suc (suc n)) (say_cancelled now id payment)
say_cancelled-IsWithin n now id payment =
    answer-IsWithin {B = Booking} (suc n) _ rethrow
      (λ b. answer-IsWithin {B = Unit {0}} n _ rethrow (λ u. tt) (λ e. tt)) (λ e. tt)

refund-IsWithin :
    (now id : String) (payment : Option String)
    → IsWithin 3 (with_refund payment (say_cancelled now id payment))
refund-IsWithin now id none = say_cancelled-IsWithin 1 now id none
refund-IsWithin now id (some payment) = elim (Bool-cases (is_empty payment)) [
  | inl no' ↦ rw no' (say_cancelled-IsWithin 1 now id (some payment))
  | inr given ↦ rw given (λ a. say_cancelled-IsWithin 0 now id (some payment))
]

cancellation-IsWithin :
    (now id : String) (payment : Option String) → IsWithin 3 (cancellation now id payment)
unfolding cancellation
cancellation-IsWithin now id payment =
    checked-IsWithin 3 (is_empty id) _ _ (refund-IsWithin now id payment)

module _ (a : Answers) (topic : String) where
  ask-recorded : (q : Call) (log : Log) → length (ask (recorded a) topic q log).1 ≡ suc (length log)
  ask-recorded (hold q) log = refl
  ask-recorded (confirm id) log = refl
  ask-recorded (release id reason) log = refl
  ask-recorded (charge q) log = refl
  ask-recorded (refund id) log = refl
  ask-recorded (publish e) log = refl

  run-length :
      {A : Type 0} (n : ℕ) (x : Program A) (log : Log)
      → IsWithin n x
      → length (run (recorded a) topic x log).1 ≤ n + length log
  unfolding run
  run-length n (finish r) log h = omega arith
  run-length zero (await q k) log h = absurd h
  run-length (suc n) (await q k) log h =
      let (r, log') = ask (recorded a) topic q log in
      let rest = run-length n (k r) log' (h r) in omega (arith, rest, ask-recorded q log)

  -- Whatever the services answer, `confirmBooking` has returned or thrown after at most five calls,
  -- and `cancelBooking` after at most three.
  pub sagas-length :
      (input : ConfirmBookingInput) (now id : String) (payment : Option String) (log : Log)
      → (length (confirm_booking (recorded a) topic input log).1 ≤ 5 + length log)
        × (length (cancel_booking (recorded a) topic now id payment log).1 ≤ 3 + length log)
  sagas-length input now id payment log =
      let (same, same') = programs-run (recorded a) topic input now id payment log in
      (
        rw (← same) (run-length 5 (saga input) log (saga-IsWithin input)),
        rw (← same')
            (run-length 3 (cancellation now id payment) log (cancellation-IsWithin now id payment)),
      )
