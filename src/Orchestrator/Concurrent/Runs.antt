-- ===== src/Orchestrator/Concurrent/Runs.antt =====
-- The sagas as they are written are runs of the steps, one call after the other.
use billing_app_microservice.Prelude.{ℕ, String, Option, ◌≡◌, refl, arith}
use billing_app_microservice.Platform.Redis.{Redis}
use billing_app_microservice.Booking.Model.{BookingTable}
use billing_app_microservice.Booking.Service.{Env}
use billing_app_microservice.Payment.Model.{PaymentTable}
use billing_app_microservice.Orchestrator.Clients.{Clients}
use billing_app_microservice.Orchestrator.Service.{
  ConfirmBookingInput, confirm_booking, cancel_booking,
}
use billing_app_microservice.Orchestrator.Program.{
  Program, finish, await, ask, run, saga, cancellation,
}
use billing_app_microservice.Orchestrator.Program.Runs.{programs-run}
use billing_app_microservice.Orchestrator.Wired.{Axios, World}
use billing_app_microservice.Orchestrator.Concurrent.{
  IsPlain, forget, idle, set_pc, clients, System, goes, serves, start_saga, start_cancellation, go,
  Reach, here, next,
}

-- What a saga is started with.
pub data Request : Type 0 where
  confirms : ConfirmBookingInput → Request
  cancels : (now id : String) → (payment : Option String) → Request

set_pc_self : (i : ℕ) (x : Program (Unit {0})) (f : ℕ → Program (Unit {0})) → set_pc i x f i ≡ x
set_pc_self i x f = ground arith

-- Dropping the value of a program changes nothing of what it does.
run-forget :
    {W A : Type 0} (c : Clients W) (topic : String) (x : Program A) (w : W)
    → (run c topic (forget x) w).1 ≡ (run c topic x w).1
unfolding run forget
run-forget c topic (finish r) w = refl
run-forget c topic (await q k) w = run-forget c topic (k (ask c topic q w).0) (ask c topic q w).1

module _ (t : BookingTable) (r : Redis) (p : PaymentTable) (axios : Axios) (env : Env) (rate : ℕ)
    (topic : String) where
  -- Every step is of saga `i`, which began with that request: it begins, or makes its next call.
  abbrev pub IsRunOf :
      {s u : System t r p axios env rate topic}
      → Request
      → ℕ
      → Reach t r p axios env rate topic s u
      → Type 0
  IsRunOf q i here = Unit
  IsRunOf q i (next re (start_saga j input a e)) = IsRunOf q i re × (j ≡ i) × (q ≡ confirms input)
  IsRunOf q i (next re (start_cancellation j now id payment a plain e)) =
      IsRunOf q i re × (j ≡ i) × (q ≡ cancels now id payment)
  IsRunOf q i (next re (go j c k a e)) = IsRunOf q i re × (j ≡ i)
  IsRunOf q i (next re st) = ⊥

  -- The system with the world that an uninterrupted run leaves, and the saga ended.
  abbrev pub Ended : System t r p axios env rate topic → Request → ℕ → World t r p → Type 0
  Ended s q i w =
      (u : System t r p axios env rate topic) × (re : Reach t r p axios env rate topic s u)
      × IsRunOf q i re
      × (u.world ≡ w)
      × (u.pc i ≡ idle)

  program-Ended :
      {A : Type 0} (x : Program A) (q : Request) (s₀ s : System t r p axios env rate topic) (i : ℕ)
      → (re : Reach t r p axios env rate topic s₀ s) → IsRunOf q i re
      → s.pc i ≡ forget x
      → Ended s₀ q i (run (clients t r p axios env rate topic) topic x s.world).1
  unfolding run forget
  program-Ended (finish a) req s₀ s i re own at = (s, re, own, refl, at)
  program-Ended (await q k) req s₀ s i re own at =
      let (a, w) = ask (clients t r p axios env rate topic) topic q s.world in
      let x = forget (k a) in
      program-Ended (k a) req s₀
        (goes t r p axios env rate topic (serves t r p axios env rate topic s q) i x) i
        (next re (go i q (λ b. forget (k b)) at refl)) (own, refl) (set_pc_self i x s.pc)

  -- `confirmBooking`, whatever its input, and `cancelBooking` of ids with only letters, digits, `-`,
  -- `_` and `~`, however they end, leave the world
  -- as a saga of the interleaved system leaves it that begins with this very request, where none was
  -- under way under its number, and makes its calls to the end, with no other step before, between
  -- or after.
  pub sagas-Reach :
      (s : System t r p axios env rate topic) (i : ℕ) (input : ConfirmBookingInput)
      (now id : String) (payment : Option String)
      → s.pc i ≡ idle
      → IsPlain id payment
      → Ended s
          (confirms input)
          i
          (confirm_booking (clients t r p axios env rate topic) topic input s.world).1
        × Ended s
            (cancels now id payment)
            i
            (cancel_booking (clients t r p axios env rate topic) topic now id payment s.world).1
  sagas-Reach s i input now id payment at plain =
      let c = clients t r p axios env rate topic in
      let (same, same') = programs-run c topic input now id payment s.world in
      let x = forget (saga input) in
      let y = forget (cancellation now id payment) in
      (
        rw (← same) (
            program-Ended (saga input) (confirms input) s (goes t r p axios env rate topic s i x) i
              (next here (start_saga i input at refl)) (tt, refl, refl) (set_pc_self i x s.pc)),
        rw (← same') (
            program-Ended (cancellation now id payment) (cancels now id payment) s
              (goes t r p axios env rate topic s i y) i
              (next here (start_cancellation i now id payment at plain refl)) (tt, refl, refl)
              (set_pc_self i y s.pc)),
      )
