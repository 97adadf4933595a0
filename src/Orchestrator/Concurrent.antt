-- ===== src/Orchestrator/Concurrent.antt =====
-- booking-orchestrator/src/services/bookingOrchestrator.service.ts run by many requests at once, with
-- the two services behind it, whose handlers run whole. A step is one call of a saga; calls of other
-- sagas, calls of anyone else, and late calls may come between. A saga's number is its place in `pc`.
pub mod Careful
pub mod Entitled
pub mod Safety
pub mod Sound
pub mod Runs
mod Examples
use billing_app_microservice.Prelude.{
  ℕ, String, Bool, true, false, Option, none, some, List, ◌∷◌, ◌≡◌, Any, nat_eq, if◌then◌else◌,
}
use billing_app_microservice.Effect.{Result, ok, err}
use billing_app_microservice.Utils.Errors.{Error}
use billing_app_microservice.Platform.Redis.{Redis}
use billing_app_microservice.Platform.Url.{is_path_part}
use billing_app_microservice.Booking.Model.{BookingTable}
use billing_app_microservice.Booking.Service.{Env}
use billing_app_microservice.Payment.Model.{PaymentTable}
use billing_app_microservice.Orchestrator.Clients.{Clients}
use billing_app_microservice.Orchestrator.Trace.{Call, confirm}
use billing_app_microservice.Orchestrator.Service.{ConfirmBookingInput}
use billing_app_microservice.Orchestrator.Program.{
  Answer, Program, finish, await, ask, saga, cancellation,
}
use billing_app_microservice.Orchestrator.Wired.{Axios, Turn, World, wired}

-- A program without its value.
unfoldable pub forget : {A : Type 0} → Program A → Program (Unit {0})
forget (finish r) = finish (ok tt)
forget (await q k) = await q (λ a. forget (k a))

-- No saga, or one that has ended.
abbrev pub idle : Program (Unit {0})
idle = finish (ok tt)

abbrev pub set_pc : ℕ → Program (Unit {0}) → (ℕ → Program (Unit {0})) → ℕ → Program (Unit {0})
set_pc i x pc j = if nat_eq j i then x else pc j

abbrev pub is_confirm : Call → Bool
is_confirm (confirm id) = true
is_confirm _ = false

-- The ids of a cancellation that stand for themselves in a path.
abbrev pub IsPlain : String → Option String → Type 0
IsPlain id none = is_path_part id ≡ true
IsPlain id (some payment) = (is_path_part id ≡ true) × (is_path_part payment ≡ true)

module _ (t : BookingTable) (r : Redis) (p : PaymentTable) (axios : Axios) (env : Env) (rate : ℕ)
    (topic : String) where
  abbrev pub clients : Clients (World t r p)
  clients = wired t r p axios env rate

  pub record System : Type 0 where
    pub world : World t r p
    pub pc : ℕ → Program (Unit {0})
    -- calls that were given up by their saga and may still be carried out
    pub late : List Call

  -- Saga `i` goes on to `x`.
  abbrev pub goes : System → ℕ → Program (Unit {0}) → System
  goes s i x = record s { pc = set_pc i x s.pc }

  -- The services carry a call out.
  abbrev pub serves : System → Call → System
  serves s q = record s { world = (ask clients topic q s.world).1 }

  pub data Step (s u : System) : Type 0 where
    -- A request for `confirmBooking`, and one for `cancelBooking`, whose ids stand for themselves in
    -- the paths of the calls
    start_saga :
        (i : ℕ) (input : ConfirmBookingInput)
        → s.pc i ≡ idle
        → u ≡ goes s i (forget (saga input))
        → Step s u
    start_cancellation :
        (i : ℕ) (now id : String) (payment : Option String)
        → s.pc i ≡ idle
        → IsPlain id payment
        → u ≡ goes s i (forget (cancellation now id payment))
        → Step s u
    -- The call of a saga is carried out, and the saga has the answer, or what axios throws.
    go :
        (i : ℕ) (q : Call) (k : Result (Answer q) → Program (Unit {0}))
        → s.pc i ≡ await q k
        → u ≡ goes (serves s q) i (k (ask clients topic q s.world).0)
        → Step s u
    -- axios gives up after five seconds, while the request is still on its way.
    give_up :
        (i : ℕ) (q : Call) (k : Result (Answer q) → Program (Unit {0})) (e : Error)
        → s.pc i ≡ await q k
        → u ≡ goes (record s { late = q ∷ s.late }) i (k (err e))
        → Step s u
    -- A call that was given up is carried out after all, or once more.
    arrive : (q : Call) → Any (λ c. c ≡ q) s.late → u ≡ serves s q → Step s u
    -- Anyone makes any other call, but asks to confirm.
    direct : (q : Call) → is_confirm q ≡ false → u ≡ serves s q → Step s u
    -- The process of a saga stops.
    crash : (i : ℕ) → u ≡ goes s i idle → Step s u
    -- What the environment gives the next calls: the time that passes, their way, the draws.
    turn : (xs : List Turn) → u ≡ record s { world = record s.world { turns = xs } } → Step s u
    -- The locks in Redis run out, or are anything else.
    lapse : (l : r.Store) → u ≡ record s { world = record s.world { locks = l } } → Step s u

  -- What can be reached by any steps.
  pub data Reach (s : System) : System → Type 0 where
    here : Reach s s
    next : {u w : System} → Reach s u → Step u w → Reach s w
