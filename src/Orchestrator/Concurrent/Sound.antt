-- ===== src/Orchestrator/Concurrent/Sound.antt =====
-- What every call of the services keeps, every interleaving of sagas keeps.
use billing_app_microservice.Prelude.{ℕ, String}
use billing_app_microservice.Platform.Redis.{Redis}
use billing_app_microservice.Booking.Model.{BookingTable}
use billing_app_microservice.Booking.Service.{Env}
use billing_app_microservice.Payment.Model.{PaymentTable}
use billing_app_microservice.Orchestrator.Clients.{Clients}
use billing_app_microservice.Orchestrator.Trace.{
  Call, hold, confirm, release, charge, refund, publish,
}
use billing_app_microservice.Orchestrator.Keeps.{Keeps, IsKept}
use billing_app_microservice.Orchestrator.Whole.{IsSound, wired-IsKept}
use billing_app_microservice.Orchestrator.Program.{ask}
use billing_app_microservice.Orchestrator.Wired.{Axios}
use billing_app_microservice.Orchestrator.Concurrent.{
  clients, System, Step, start_saga, start_cancellation, go, give_up, arrive, direct, crash, turn,
  lapse, Reach, here, next,
}

ask-Keeps :
    {W : Type 0} (I : W → Type 0) (c : Clients W) (topic : String)
    → IsKept I c
    → (q : Call) → Keeps I (ask c topic q)
ask-Keeps I c topic kept (hold q) = kept.create_hold q
ask-Keeps I c topic kept (confirm id) = kept.confirm_booking id
ask-Keeps I c topic kept (release id reason) = kept.release_booking id reason
ask-Keeps I c topic kept (charge q) = kept.charge q
ask-Keeps I c topic kept (refund id) = kept.refund id
ask-Keeps I c topic kept (publish e) = kept.publish topic e

module _ (t : BookingTable) (r : Redis) (p : PaymentTable) (axios : Axios) (env : Env) (rate : ℕ)
    (topic : String) where
  served-IsSound :
      (q : Call) → Keeps (IsSound t r p) (ask (clients t r p axios env rate topic) topic q)
  served-IsSound =
      ask-Keeps (IsSound t r p) (clients t r p axios env rate topic) topic
        (wired-IsKept t r p axios env rate)

  Step-IsSound :
      {s u : System t r p axios env rate topic}
      → Step t r p axios env rate topic s u
      → IsSound t r p s.world
      → IsSound t r p u.world
  Step-IsSound (start_saga i input at e) h = rw e h
  Step-IsSound (start_cancellation i now id payment at plain e) h = rw e h
  Step-IsSound {s} (go i q k at e) h = rw e (served-IsSound q s.world h)
  Step-IsSound (give_up i q k x at e) h = rw e h
  Step-IsSound {s} (arrive q there e) h = rw e (served-IsSound q s.world h)
  Step-IsSound {s} (direct q other e) h = rw e (served-IsSound q s.world h)
  Step-IsSound (crash i e) h = rw e h
  Step-IsSound (turn xs e) h = rw e h
  Step-IsSound (lapse l e) h = rw e h

  Reach-keeps :
      {s u : System t r p axios env rate topic}
      → IsSound t r p s.world
      → Reach t r p axios env rate topic s u
      → IsSound t r p u.world
  Reach-keeps h here = h
  Reach-keeps h (next re st) = Step-IsSound st (Reach-keeps h re)

  -- However many sagas run at once, those of cancellation with ids of letters, digits, `-`, `_` and
  -- `~` only, from any state in which some are under way and calls are late:
  -- with calls that are lost, late or carried out twice, and with the calls of others between, no
  -- two payments ever have the same id or the same idempotency key, and every booking runs forwards,
  -- if this was so at the start.
  pub Reach-IsSound :
      (s u : System t r p axios env rate topic)
      → IsSound t r p s.world
      → Reach t r p axios env rate topic s u
      → IsSound t r p u.world
  Reach-IsSound s u h re = Reach-keeps h re
