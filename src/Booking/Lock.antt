-- ===== src/Booking/Lock.antt =====
-- booking-service/src/services/lock.service.ts, `RedisLockService`
use billing_app_microservice.Prelude.{
  ℕ, String, Bool, false, Option, none, some, nat_eq, ◌==◌, if◌then◌else◌,
}
use billing_app_microservice.Effect.{Action, pure, catch, ◌>>=◌}
use billing_app_microservice.Platform.Redis.{Redis}

module _ (r : Redis) where
  -- `lock_value` is the fresh `crypto.randomUUID()`.
  unfoldable pub acquire_lock : String → String → ℕ → Action r.Store (Option String)
  acquire_lock lock_value key ttl_ms = do
    won ← r.set_nx key lock_value ttl_ms
    pure (if won then some lock_value else none)

  abbrev value_is : Option String → String → Bool
  value_is none v = false
  value_is (some w) v = w == v

  -- RELEASE_LOCK_LUA: delete the key if it still has the caller's value.
  unfoldable pub release_script : String → String → r.Store → ℕ × r.Store
  release_script key lock_value s =
      if value_is (r.get key s) lock_value then r.del key s else (0, s)

  unfoldable pub release_lock : String → String → Action r.Store Bool
  release_lock key lock_value =
      catch (do n ← r.eval (release_script key lock_value); pure (nat_eq n 1)) (λ e. pure false)
