-- ===== src/Platform/Redis.antt =====
-- The Redis client: `set key value PX ttl NX`, and `eval` of a script that runs as one step over
-- `get` and `del`. A key that has expired is gone; the server's clock is part of its state. A call
-- that throws may have been carried out or not.
use billing_app_microservice.Prelude.{ℕ, String, Bool, true, false, Option, none, some, ◌≡◌, ◌≢◌}
use billing_app_microservice.Effect.{ok, Action}

pub record Redis : Type 1 where
  pub Store : Type 0
  pub get : String → Store → Option String
  pub del : String → Store → ℕ × Store
  -- true for the reply "OK", false for the null reply
  pub set_nx : String → String → ℕ → Action Store Bool
  pub eval : (Store → ℕ × Store) → Action Store ℕ
  pub set_nx_won :
      (k v : String) (ttl : ℕ) (s : Store) {s' : Store}
      → set_nx k v ttl s ≡ (ok true, s')
      → (get k s ≡ none) × (get k s' ≡ some v) × ((j : String) → j ≢ k → get j s' ≡ get j s)
  pub set_nx_lost :
      (k v : String) (ttl : ℕ) (s : Store) {s' : Store}
      → set_nx k v ttl s ≡ (ok false, s')
      → (get k s ≢ none) × ((j : String) → get j s' ≡ get j s)
  pub del_self : (k : String) (s : Store) → get k (del k s).1 ≡ none
  pub del_ne : (k j : String) (s : Store) → j ≢ k → get j (del k s).1 ≡ get j s
  pub eval_ok :
      (f : Store → ℕ × Store) (s : Store) {n : ℕ} {s' : Store}
      → eval f s ≡ (ok n, s')
      → f s ≡ (n, s')
