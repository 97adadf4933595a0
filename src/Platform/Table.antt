-- ===== src/Platform/Table.antt =====
-- One model of Prisma's client (`prisma.booking`, …) over a table of PostgreSQL. Every call may
-- throw, for a lost connection or a malformed value; a write that throws has left the table alone, or
-- was committed and only its answer is lost.
-- `clash a b`: the two rows have the same primary key, or agree on a column marked `@unique`.
use billing_app_microservice.Prelude.{
  String, Bool, false, Option, some, List, [], ◌∷◌, ◌++◌, ◌≡◌, ◌⊎◌, select, first, map, ◌==◌,
  if◌then◌else◌, All,
}
use billing_app_microservice.Effect.{Result, ok, err, Action}
use billing_app_microservice.Utils.Errors.{Error}

-- The rows after `update({ where: { id }, data })`, where `f` writes the fields of `data`.
abbrev pub write : {Row : Type 0} → (Row → String) → String → (Row → Row) → List Row → List Row
write key id f = map (λ r. if key r == id then f r else r)

-- The row of a primary key.
abbrev pub find : {Row : Type 0} → (Row → String) → String → List Row → Option Row
find key id = first (λ r. key r == id)

pub record Table (Row : Type 0) (key : Row → String) (clash : Row → Row → Bool) : Type 1 where
  pub Store : Type 0
  pub rows : Store → List Row
  -- `findMany({ where })`; `findUnique({ where })` and `findFirst({ where })`
  pub find_many : (Row → Bool) → Store → Result (List Row)
  pub find_first : (Row → Bool) → Store → Result (Option Row)
  -- `create({ data })`: the database chooses the primary key.
  pub create : (String → Row) → Action Store Row
  pub update : String → (Row → Row) → Action Store Row
  pub find_many_ok :
      (p : Row → Bool) (s : Store) {xs : List Row} → find_many p s ≡ ok xs → xs ≡ select p (rows s)
  pub find_first_ok :
      (p : Row → Bool) (s : Store) {o : Option Row} → find_first p s ≡ ok o → o ≡ first p (rows s)
  pub create_ok :
      (f : String → Row) (s : Store) {r : Row} {s' : Store}
      → create f s ≡ (ok r, s')
      → (id : String) × (r ≡ f id)
        × (rows s' ≡ rows s ++ r ∷ [])
        × All (λ x. clash r x ≡ false) (rows s)
  pub create_err :
      (f : String → Row) (s : Store) {e : Error} {s' : Store}
      → create f s ≡ (err e, s')
      → (rows s' ≡ rows s)
        ⊎ ((id : String) × (rows s' ≡ rows s ++ f id ∷ [])
            × All (λ x. clash (f id) x ≡ false) (rows s))
  pub update_ok :
      (id : String) (f : Row → Row) (s : Store) {r : Row} {s' : Store}
      → update id f s ≡ (ok r, s')
      → (x : Row) × (find key id (rows s) ≡ some x)
        × (r ≡ f x)
        × (rows s' ≡ write key id f (rows s))
  pub update_err :
      (id : String) (f : Row → Row) (s : Store) {e : Error} {s' : Store}
      → update id f s ≡ (err e, s')
      → (rows s' ≡ rows s)
        ⊎ ((x : Row) × (find key id (rows s) ≡ some x) × (rows s' ≡ write key id f (rows s)))

-- A query as a step: it changes nothing.
abbrev pub query : {S A : Type 0} → (S → Result A) → Action S A
query q s = (q s, s)
