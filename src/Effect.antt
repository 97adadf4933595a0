-- ===== src/Effect.antt =====
-- An asynchronous method: it acts on a state, and returns a value or throws an error.
-- What was written before a throw stays written, so the state comes back in both cases.
use billing_app_microservice.Prelude.{
  Bool, true, false, Option, none, some, if◌then◌else◌, ◌≡◌, refl, ◌⊎◌, inl, inr,
}
use billing_app_microservice.Utils.Errors.{Error}

pub data Result (A : Type 0) : Type 0 where
  ok : A → Result A
  err : Error → Result A

abbrev pub is_ok : {A : Type 0} → Result A → Bool
is_ok (ok a) = true
is_ok (err e) = false

abbrev pub Action : Type 0 → Type 0 → Type 0
Action S A = S → Result A × S

module _ {S A : Type 0} where
  abbrev pub pure : A → Action S A
  pure a s = (ok a, s)

  abbrev pub throw : Error → Action S A
  throw e s = (err e, s)

  -- A value or a throw, decided with no effect.
  abbrev pub lift : Result A → Action S A
  lift r s = (r, s)

  abbrev pub or_throw : Option A → Error → Action S A
  or_throw none e = throw e
  or_throw (some a) e = pure a

infixl 5 ◌>>=◌ ◌>>◌
abbrev pub ◌>>=◌ : {S A B : Type 0} → Action S A → (A → Action S B) → Action S B
◌>>=◌ m f s = let (r, s') = m s in elim r [ ok a ↦ f a s' | err e ↦ (err e, s') ]

abbrev pub ◌>>◌ : {S A B : Type 0} → Action S A → Action S B → Action S B
m >> k = m >>= λ _. k

abbrev pub throw_if : {S : Type 0} → Bool → Error → Action S (Unit {0})
throw_if b e s = (if b then err e else ok tt, s)

-- `try { m } finally { k }`: `k` runs in both cases, and its own value is dropped.
abbrev pub finally : {S A B : Type 0} → Action S A → Action S B → Action S A
finally m k s =
    let (r, s') = m s in let (t, s'') = k s' in (elim t [ ok _ ↦ r | err e ↦ err e ], s'')

-- `try { m } catch (e) { k e }`.
abbrev pub catch : {S A : Type 0} → Action S A → (Error → Action S A) → Action S A
catch m k s = let (r, s') = m s in elim r [ ok a ↦ (ok a, s') | err e ↦ k e s' ]

pub Result-cases :
    {A : Type 0} (r : Result A) → ((a : A) × (r ≡ ok a)) ⊎ ((e : Error) × (r ≡ err e))
Result-cases (ok a) = inl (a, refl)
Result-cases (err e) = inr (e, refl)

-- How an action ended, with the state that it left.
pub Outcome-cases :
    {S A : Type 0} (x : Result A × S)
    → ((a : A) × (s : S) × (x ≡ (ok a, s))) ⊎ ((e : Error) × (s : S) × (x ≡ (err e, s)))
Outcome-cases (ok a, s) = inl (a, s, refl)
Outcome-cases (err e, s) = inr (e, s, refl)
