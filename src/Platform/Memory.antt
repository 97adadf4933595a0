-- ===== src/Platform/Memory.antt =====
-- A table and a lock store in memory, which meet the interfaces: nothing here fails, and a key
-- expires never. The examples run on them.
use billing_app_microservice.Prelude.{
  ◌⊎◌, ℕ, String, Bool, true, false, Option, none, some, List, [], ◌∷◌, ◌++◌, ◌≡◌, ◌≢◌, refl,
  select, first, any, ◌==◌, if◌then◌else◌, All, arith, eq_iff, length, Option-cases, Bool-cases,
  inl, inr, eq_refl,
}
use billing_app_microservice.Prelude.Js.{show_ℕ}
use billing_app_microservice.Effect.{ok, err, Action}
use billing_app_microservice.Utils.Errors.{Error, plain}
use billing_app_microservice.Platform.Table.{Table, write, find}
use billing_app_microservice.Platform.Redis.{Redis}

module _ {Row : Type 0} (key : Row → String) (clash : Row → Row → Bool) where
  -- The next primary key counts the rows.
  abbrev pub new_row : (String → Row) → List Row → Row
  new_row f rows = f (show_ℕ (length rows))

  abbrev pub create : (String → Row) → Action (List Row) Row
  create f rows =
      if any (clash (new_row f rows)) rows
      then (err (plain "Unique constraint failed"), rows)
      else (ok (new_row f rows), rows ++ new_row f rows ∷ [])

  abbrev pub update : String → (Row → Row) → Action (List Row) Row
  update id f rows = elim (find key id rows) [
    | none ↦ (err (plain "Record to update not found"), rows)
    | some x ↦ (ok (f x), write key id f rows)
  ]

  All-any :
      (r : Row) (rows : List Row) → any (clash r) rows ≡ false → All (λ x. clash r x ≡ false) rows
  All-any r [] h = tt
  All-any r (x ∷ rows) h = ground (arith, All-any r rows)

  pub create_ok :
      (f : String → Row) (s : List Row) {r : Row} {s' : List Row}
      → create f s ≡ (ok r, s')
      → (id : String) × (r ≡ f id) × (s' ≡ s ++ r ∷ []) × All (λ x. clash r x ≡ false) s
  create_ok f s {r} {s'} e = elim (Bool-cases (any (clash (new_row f s)) s)) [
    | inl full ↦ absurd (ground arith)
    | inr free ↦
        let same : r ≡ new_row f s = ground arith in
        (show_ℕ (length s), same, rw same (ground arith), rw same (All-any _ s free))
  ]

  pub create_err :
      (f : String → Row) (s : List Row) {e : Error} {s' : List Row}
      → create f s ≡ (err e, s')
      → (s' ≡ s) ⊎ ((id : String) × (s' ≡ s ++ f id ∷ []) × All (λ x. clash (f id) x ≡ false) s)
  create_err f s e = inl (ground arith)

  pub update_ok :
      (id : String) (f : Row → Row) (s : List Row) {r : Row} {s' : List Row}
      → update id f s ≡ (ok r, s')
      → (x : Row) × (find key id s ≡ some x) × (r ≡ f x) × (s' ≡ write key id f s)
  update_ok id f s e = elim (Option-cases (find key id s)) [
    | inl missing ↦ absurd (ground arith)
    | inr (x, found) ↦ (x, found, ground arith, ground arith)
  ]

  pub update_err :
      (id : String) (f : Row → Row) (s : List Row) {e : Error} {s' : List Row}
      → update id f s ≡ (err e, s')
      → (s' ≡ s) ⊎ ((x : Row) × (find key id s ≡ some x) × (s' ≡ write key id f s))
  update_err id f s e = inl (ground arith)

  pub find_many_ok :
      (p : Row → Bool) (s : List Row) {xs : List Row} → ok (select p s) ≡ ok xs → xs ≡ select p s
  find_many_ok p s e = cc

  pub find_first_ok :
      (p : Row → Bool) (s : List Row) {o : Option Row} → ok (first p s) ≡ ok o → o ≡ first p s
  find_first_ok p s e = cc

  abbrev pub memory : Table Row key clash
  memory = record {
    Store = List Row;
    rows = λ s. s;
    find_many = λ p s. ok (select p s);
    find_first = λ p s. ok (first p s);
    create = create;
    update = update;
    find_many_ok = find_many_ok;
    find_first_ok = find_first_ok;
    create_ok = create_ok;
    create_err = create_err;
    update_ok = update_ok;
    update_err = update_err;
  }

-- The locks held: keys with their values.
abbrev pub Locks : Type 0
Locks = List (String × String)

abbrev pub get : String → Locks → Option String
get k [] = none
get k ((j, v) ∷ s) = if j == k then some v else get k s

abbrev pub drop_key : String → Locks → Locks
drop_key k [] = []
drop_key k ((j, v) ∷ s) = if j == k then drop_key k s else (j, v) ∷ drop_key k s

abbrev pub del : String → Locks → ℕ × Locks
del k s = (elim (get k s) [ none ↦ 0 | some _ ↦ 1 ], drop_key k s)

abbrev pub set_nx : String → String → ℕ → Action Locks Bool
set_nx k v ttl s = elim (get k s) [ none ↦ (ok true, (k, v) ∷ s) | some _ ↦ (ok false, s) ]

pub del_self : (k : String) (s : Locks) → get k (drop_key k s) ≡ none
del_self k [] = refl
del_self k ((j, v) ∷ s) = ground (arith, del_self k s)

pub del_ne : (k j : String) (s : Locks) → j ≢ k → get j (drop_key k s) ≡ get j s
del_ne k j [] h = refl
del_ne k j ((i, v) ∷ s) h = ground (arith, del_ne k j s h, eq_iff i k, eq_iff i j)

pub set_nx_won :
    (k v : String) (ttl : ℕ) (s : Locks) {s' : Locks}
    → set_nx k v ttl s ≡ (ok true, s')
    → (get k s ≡ none) × (get k s' ≡ some v) × ((j : String) → j ≢ k → get j s' ≡ get j s)
set_nx_won k v ttl s e =
    (ground arith, ground (arith, eq_refl k), λ j h. ground (arith, eq_iff k j))

pub set_nx_lost :
    (k v : String) (ttl : ℕ) (s : Locks) {s' : Locks}
    → set_nx k v ttl s ≡ (ok false, s')
    → (get k s ≢ none) × ((j : String) → get j s' ≡ get j s)
set_nx_lost k v ttl s e = (ground arith, λ j. ground arith)

abbrev pub eval : (Locks → ℕ × Locks) → Action Locks ℕ
eval f s = let (n, s') = f s in (ok n, s')

pub eval_ok :
    (f : Locks → ℕ × Locks) (s : Locks) {n : ℕ} {s' : Locks} → eval f s ≡ (ok n, s') → f s ≡ (n, s')
eval_ok f s e = ground arith

abbrev pub locks : Redis
locks = record {
  Store = Locks;
  get = get;
  del = del;
  set_nx = set_nx;
  eval = eval;
  set_nx_won = set_nx_won;
  set_nx_lost = set_nx_lost;
  del_self = del_self;
  del_ne = del_ne;
  eval_ok = eval_ok;
}
