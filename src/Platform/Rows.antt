-- ===== src/Platform/Rows.antt =====
-- Searching the rows of a table before and after a write.
use billing_app_microservice.Prelude.{
  String, Bool, true, none, some, List, [], ◌∷◌, ◌++◌, ◌≡◌, arith, first, ◌==◌, Bool-cases, inl,
  inr,
}
use billing_app_microservice.Platform.Table.{write, find}

pub first-concat {ℓ} :
    {A : Type ℓ} (q : A → Bool) (x : A) (xs : List A)
    → first q xs ≡ none
    → q x ≡ true
    → first q (xs ++ x ∷ []) ≡ some x
first-concat q x [] h k = rw k
first-concat q x (y ∷ ys) h k = ground (arith, first-concat q x ys)

-- What a search finds passes its test.
pub first-true {ℓ} :
    {A : Type ℓ} (q : A → Bool) {x : A} (xs : List A) → first q xs ≡ some x → q x ≡ true
first-true q [] h = cc
first-true q {x} (y ∷ ys) h = elim (Bool-cases (q y)) [
  | inl here ↦ let same : y ≡ x = ground arith in rw (← same) here
  | inr other ↦ first-true q ys (ground arith)
]

-- The row of an id, after a write that keeps the ids.
pub find-write :
    {Row : Type 0} (key : Row → String) (id : String) (f : Row → Row) {x : Row} (rows : List Row)
    → ((r : Row) → key (f r) ≡ key r)
    → find key id rows ≡ some x
    → find key id (write key id f rows) ≡ some (f x)
find-write key id f [] keep h = cc
find-write key id f (r ∷ rows) keep h = elim (Bool-cases (key r == id)) [
  | inl here ↦ rw (here, keep r, here) (ground arith)
  | inr other ↦ rw (other, other) (find-write key id f rows keep (ground arith))
]
