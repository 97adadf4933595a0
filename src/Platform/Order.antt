-- ===== src/Platform/Order.antt =====
-- `orderBy` of a query: the database returns the rows in the ascending order of a column.
use mathlib.Core.List.{Perm}
use billing_app_microservice.Prelude.{ℕ, ◌<◌, List, [], ◌∷◌, ◌≡◌}

-- The column strictly ascends along the list.
abbrev pub IsAscending : {A : Type 0} → (A → ℕ) → List A → Type 0
IsAscending column [] = Unit
IsAscending column (x ∷ []) = Unit
IsAscending column (x ∷ y ∷ xs) = (column x < column y) × IsAscending column (y ∷ xs)

-- By a text column, such as `seatNumber`: the same rows in some order.
pub record TextOrder (A : Type 0) : Type 0 where
  pub order : List A → List A
  pub order-perm : (xs : List A) → Perm (order xs) xs

-- By a number column: rows that ascend already come as they are.
pub record NumberOrder (A : Type 0) (column : A → ℕ) : Type 0 where
  pub order : List A → List A
  pub order-ascending : (xs : List A) → IsAscending column xs → order xs ≡ xs
