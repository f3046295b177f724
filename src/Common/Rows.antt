-- ===== src/Common/Rows.antt =====
-- Tables as lists of rows with a key: the row of a key, and an update in place.
use Prim.Native.Nat.{ℕ}
use mathlib.Core.Path.{◌≡◌}
use mathlib.Core.Bool.{Bool}
use mathlib.Core.Option.{Option, none, some}
use mathlib.Core.List.{List, [], ◌∷◌}
use native.Mathlib.Omega.{arith}
use notchstave.Common.Tests.{leb, ◌==◌, if◌then◌else◌}

abbrev pub option_map : {A B : Type 0} → (A → B) → Option A → Option B
option_map f none = none
option_map f (some a) = some (f a)

module _ {A : Type 0} (key : A → ℕ) where
  -- The first row with the key, where there is one.
  unfoldable pub find : ℕ → List A → Option A
  find k [] = none
  find k (row ∷ rows) = if key row == k then some row else find k rows

  unfoldable pub update : ℕ → (A → A) → List A → List A
  update k f [] = []
  update k f (row ∷ rows) = (if key row == k then f row else row) ∷ update k f rows

  -- An update that keeps the keys changes the row of its key and no other.
  pub find-update :
      (j k : ℕ) (f : A → A) (rows : List A)
      → ((row : A) → key (f row) ≡ key row)
      → find j (update k f rows) ≡ (if j == k then option_map f (find j rows) else find j rows)
  unfolding find update
  find-update j k f [] keeps = ground arith
  find-update j k f (row ∷ rows) keeps = ground (arith, keeps row, find-update j k f rows keeps)

  -- `ORDER BY`, which keeps the rows of one key in their order.
  unfoldable pub insert_by : A → List A → List A
  insert_by row [] = row ∷ []
  insert_by row (r ∷ rows) =
      let rest = insert_by row rows in if leb (key row) (key r) then row ∷ r ∷ rows else r ∷ rest

  unfoldable pub order_by : List A → List A
  unfolding insert_by
  order_by [] = []
  order_by (row ∷ rows) = insert_by row (order_by rows)

-- `WHERE`
unfoldable pub filter : {A : Type 0} → (A → Bool) → List A → List A
filter test [] = []
filter test (row ∷ rows) = let rest = filter test rows in if test row then row ∷ rest else rest
