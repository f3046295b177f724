-- ===== src/Common/Tables.antt =====
-- What holds of the rows of a table, and the row that `ORDER BY … LIMIT 1` picks.
use Prim.Native.Nat.{ℕ, ◌≤◌, ◌+◌}
use mathlib.Core.Path.{◌≡◌, refl, sym, subst}
use mathlib.Core.Logic.{◌≢◌, inl, inr}
use mathlib.Core.Bool.{Bool, true, false}
use mathlib.Core.Option.{Option, none, some}
use mathlib.Core.List.{List, [], ◌∷◌}
use native.Mathlib.Omega.{arith}
use notchstave.Common.Tests.{leb, if◌then◌else◌, Bool-cases}
use notchstave.Common.Rows.{insert_by, order_by, filter}

module _ {A : Type 0} where
  abbrev pub All : (A → Type 0) → List A → Type 0
  All P [] = Unit
  All P (row ∷ rows) = P row × All P rows

  pub All-map :
      {P Q : A → Type 0} (f : (a : A) → P a → Q a) (rows : List A) → All P rows → All Q rows
  All-map f [] h = tt
  All-map f (row ∷ rows) (h, hs) = (f row h, All-map f rows hs)

  pub All-always : {P : A → Type 0} (f : (a : A) → P a) (rows : List A) → All P rows
  All-always f [] = tt
  All-always f (row ∷ rows) = (f row, All-always f rows)

  pub All-zip :
      {P Q R : A → Type 0} (f : (a : A) → P a → Q a → R a) (rows : List A)
      → All P rows
      → All Q rows
      → All R rows
  All-zip f [] h k = tt
  All-zip f (row ∷ rows) (h, hs) (k, ks) = (f row h k, All-zip f rows hs ks)

  All-filter_cons :
      (P : A → Type 0) (test : A → Bool) (row : A) (rows : List A)
      → (test row ≡ true → P row)
      → All P (filter test rows)
      → All P (filter test (row ∷ rows))
  unfolding filter
  All-filter_cons P test row rows h hs = elim (Bool-cases (test row)) [
    | inl e ↦ rw e (h e, hs)
    | inr e ↦ rw e hs
  ]

  pub All-filter :
      (P : A → Type 0) (test : A → Bool) (rows : List A) → All P rows → All P (filter test rows)
  unfolding filter
  All-filter P test [] h = tt
  All-filter P test (row ∷ rows) (h, hs) =
      All-filter_cons P test row rows (λ _. h) (All-filter P test rows hs)

  pub filter-passes :
      (test : A → Bool) (rows : List A) → All (λ a. test a ≡ true) (filter test rows)
  unfolding filter
  filter-passes test [] = tt
  filter-passes test (row ∷ rows) =
      All-filter_cons (λ a. test a ≡ true) test row rows (λ e. e) (filter-passes test rows)

  pub filter-none :
      (test : A → Bool) (rows : List A) → All (λ a. test a ≡ false) rows → filter test rows ≡ []
  unfolding filter
  filter-none test [] h = refl
  filter-none test (row ∷ rows) (h, hs) = rw h (filter-none test rows hs)

  -- The first row, where there is one.
  abbrev pub first : List A → Option A
  first [] = none
  first (row ∷ rows) = some row

  -- `UPDATE … WHERE`
  unfoldable pub update_where : (A → Bool) → (A → A) → List A → List A
  update_where test f [] = []
  update_where test f (row ∷ rows) = (if test row then f row else row) ∷ update_where test f rows

  pub All-update_where :
      {P Q : A → Type 0} (test : A → Bool) (f : A → A) (rows : List A)
      → ((a : A) → test a ≡ true → P a → Q (f a))
      → ((a : A) → test a ≡ false → P a → Q a)
      → All P rows
      → All Q (update_where test f rows)
  unfolding update_where
  All-update_where test f [] changed kept h = tt
  All-update_where test f (row ∷ rows) changed kept (h, hs) = elim (Bool-cases (test row)) [
    | inl e ↦ rw e (changed row e h, All-update_where test f rows changed kept hs)
    | inr e ↦ rw e (kept row e h, All-update_where test f rows changed kept hs)
  ]

  -- The sum of a weight over the rows, such as a count.
  unfoldable pub total : (A → ℕ) → List A → ℕ
  total weight [] = 0
  total weight (row ∷ rows) = weight row + total weight rows

  pub total-update_where :
      (weight : A → ℕ) (test : A → Bool) (f : A → A) (rows : List A)
      → All (λ a. test a ≡ true → weight (f a) ≤ weight a) rows
      → total weight (update_where test f rows) ≤ total weight rows
  unfolding total update_where
  total-update_where weight test f [] h = omega arith
  total-update_where weight test f (row ∷ rows) (h, hs) = elim (Bool-cases (test row)) [
    | inl e ↦ rw e (omega (arith, h e, total-update_where weight test f rows hs))
    | inr e ↦ rw e (omega (arith, total-update_where weight test f rows hs))
  ]

  module _ (key : A → ℕ) where
    All-insert_by :
        (P : A → Type 0) (a : A) (rows : List A) → P a → All P rows → All P (insert_by key a rows)
    unfolding insert_by
    All-insert_by P a [] h hs = (h, tt)
    All-insert_by P a (row ∷ rows) h (k, ks) = elim (Bool-cases (leb (key a) (key row))) [
      | inl e ↦ rw e (h, (k, ks))
      | inr e ↦ rw e (k, All-insert_by P a rows h ks)
    ]

    pub All-order_by : (P : A → Type 0) (rows : List A) → All P rows → All P (order_by key rows)
    unfolding order_by
    All-order_by P [] h = tt
    All-order_by P (row ∷ rows) (h, hs) =
        All-insert_by P row (order_by key rows) h (All-order_by P rows hs)

    -- The row that is picked is one of those that pass the test.
    pub first-IsPicked :
        (P : A → Type 0) (test : A → Bool) (rows : List A) (a : A)
        → All P (filter test rows)
        → first (order_by key (filter test rows)) ≡ some a
        → P a
    first-IsPicked P test rows a h e =
        first-All (order_by key (filter test rows)) (All-order_by P (filter test rows) h) e
      where
        first-All : (xs : List A) → All P xs → first xs ≡ some a → P a
        first-All [] h e = cc
        first-All (x ∷ xs) (h, hs) e = subst P (cc) h

    -- No two rows have the same key.
    abbrev pub AreDistinct : List A → Type 0
    AreDistinct [] = Unit
    AreDistinct (row ∷ rows) = All (λ q. key q ≢ key row) rows × AreDistinct rows

    -- Under a primary key, the rows with the key of one that passes the test pass it too.
    pub filter-IsOnly :
        (test : A → Bool) (rows : List A)
        → AreDistinct rows
        → All (λ p. All (λ q. key q ≡ key p → test q ≡ true) rows) (filter test rows)
    unfolding filter
    filter-IsOnly test [] d = tt
    filter-IsOnly test (row ∷ rows) (new, d) =
        let later : All (λ p. All (λ q. key q ≡ key p → test q ≡ true) (row ∷ rows))
            (filter test rows) =
          All-zip (λ p ne hs. ((λ e. absurd (ne (sym e))), hs)) (filter test rows)
            (All-filter _ test rows new) (filter-IsOnly test rows d) in
        All-filter_cons (λ p. All (λ q. key q ≡ key p → test q ≡ true) (row ∷ rows)) test row rows
          (λ e. ((λ _. e), All-map (λ q ne same. absurd (ne same)) rows new)) later

    pub update_where-AreDistinct :
        (test : A → Bool) (f : A → A) (rows : List A)
        → ((a : A) → key (f a) ≡ key a)
        → AreDistinct rows
        → AreDistinct (update_where test f rows)
    unfolding update_where
    update_where-AreDistinct test f [] same d = tt
    update_where-AreDistinct test f (row ∷ rows) same (new, d) =
        let rest = update_where-AreDistinct test f rows same d in
        elim (Bool-cases (test row)) [
          | inl e ↦ rw e (
            All-update_where test f rows (λ a _ ne. rw (same a, same row) ne)
                (λ a _ ne. rw (same row) ne) new,
            rest,
          )
          | inr e ↦
              rw e
                (All-update_where test f rows (λ a _ ne. rw (same a) ne) (λ a _ ne. ne) new, rest)
        ]

    insert_by-ne-nil : (a : A) (rows : List A) → first (insert_by key a rows) ≢ none
    unfolding insert_by
    insert_by-ne-nil a [] = cc
    insert_by-ne-nil a (row ∷ rows) = ground arith

    first-none : (rows : List A) → first (order_by key rows) ≡ none → rows ≡ []
    unfolding order_by
    first-none [] e = refl
    first-none (row ∷ rows) e = absurd (insert_by-ne-nil row (order_by key rows) e)

    filter-nil :
        (test : A → Bool) (rows : List A) → filter test rows ≡ [] → All (λ a. test a ≡ false) rows
    unfolding filter
    filter-nil test [] e = tt
    filter-nil test (row ∷ rows) e = elim (Bool-cases (test row)) [
      | inl t ↦ absurd (cons-ne (rw t at e))
      | inr t ↦ (t, filter-nil test rows (rw t at e))
    ]
      where
        cons-ne : {xs : List A} → row ∷ xs ≢ []
        cons-ne e = cc

    -- Where no row is picked, none passes the test.
    pub all_fail-first :
        (test : A → Bool) (rows : List A)
        → first (order_by key (filter test rows)) ≡ none
        → All (λ a. test a ≡ false) rows
    all_fail-first test rows e = filter-nil test rows (first-none (filter test rows) e)

    pub filter-AreDistinct :
        (test : A → Bool) (rows : List A) → AreDistinct rows → AreDistinct (filter test rows)
    unfolding filter
    filter-AreDistinct test [] d = tt
    filter-AreDistinct test (row ∷ rows) (new, d) =
        let rest = filter-AreDistinct test rows d in
        elim (Bool-cases (test row)) [
          | inl e ↦ rw e (All-filter (λ q. key q ≢ key row) test rows new, rest)
          | inr e ↦ rw e rest
        ]
