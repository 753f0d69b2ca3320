-- ===== src/Prelude/Rows.antt =====
-- SQL over a table as a list of rows: the rows that pass a test are found, counted, updated or
-- deleted.
use Prim.Native.Nat.{ℕ, suc, ◌+◌, ◌<◌, ◌≤◌}
use mathlib.Core.Path.{◌≡◌, refl}
use mathlib.Core.Bool.{Bool, true, false, not, ◌&&◌}
use mathlib.Core.Option
use mathlib.Core.Option.{Option, none, some}
use mathlib.Core.List.{List, [], ◌∷◌, ◌++◌}
use native.Mathlib.Omega.{arith}
use mathlib.Core.Logic.{◌≢◌, inl, inr}
use certmon.Prelude.Tests.{if◌then◌else◌, Bool-cases}

module _ {ℓ} {A : Type ℓ} where
  abbrev pub length : List A → ℕ
  length [] = 0
  length (x ∷ xs) = suc (length xs)

  -- `SELECT … WHERE p`, first row
  unfoldable pub find : (A → Bool) → List A → Option A
  find p [] = none
  find p (x ∷ xs) = if p x then some x else find p xs

  -- `SELECT … WHERE p`
  unfoldable pub select : (A → Bool) → List A → List A
  select p [] = []
  select p (x ∷ xs) = let rest = select p xs in if p x then x ∷ rest else rest

  -- the `rowcount` of a statement with `WHERE p`
  unfoldable pub count : (A → Bool) → List A → ℕ
  count p [] = 0
  count p (x ∷ xs) = (if p x then 1 else 0) + count p xs

  -- `UPDATE … SET f WHERE p`
  unfoldable pub update : (A → Bool) → (A → A) → List A → List A
  update p f [] = []
  update p f (x ∷ xs) = (if p x then f x else x) ∷ update p f xs

  -- `DELETE … WHERE p`
  unfoldable pub delete : (A → Bool) → List A → List A
  delete p [] = []
  delete p (x ∷ xs) = let rest = delete p xs in if p x then rest else x ∷ rest

  unfoldable pub all : (A → Bool) → List A → Bool
  all p [] = true
  all p (x ∷ xs) = if p x then all p xs else false

  abbrev pub All {κ} : (A → Type κ) → List A → Type κ
  All P [] = Unit
  All P (x ∷ xs) = P x × All P xs

module _ {ℓ} {A : Type ℓ} (p : A → Bool) where
  pub count-append : (xs ys : List A) → count p (xs ++ ys) ≡ count p xs + count p ys
  unfolding count
  count-append [] ys = omega arith
  count-append (x ∷ xs) ys = omega (arith, count-append xs ys)

  pub find-eq-none_of_count : (xs : List A) → count p xs ≡ 0 → find p xs ≡ none
  unfolding count find
  find-eq-none_of_count [] h = refl
  find-eq-none_of_count (x ∷ xs) h = ground (arith, find-eq-none_of_count xs)

  pub count-delete_self : (xs : List A) → count p (delete p xs) ≡ 0
  unfolding count delete
  count-delete_self [] = refl
  count-delete_self (x ∷ xs) = ground (arith, count-delete_self xs)

  -- A row that was found passes the test.
  pub find_passes : (xs : List A) (a : A) → find p xs ≡ some a → p a ≡ true
  unfolding find
  find_passes [] a h = cc
  find_passes (x ∷ xs) a h = ground (arith, find_passes xs a)

  pub find-append : (xs ys : List A) {a : A} → find p xs ≡ some a → find p (xs ++ ys) ≡ some a
  unfolding find
  find-append [] ys {a} h = cc
  find-append (x ∷ xs) ys {a} h = ground (arith, find-append xs ys {a = a})

  pub find-append_none : (xs ys : List A) → find p xs ≡ none → find p (xs ++ ys) ≡ find p ys
  unfolding find
  find-append_none [] ys h = refl
  find-append_none (x ∷ xs) ys h = ground (arith, find-append_none xs ys)

-- `ORDER BY`: a stable sort by insertion; `before a b` says that `a` may stand before `b`.
module _ {ℓ} {A : Type ℓ} (before : A → A → Bool) where
  unfoldable pub insert_ordered : A → List A → List A
  insert_ordered a [] = a ∷ []
  insert_ordered a (x ∷ xs) = if before a x then a ∷ x ∷ xs else x ∷ insert_ordered a xs

  unfoldable pub order_by : List A → List A
  unfolding insert_ordered
  order_by [] = []
  order_by (x ∷ xs) = insert_ordered x (order_by xs)

-- a test as the number that it adds to a count
abbrev pub bit : Bool → ℕ
bit b = if b then 1 else 0

module _ {ℓ} {A : Type ℓ} where
  -- An update that keeps what `p` tests keeps its count.
  pub count-update_same :
      (p q : A → Bool) (f : A → A)
      → ((x : A) → p (f x) ≡ p x)
      → (xs : List A) → count p (update q f xs) ≡ count p xs
  unfolding count update
  count-update_same p q f same [] = refl
  count-update_same p q f same (x ∷ xs) = ground (arith, same x, count-update_same p q f same xs)

  update_none :
      (p q : A → Bool) (f : A → A) (xs : List A)
      → count q xs ≡ 0
      → count p (update q f xs) ≡ count p xs
  unfolding count update
  update_none p q f [] h = refl
  update_none p q f (x ∷ xs) h = ground (arith, update_none p q f xs)

  -- The update of one row replaces that row's part of a count.
  pub count-update_found :
      (p q : A → Bool) (f : A → A) (xs : List A) (a : A)
      → count q xs ≡ 1
      → find q xs ≡ some a
      → count p (update q f xs) + bit (p a) ≡ count p xs + bit (p (f a))
  unfolding count update find
  count-update_found p q f [] a h e = cc
  count-update_found p q f (x ∷ xs) a h e = elim (Bool-cases (q x)) [
    | inl same ↦ ground (arith, update_none p q f xs)
    | inr other ↦ ground (arith, count-update_found p q f xs a)
  ]

  pub count-pos_of_find : (p : A → Bool) (xs : List A) (a : A) → find p xs ≡ some a → 0 < count p xs
  unfolding count find
  count-pos_of_find p [] a e = cc
  count-pos_of_find p (x ∷ xs) a e = ground (arith, count-pos_of_find p xs a)

  -- Tests that agree count the same.
  pub count_congr :
      (p q : A → Bool) → ((x : A) → p x ≡ q x) → (xs : List A) → count p xs ≡ count q xs
  unfolding count
  count_congr p q same [] = refl
  count_congr p q same (x ∷ xs) = ground (arith, same x, count_congr p q same xs)

  -- The rows that pass `p` are those that also fail `q` and those that also pass it.
  pub count_split :
      (p q : A → Bool) (xs : List A)
      → count p xs ≡ count (λ x. p x && not (q x)) xs + count (λ x. p x && q x) xs
  unfolding count
  count_split p q [] = refl
  count_split p q (x ∷ xs) = ground (arith, count_split p q xs)

  count-and_zero : (p q : A → Bool) (xs : List A) → count q xs ≡ 0 → count (λ x. p x && q x) xs ≡ 0
  unfolding count
  count-and_zero p q [] h = refl
  count-and_zero p q (x ∷ xs) h = ground (arith, count-and_zero p q xs)

  pub count-and_found :
      (p q : A → Bool) (xs : List A) (a : A)
      → count q xs ≡ 1
      → find q xs ≡ some a
      → count (λ x. p x && q x) xs ≡ bit (p a)
  unfolding count find
  count-and_found p q [] a h e = cc
  count-and_found p q (x ∷ xs) a h e = elim (Bool-cases (q x)) [
    | inl same ↦ ground (arith, count-and_zero p q xs)
    | inr other ↦ ground (arith, count-and_found p q xs a)
  ]

  -- A test that no row passes fails on every row that is found.
  pub not_of_count :
      (p q : A → Bool) (xs : List A) (a : A) → count p xs ≡ 0 → find q xs ≡ some a → p a ≡ false
  unfolding count find
  not_of_count p q [] a h e = cc
  not_of_count p q (x ∷ xs) a h e = ground (arith, not_of_count p q xs a)

  -- An update that keeps what `p` tests is seen in the row that `p` finds.
  pub find-update :
      (p q : A → Bool) (f : A → A)
      → ((x : A) → p (f x) ≡ p x)
      → (xs : List A)
      → find p (update q f xs) ≡ Option.map (λ x. if q x then f x else x) (find p xs)
  unfolding find update
  find-update p q f same [] = refl
  find-update p q f same (x ∷ xs) = ground (arith, same x, find-update p q f same xs)

  pub find-delete_self : (p : A → Bool) (xs : List A) → find p (delete p xs) ≡ none
  find-delete_self p xs = find-eq-none_of_count p (delete p xs) (count-delete_self p xs)

  pub select-append :
      (p : A → Bool) (xs ys : List A) → select p (xs ++ ys) ≡ select p xs ++ select p ys
  unfolding select
  select-append p [] ys = refl
  select-append p (x ∷ xs) ys = ground (arith, select-append p xs ys)

  pub select-delete_self : (p : A → Bool) (xs : List A) → select p (delete p xs) ≡ []
  unfolding select delete
  select-delete_self p [] = refl
  select-delete_self p (x ∷ xs) = ground (arith, select-delete_self p xs)

  -- The deletion of rows that `p` does not pass is not seen by `p`.
  pub select-delete_other :
      (p q : A → Bool)
      → ((x : A) → q x ≡ true → p x ≡ false)
      → (xs : List A) → select p (delete q xs) ≡ select p xs
  unfolding select delete
  select-delete_other p q apart [] = refl
  select-delete_other p q apart (x ∷ xs) = ground (arith, apart x, select-delete_other p q apart xs)

  pub find-delete_other :
      (p q : A → Bool)
      → ((x : A) → q x ≡ true → p x ≡ false)
      → (xs : List A) → find p (delete q xs) ≡ find p xs
  unfolding find delete
  find-delete_other p q apart [] = refl
  find-delete_other p q apart (x ∷ xs) = ground (arith, apart x, find-delete_other p q apart xs)

  pub count-delete-le : (p q : A → Bool) (xs : List A) → count p (delete q xs) ≤ count p xs
  unfolding count delete
  count-delete-le p q [] = omega arith
  count-delete-le p q (x ∷ xs) = ground (arith, count-delete-le p q xs)

  pub count-le :
      (p q : A → Bool)
      → ((x : A) → p x ≡ true → q x ≡ true)
      → (xs : List A) → count p xs ≤ count q xs
  unfolding count
  count-le p q implies [] = omega arith
  count-le p q implies (x ∷ xs) = ground (arith, implies x, count-le p q implies xs)

-- Where `p` is unique, `q` and `r` pass only rows of `p`, and an updated row fails `r`, no row
-- passes `r` after the update of the row of `q`.
module _ {ℓ} {A : Type ℓ} (p q r : A → Bool) (f : A → A) (q_in : (x : A) → q x ≡ true → p x ≡ true)
    (r_in : (x : A) → r x ≡ true → p x ≡ true)
    (stale : (x : A) → q x ≡ true → r (f x) ≡ false) where
  pub count-update_stale :
      (xs : List A) → count p xs ≤ 1 → count q xs ≡ 1 → count r (update q f xs) ≡ 0
  unfolding count update
  count-update_stale [] u h = refl
  count-update_stale (x ∷ xs) u h = elim (Bool-cases (q x)) [
    | inl e ↦ ground (
      arith,
      q_in x e,
      stale x e,
      update_none r q f xs,
      count-le q p q_in xs,
      count-le r p r_in xs,
    )
    | inr e ↦ ground (arith, r_in x, count-le q p q_in xs, count-update_stale xs)
  ]

-- Where `p` is unique and `q` passes exactly one row, which `p` passes too, `q` passes the row that
-- `p` finds.
module _ {ℓ} {A : Type ℓ} (p q : A → Bool) (q_in : (x : A) → q x ≡ true → p x ≡ true) where
  pub unique_found :
      (xs : List A) (a : A) → count p xs ≤ 1 → count q xs ≡ 1 → find p xs ≡ some a → q a ≡ true
  unfolding count find
  unique_found [] a u h e = cc
  unique_found (x ∷ xs) a u h e = ground (arith, q_in x, count-le q p q_in xs, unique_found xs a)

  -- and `p` finds a row
  pub found_of_count : (xs : List A) → count q xs ≡ 1 → find p xs ≢ none
  unfolding count find
  found_of_count [] h e = omega arith
  found_of_count (x ∷ xs) h e = ground (arith, q_in x, found_of_count xs)
