-- ===== src/Prelude/Lists.antt =====
-- Lists measured by native numbers, and the queries and updates of a table kept as a list.
use Prim.Native.Nat.{ℕ, zero, suc}
use mathlib.Core.Bool.{Bool, true, false, ◌&&◌, ◌||◌}
use mathlib.Core.Option.{Option, none, some}
use mathlib.Core.List.{List, [], ◌∷◌}
use torsor.Prelude.Tests.{if◌then◌else◌}

module _ {ℓ} {A : Type ℓ} where
  abbrev pub length : List A → ℕ
  length [] = 0
  length (x ∷ xs) = suc (length xs)

  abbrev pub take : ℕ → List A → List A
  take zero xs = []
  take (suc n) [] = []
  take (suc n) (x ∷ xs) = x ∷ take n xs

  abbrev pub drop : ℕ → List A → List A
  drop zero xs = xs
  drop (suc n) [] = []
  drop (suc n) (x ∷ xs) = drop n xs

  -- SELECT * ... WHERE test
  unfoldable pub where_rows : (A → Bool) → List A → List A
  where_rows test [] = []
  where_rows test (x ∷ xs) = let rest = where_rows test xs in if test x then x ∷ rest else rest

  -- the row that getRow gives: the first that passes the test
  unfoldable pub first_row : (A → Bool) → List A → Option A
  first_row test [] = none
  first_row test (x ∷ xs) = if test x then some x else first_row test xs

  -- UPDATE ... WHERE test
  unfoldable pub update_rows : (A → Bool) → (A → A) → List A → List A
  update_rows test f [] = []
  update_rows test f (x ∷ xs) = (if test x then f x else x) ∷ update_rows test f xs

  unfoldable pub any_row : (A → Bool) → List A → Bool
  any_row test [] = false
  any_row test (x ∷ xs) = test x || any_row test xs

  unfoldable pub all_rows : (A → Bool) → List A → Bool
  all_rows test [] = true
  all_rows test (x ∷ xs) = test x && all_rows test xs

  abbrev pub All {κ} : (A → Type κ) → List A → Type κ
  All P [] = Unit
  All P (x ∷ xs) = P x × All P xs
