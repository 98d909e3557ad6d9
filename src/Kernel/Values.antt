-- ===== src/Kernel/Values.antt =====
-- packages/kernel/src/values.ts. A number of the program is a natural number here: the tests on
-- negative and fractional numbers have no counterpart.
use torsor.Prelude.{
  ℕ, String, true, false, not, ◌&&◌, List, [], ◌∷◌, leb, is_blank, str_eq, any_row,
}
use torsor.Kernel.Errors.{invalid_command, kernel_error}
use torsor.Kernel.Action.{Action, pure, check, ◌>>◌}

module _ {ℓ} {S : Type ℓ} where
  abbrev pub require_non_empty : String → Action S Unit
  require_non_empty value = check (not (is_blank value)) (kernel_error invalid_command)

module _ {S : Type 0} where
  abbrev pub bounded_limit : ℕ → Action S ℕ
  bounded_limit limit = do
    check (leb 1 limit && leb limit 500) (kernel_error invalid_command)
    pure limit

  abbrev pub bounded_duration : ℕ → Action S ℕ
  bounded_duration duration_ms = do
    check (leb 1000 duration_ms && leb duration_ms 300000) (kernel_error invalid_command)
    pure duration_ms

-- `new Set(values)` keeps the first occurrence of each value.
unique_from : List String → List String → List String
unfolding any_row
unique_from seen [] = []
unique_from seen (x ∷ xs) = elim (any_row (str_eq x) seen) [
  | true ↦ unique_from seen xs
  | false ↦ x ∷ unique_from (x ∷ seen) xs
]

unfoldable pub unique : List String → List String
unfolding unique_from
unique values = unique_from [] values
