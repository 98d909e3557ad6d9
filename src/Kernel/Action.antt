-- ===== src/Kernel/Action.antt =====
-- Statements that write to a state and may throw. What was written before a throw stays written
-- until the transaction is rolled back, so a throw carries the state too.
pub mod Triples
use torsor.Prelude.{Bool, true, false, Option, none, some, List, [], ◌∷◌}
use torsor.Kernel.Errors.{KernelError}

pub data Outcome {ℓ} (S A : Type ℓ) : Type ℓ where
  returned : A → S → Outcome S A
  thrown : KernelError → S → Outcome S A

abbrev pub Action {ℓ} : Type ℓ → Type ℓ → Type ℓ
Action S A = S → Outcome S A

module _ {ℓ} {S A : Type ℓ} where
  -- the state that an outcome leaves behind
  abbrev pub final : Outcome S A → S
  final (returned a s) = s
  final (thrown e s) = s

  unfoldable pub pure : A → Action S A
  pure a s = returned a s

  unfoldable pub throw : KernelError → Action S A
  throw e s = thrown e s

  unfoldable pub gets : (S → A) → Action S A
  gets f s = returned (f s) s

  unfoldable pub or_throw : Option A → KernelError → Action S A
  unfolding pure throw
  or_throw none e = throw e
  or_throw (some a) e = pure a

module _ {ℓ} {S : Type ℓ} where
  unfoldable pub modify : (S → S) → Action S Unit
  modify f s = returned tt (f s)

  -- if (!test) throw error
  unfoldable pub check : Bool → KernelError → Action S Unit
  unfolding pure throw
  check true e = pure tt
  check false e = throw e

module _ {ℓ} {S A B : Type ℓ} where
  infixl 10 ◌>>=◌ ◌>>◌
  -- opening this opens the statements above too
  unfoldable pub ◌>>=◌ : Action S A → (A → Action S B) → Action S B
  unfolding pure throw gets or_throw modify check
  ◌>>=◌ m f s = elim (m s) [ returned a s' ↦ f a s' | thrown e s' ↦ thrown e s' ]

  abbrev pub ◌>>◌ : Action S A → Action S B → Action S B
  m >> n = m >>= λ _. n

module _ {ℓ} {S A : Type ℓ} where
  -- try { body } catch (error) { handler(error) }; what the body has written stays written
  unfoldable pub catch : Action S A → (KernelError → Action S A) → Action S A
  catch body handler s = elim (body s) [
    | returned a s' ↦ returned a s'
    | thrown e s' ↦ handler e s'
  ]

-- for (const item of items) body(item)
module _ {ℓ} {S A : Type ℓ} where
  unfoldable pub for_each : (A → Action S Unit) → List A → Action S Unit
  unfolding ◌>>=◌
  for_each body [] = pure tt
  for_each body (x ∷ xs) = body x >> for_each body xs
