-- ===== src/Kernel/Action/Triples.antt =====
-- Hoare triples of actions: from a state with `P`, the action returns a value and a state with `Q`,
-- or it throws in a state with `E`. One rule for each way to build an action.
use torsor.Prelude.{
  ◌≡◌, refl, subst, ◌∙◌, Bool, true, false, Option, none, some, List, [], ◌∷◌, if◌then◌else◌,
}
use torsor.Kernel.Errors.{KernelError}
use torsor.Kernel.Action.{
  Action, Outcome, returned, thrown, final, pure, throw, gets, or_throw, modify, check, catch,
  ◌>>=◌, for_each,
}

abbrev pub Ends {ℓ} : {S A : Type ℓ} → (S → Type ℓ) → (A → S → Type ℓ) → Outcome S A → Type ℓ
Ends E Q (returned a s) = Q a s
Ends E Q (thrown e s) = E s

pub record Triple {ℓ} {S A : Type ℓ} (E P : S → Type ℓ) (m : Action S A) (Q : A → S → Type ℓ)
    : Type ℓ where
  pub at : (s : S) → P s → Ends E Q (m s)

module _ {ℓ} {S A : Type ℓ} {E P : S → Type ℓ} where
  pub Triple-pure : (a : A) → Triple E P (pure a) (λ b s. P s × (b ≡ a))
  unfolding pure
  Triple-pure a = record { at = λ s h. (h, refl) }

  pub Triple-throw :
      (e : KernelError) {Q : A → S → Type ℓ} → ((s : S) → P s → E s) → Triple E P (throw e) Q
  unfolding throw
  Triple-throw e k = record { at = k }

  pub Triple-gets : (f : S → A) → Triple E P (gets f) (λ a s. P s × (f s ≡ a))
  unfolding gets
  Triple-gets f = record { at = λ s h. (h, refl) }

  pub Triple-or_throw :
      (x : Option A) (e : KernelError)
      → ((s : S) → P s → E s)
      → Triple E P (or_throw x e) (λ a s. P s × (x ≡ some a))
  unfolding or_throw
  Triple-or_throw none e k = record { at = k }
  Triple-or_throw (some a) e k = record { at = λ s h. (h, refl) }

  pub Triple-weaken :
      {m : Action S A} {P' : S → Type ℓ} {Q Q' : A → S → Type ℓ}
      → ((s : S) → P' s → P s)
      → Triple E P m Q
      → ((a : A) (s : S) → Q a s → Q' a s)
      → Triple E P' m Q'
  Triple-weaken {m} {P'} {Q} {Q'} pre t post = record { at = λ s h. widen (m s) (t.at s (pre s h)) }
    where
      widen : (x : Outcome S A) → Ends E Q x → Ends E Q' x
      widen (returned a s) q = post a s q
      widen (thrown e s) q = q

  -- a fact that does not speak of the state stays true
  pub Triple-carry :
      {m : Action S A} {Q : A → S → Type ℓ} {F : Type ℓ}
      → Triple E P m Q
      → Triple E (λ s. P s × F) m (λ a s. Q a s × F)
  Triple-carry {m} {Q} {F} t = record { at = λ s h. kept (m s) h.1 (t.at s h.0) }
    where
      kept : (x : Outcome S A) → F → Ends E Q x → Ends E (λ a s. Q a s × F) x
      kept (returned a s) f q = (q, f)
      kept (thrown e s) f q = q

  -- a fact that holds in every state of the precondition
  pub Triple-assume :
      {m : Action S A} {Q : A → S → Type ℓ} {F : Type ℓ}
      → (F → Triple E P m Q)
      → Triple E (λ s. P s × F) m Q
  Triple-assume k = record { at = λ s h. (k h.1).at s h.0 }

  pub Triple-final :
      {m : Action S A} {Q : A → S → Type ℓ}
      → ((a : A) (s : S) → Q a s → E s)
      → Triple E P m Q
      → (s : S) → P s
      → E (final (m s))
  Triple-final {m} {Q} post t s h = last (m s) (t.at s h)
    where
      last : (x : Outcome S A) → Ends E Q x → E (final x)
      last (returned a s') q = post a s' q
      last (thrown e s') q = q

  pub Triple-returned :
      {m : Action S A} {Q : A → S → Type ℓ}
      → Triple E P m Q
      → (s : S) → P s
      → {a : A} {s' : S} → m s ≡ returned a s'
      → Q a s'
  Triple-returned {Q} t s h e = subst (Ends E Q) e (t.at s h)

module _ {ℓ} {S : Type ℓ} {E P : S → Type ℓ} where
  pub Triple-check :
      (b : Bool) (e : KernelError)
      → ((s : S) → P s → E s)
      → Triple E P (check b e) (λ _ s. P s × (b ≡ true))
  unfolding check
  Triple-check true e k = record { at = λ s h. (h, refl) }
  Triple-check false e k = record { at = k }

  pub Triple-modify :
      (f : S → S) {Q : Unit → S → Type ℓ} → ((s : S) → P s → Q tt (f s)) → Triple E P (modify f) Q
  unfolding modify
  Triple-modify f k = record { at = k }

module _ {ℓ} {S A B : Type ℓ} {E : S → Type ℓ} {Q : A → S → Type ℓ} {R : B → S → Type ℓ} where
  after_first :
      (f : A → Action S B)
      → ((a : A) → Triple E (Q a) (f a) R)
      → (x : Outcome S A) → Ends E Q x
      → Ends E R (elim x [ returned a s' ↦ f a s' | thrown e s' ↦ thrown e s' ])
  after_first f k (returned a s) q = (k a).at s q
  after_first f k (thrown e s) q = q

  pub Triple-bind :
      {P : S → Type ℓ} (m : Action S A) (f : A → Action S B)
      → Triple E P m Q
      → ((a : A) → Triple E (Q a) (f a) R)
      → Triple E P (m >>= f) R
  unfolding ◌>>=◌
  Triple-bind m f t k = record { at = λ s h. after_first f k (m s) (t.at s h) }

module _ {ℓ} {S A : Type ℓ} {E P : S → Type ℓ} {Q : A → S → Type ℓ} where
  pub Triple-if :
      (b : Bool) (m n : Action S A)
      → (b ≡ true → Triple E P m Q)
      → (b ≡ false → Triple E P n Q)
      → Triple E P (if b then m else n) Q
  Triple-if true m n km kn = km refl
  Triple-if false m n km kn = kn refl

module _ {ℓ} {S A : Type ℓ} {P : S → Type ℓ} where
  pub Triple-for_each :
      (body : A → Action S Unit) (xs : List A)
      → ((a : A) → Triple P P (body a) (λ _. P))
      → Triple P P (for_each body xs) (λ _. P)
  unfolding for_each pure
  Triple-for_each body [] k = record { at = λ s h. h }
  Triple-for_each body (x ∷ xs) k =
      Triple-bind (body x) (λ _. for_each body xs) (k x) (λ _. Triple-for_each body xs k)

-- a statement that keeps the state's condition and yields a fact about its value
module _ {ℓ} {S A B : Type ℓ} {E P : S → Type ℓ} {F : A → Type ℓ} {R : B → S → Type ℓ} where
  pub Triple-next :
      {m : Action S A} {f : A → Action S B}
      → Triple E P m (λ a s. P s × F a)
      → ((a : A) → F a → Triple E P (f a) R)
      → Triple E P (m >>= f) R
  Triple-next {m} {f} t k = Triple-bind m f t (λ a. Triple-assume (k a))

module _ {ℓ} {S A : Type ℓ} {D E P : S → Type ℓ} {Q : A → S → Type ℓ} where
  pub Triple-catch :
      (m : Action S A) (handler : KernelError → Action S A)
      → Triple D P m Q
      → ((e : KernelError) → Triple E D (handler e) Q)
      → Triple E P (catch m handler) Q
  unfolding catch
  Triple-catch m handler t k = record { at = λ s h. caught (m s) (t.at s h) }
    where
      caught :
          (x : Outcome S A)
          → Ends D Q x
          → Ends E Q (elim x [ returned a s' ↦ returned a s' | thrown e s' ↦ handler e s' ])
      caught (returned a s) q = q
      caught (thrown e s) q = (k e).at s q

module _ {ℓ} {S A : Type ℓ} {D E P : S → Type ℓ} {m : Action S A} {Q : A → S → Type ℓ} where
  -- less is said of a throw
  pub Triple-throws : ((s : S) → D s → E s) → Triple D P m Q → Triple E P m Q
  Triple-throws k t = record { at = λ s h. widen (m s) (t.at s h) }
    where
      widen : (x : Outcome S A) → Ends D Q x → Ends E Q x
      widen (returned a s) q = q
      widen (thrown e s) q = k s q

module _ {ℓ} {S A : Type ℓ} {E P : S → Type ℓ} where
  -- a loop whose rounds keep a condition, and of whose throws less is said
  pub Triple-loop :
      (body : A → Action S Unit) (xs : List A)
      → ((a : A) → Triple E P (body a) (λ _. P))
      → Triple E P (for_each body xs) (λ _. P)
  unfolding for_each pure
  Triple-loop body [] k = record { at = λ s h. h }
  Triple-loop body (x ∷ xs) k =
      Triple-bind (body x) (λ _. for_each body xs) (k x) (λ _. Triple-loop body xs k)

-- a query that must find something
pub Triple-find :
    {S A : Type 0} {P : S → Type 0} (f : S → Option A) (e : KernelError)
    → Triple (λ _. Unit {0}) P (gets f >>= λ found. or_throw found e) (λ a s. P s × (f s ≡ some a))
Triple-find f e = Triple-bind _ _ (Triple-gets f) λ found.
    Triple-weaken (λ s h. h) (Triple-or_throw found e (λ s h. tt)) (λ a s h. (h.0.0, h.0.1 ∙ h.1))
