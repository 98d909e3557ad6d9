-- ===== src/Kernel/Attentions/Claimed.antt =====
-- packages/kernel/src/attentions.ts: what a claim of an Attention leaves behind.
use torsor.Prelude.{
  ℕ, ◌+◌, String, ◌≡◌, refl, ◌∙◌, Bool, true, false, Option, none, some, List, [], ◌∷◌, ◌++◌, All,
  inl, inr, arith, Bool-cases, str_eq, eq_iff, first_row, update_rows,
}
use torsor.Kernel.Action.{pure}
use torsor.Kernel.Action.Triples.{
  Triple, Triple-gets, Triple-or_throw, Triple-check, Triple-modify, Triple-bind, Triple-next,
  Triple-weaken, Triple-if,
}
use torsor.Kernel.Rows.{Attention, DomainFence, Activation, Principal}
use torsor.Kernel.Results.{CommandResult, bare_result}
use torsor.Kernel.ReadOnly.{Any}
use torsor.Kernel.Activations.Validity.{require_attention}
use torsor.Kernel.Runs.Ended.{first_row-test}
use torsor.Kernel.Attentions.Rows.{is_attention}
use torsor.Kernel.Attentions.Domains.{
  has_attention_id, is_domain_of, take_fence, new_fence, supersede_previous, supersede_other,
  take_over, claim_domain_of, unlease,
}
use torsor.Kernel.Attentions.Commands.{is_unrevoked_of, lease_handler}
use torsor.Kernel.Attentions.Frames.{On, Frame-check, Frame-pure}
use torsor.Kernel.Attentions.Steps.{Change-attention, Change-activations}
use torsor.Kernel.Attentions.Owned.{taken, added, is_domain_of-new}
use torsor.Kernel.Attentions.Stages.{Rows}

-- A fence that names the Attention is that of its domain.
abbrev pub Placed : Attention → List DomainFence → Type 0
Placed a t = All (λ f. has_attention_id a.id f ≡ true → is_domain_of a f ≡ true) t

abbrev pub told_result : Attention → String → ℕ → CommandResult
told_result a token expires = record (bare_result a.id) {
  revision = some (a.revision + 1);
  lease_expires_at = some expires;
  handler_lease_token = some token;
}

-- The row of the Attention, once it is leased.
abbrev pub leased_row : Attention → Principal → String → ℕ → Attention
leased_row a p token expires = lease_handler p.id token expires (a.revision + 1) a

-- The Attention is stored with the lease, the result tells it, the fence of the Attention's domain
-- holds the same lease, and no Activation for the Attention is left without a revocation.
pub record Claims (a : Attention) (p : Principal) (token : String) (expires : ℕ) (r : CommandResult)
    (attentions : List Attention) (fences : List DomainFence) (activations : List Activation)
    : Type 0 where
  pub answer : r ≡ told_result a token expires
  pub stored : first_row (is_attention a.id) attentions ≡ some (leased_row a p token expires)
  pub placed : Placed a fences
  pub fenced : first_row (is_domain_of a) fences ≡ some (new_fence a token expires)
  pub revoked : All (λ x. is_unrevoked_of a.id x ≡ false) activations

first_row-other :
    {A : Type 0} (p test : A → Bool) (f : A → A)
    → ((x : A) → p x ≡ true → test x ≡ false)
    → ((x : A) → test (f x) ≡ test x)
    → (xs : List A) → first_row test (update_rows p f xs) ≡ first_row test xs
unfolding first_row update_rows
first_row-other p test f k l [] = refl
first_row-other p test f k l (x ∷ xs) = elim (Bool-cases (p x)) [
  | inl e ↦ rw (e, l x, k x e) (first_row-other p test f k l xs)
  | inr e ↦ rw (e, first_row-other p test f k l xs) refl
]

Placed-append :
    (a : Attention) (t : List DomainFence) (f : DomainFence)
    → Placed a t
    → is_domain_of a f ≡ true
    → Placed a (t ++ f ∷ [])
Placed-append a [] f h k = (λ _. k, tt)
Placed-append a (x ∷ xs) f h k = (h.0, Placed-append a xs f h.1 k)

Placed-take :
    (a : Attention) (token : String) (e : ℕ) (t : List DomainFence)
    → Placed a t
    → Placed a (update_rows (is_domain_of a) (take_fence a.id token e) t)
unfolding update_rows
Placed-take a token e [] h = tt
Placed-take a token e (f ∷ t) h = elim (Bool-cases (is_domain_of a f)) [
  | inl b ↦ rw b (λ _. b, Placed-take a token e t h.1)
  | inr b ↦ rw b (h.0, Placed-take a token e t h.1)
]

-- two different texts
apart : (x y z : String) → str_eq y z ≡ false → str_eq x y ≡ true → str_eq x z ≡ false
apart x y z h k = elim (Bool-cases (str_eq x z)) [ inl e ↦ absurd (clash e) | inr e ↦ e ]
  where
    clash : str_eq x z ≡ true → ⊥
    clash e = ground (arith, eq_iff x y, eq_iff x z, eq_iff y z, h, k)

module _ (a : Attention) (token : String) (expires at : ℕ) where
  abbrev pub Ready : Rows
  Ready attentions fences activations runs limits =
      (first_row (is_attention a.id) attentions ≡ some a) × Placed a fences

  abbrev pub Held : Rows
  Held attentions fences activations runs limits =
      (first_row (is_attention a.id) attentions ≡ some a)
      × Placed a fences
      × (first_row (is_domain_of a) fences ≡ some (new_fence a token expires))

  -- what the supersession must keep: Ready, and the fence that was found
  abbrev Still : DomainFence → Rows
  Still f attentions fences activations runs limits =
      Ready attentions fences activations runs limits × (first_row (is_domain_of a) fences ≡ some f)

  previous-Triple :
      (f : DomainFence)
      → str_eq f.attention_id a.id ≡ false
      → Triple Any (On (Still f)) (supersede_previous f at) (λ _. On (Still f))
  unfolding supersede_previous require_attention
  previous-Triple f other =
      Triple-next
        (Triple-bind _ _ (Triple-gets (λ w. first_row (is_attention f.attention_id) w.attentions))
          λ found.
            Triple-weaken (λ s h. h) (Triple-or_throw found _ (λ s h. tt))
              λ x s h.
                (h.0.0, first_row-test (is_attention f.attention_id) s.attentions x (h.0.1 ∙ h.1)))
        λ previous same. Triple-bind _ _ (Frame-check (Still f) _ _) λ _.
          Triple-bind _ _
            (Change-attention (Still f) (Still f) previous.id _ λ s h. (
              (
                first_row-other (is_attention previous.id) (is_attention a.id)
                      (unlease (previous.revision + 1))
                      (λ x e.
                        apart x.id previous.id a.id
                          (apart previous.id f.attention_id a.id other same) e)
                      (λ x. refl) s.attentions
                    ∙ h.0.0,
                h.0.1,
              ),
              h.1,
            ))
            λ _.
              Triple-bind _ _ (Change-activations (Still f) (Still f) _ _ (λ s h. h))
                λ changed. Frame-pure (Still f) _

  other-Triple :
      (f : DomainFence) → Triple Any (On (Still f)) (supersede_other f a at) (λ _. On (Still f))
  unfolding supersede_other
  other-Triple f =
      Triple-if (str_eq f.attention_id a.id) (pure none) _ (λ _. Frame-pure (Still f) none)
        (λ e. Triple-bind _ _ (previous-Triple f e) λ s. Frame-pure (Still f) (some s))

  pub claim_of-Triple :
      (x : Option DomainFence)
      → Triple Any
          (λ s. On Ready s × (first_row (is_domain_of a) s.fences ≡ x))
          (claim_domain_of x a token expires at)
          (λ _. On Held)
  unfolding claim_domain_of take_over
  claim_of-Triple none =
      Triple-bind _ _
        (Triple-modify _ {Q = λ _. On Held} λ s h. (
          h.0.0,
          Placed-append a s.fences (new_fence a token expires) h.0.1
              (is_domain_of-new a token expires),
          (added a token expires at s.fences h.1).held,
        ))
        λ _. Frame-pure Held none
  claim_of-Triple (some f) = Triple-next (Triple-check _ _ (λ s h. tt)) λ _ free.
      Triple-bind _ _ (other-Triple f) λ superseded.
        Triple-bind _ _
          (Triple-modify _ {Q = λ _. On Held} λ s h. (
            h.0.0,
            Placed-take a token expires s.fences h.0.1,
            (taken a token expires at s.fences f h.1 free).held,
          ))
          λ _. Frame-pure Held superseded
