-- ===== src/Kernel/Attentions/Owned.antt =====
-- packages/kernel/src/invariants.ts: what a claim of an execution domain does to its fence.
use torsor.Prelude.{
  ℕ, String, ◌≡◌, refl, sym, ap, ◌∙◌, Bool, true, false, not, Option, none, some, List, [], ◌∷◌,
  ◌++◌, inl, inr, eq_iff, eq_refl, first_row, where_rows, update_rows, Bool-cases, arith,
  if◌then◌else◌,
}
use torsor.Kernel.Action.{returned}
use torsor.Kernel.Action.Triples.{
  Triple, Triple-gets, Triple-modify, Triple-bind, Triple-weaken, Triple-returned, Triple-next,
  Triple-check, Triple-pure,
}
use torsor.Kernel.Rows.{Attention, DomainFence}
use torsor.Kernel.World.{World}
use torsor.Kernel.ReadOnly.{Any}
use torsor.Kernel.Runs.Ended.{first_row-test, first_row-update}
use torsor.Kernel.Attentions.Domains.{
  Superseded, is_domain_of, is_free, take_fence, new_fence, take_over, claim_domain_of,
  claim_attention_domain,
}
use torsor.Kernel.Attentions.Steps.{Fences, Step-supersede}
use torsor.Kernel.Attentions.Frames.{On}

-- The domain's fence is the claimed one, it was free, and the fences of other domains are as before.
pub record Owns (a : Attention) (token : String) (expires at : ℕ) (t t' : List DomainFence)
    : Type 0 where
  pub held : first_row (is_domain_of a) t' ≡ some (new_fence a token expires)
  pub free : (f : DomainFence) → first_row (is_domain_of a) t ≡ some f → is_free f at ≡ true
  pub others :
      where_rows (λ f. not (is_domain_of a f)) t' ≡ where_rows (λ f. not (is_domain_of a f)) t

pub first_row-append :
    {A : Type 0} (test : A → Bool) (xs : List A) (y : A)
    → first_row test xs ≡ none
    → first_row test (xs ++ y ∷ []) ≡ (if test y then some y else none)
unfolding first_row
first_row-append test [] y h = refl
first_row-append test (x ∷ xs) y h = elim (Bool-cases (test x)) [
  | inl e ↦ absurd (hit e)
  | inr e ↦ rw e (first_row-append test xs y (rest e))
]
  where
    hit : test x ≡ true → ⊥
    hit e = ground (arith, h)

    rest : test x ≡ false → first_row test xs ≡ none
    rest e = ground (arith, h)

pub where_rows-append :
    {A : Type 0} (test : A → Bool) (xs : List A) (y : A)
    → where_rows test (xs ++ y ∷ []) ≡ where_rows test xs ++ (if test y then y ∷ [] else [])
unfolding where_rows
where_rows-append test [] y = elim (Bool-cases (test y)) [ inl e ↦ rw e | inr e ↦ rw e ]
where_rows-append test (x ∷ xs) y = elim (Bool-cases (test x)) [
  | inl e ↦ rw e (ap (λ l. x ∷ l) (where_rows-append test xs y))
  | inr e ↦ rw e (where_rows-append test xs y)
]

pub append-nil : {A : Type 0} (xs : List A) → xs ++ [] ≡ xs
append-nil [] = refl
append-nil (x ∷ xs) = ap (λ l. x ∷ l) (append-nil xs)

-- an update of the rows that fail a test keeps the query for that test
pub where_rows-update :
    {A : Type 0} (test : A → Bool) (f : A → A)
    → ((x : A) → test (f x) ≡ test x)
    → (xs : List A)
    → where_rows (λ x. not (test x)) (update_rows test f xs) ≡ where_rows (λ x. not (test x)) xs
unfolding where_rows update_rows
where_rows-update test f k [] = refl
where_rows-update test f k (x ∷ xs) = elim (Bool-cases (test x)) [
  | inl e ↦ rw (e, k x, e) (where_rows-update test f k xs)
  | inr e ↦ rw (e, e) (ap (λ l. x ∷ l) (where_rows-update test f k xs))
]

pub is_domain_of-new :
    (a : Attention) (token : String) (e : ℕ) → is_domain_of a (new_fence a token e) ≡ true
is_domain_of-new a token e = simp (
  eq_refl a.target_agent_id,
  eq_refl a.project_id,
  eq_refl a.channel_id,
  eq_refl a.thread_root_id,
)

take_fence-new :
    (a : Attention) (token : String) (e : ℕ) (f : DomainFence)
    → is_domain_of a f ≡ true
    → take_fence a.id token e f ≡ new_fence a token e
take_fence-new a token e f h = ground (
  arith,
  h,
  eq_iff f.agent_id a.target_agent_id,
  eq_iff f.project_id a.project_id,
  eq_iff f.channel_id a.channel_id,
  eq_iff f.thread_root_id a.thread_root_id,
)

module _ (a : Attention) (token : String) (expires at : ℕ) (t : List DomainFence) where
  abbrev Untouched : List DomainFence → Type 0
  Untouched fences = fences ≡ t

  same : (f g : DomainFence) → some f ≡ some g → is_free f at ≡ true → is_free g at ≡ true
  same f g e h = cc

  pub taken :
      (f : DomainFence)
      → first_row (is_domain_of a) t ≡ some f
      → is_free f at ≡ true
      → Owns a token expires at t (update_rows (is_domain_of a) (take_fence a.id token expires) t)
  taken f found free = record {
    held =
        first_row-update (is_domain_of a) (take_fence a.id token expires) (λ x. refl) t f found
        ∙ ap some (take_fence-new a token expires f (first_row-test (is_domain_of a) t f found));
    free = λ g h. same f g (sym found ∙ h) free;
    others = where_rows-update (is_domain_of a) (take_fence a.id token expires) (λ x. refl) t;
  }

  pub added :
      first_row (is_domain_of a) t ≡ none
      → Owns a token expires at t (t ++ new_fence a token expires ∷ [])
  added absent = record {
    held =
        first_row-append (is_domain_of a) t (new_fence a token expires) absent
        ∙ rw (is_domain_of-new a token expires) refl;
    free = λ g h. cc;
    others =
        where_rows-append (λ f. not (is_domain_of a f)) t (new_fence a token expires)
        ∙ rw (is_domain_of-new a token expires) (append-nil _);
  }

  claim_of-Triple :
      (x : Option DomainFence)
      → first_row (is_domain_of a) t ≡ x
      → Triple Any
          (On (Fences Untouched))
          (claim_domain_of x a token expires at)
          (λ _ s. Owns a token expires at t s.fences)
  unfolding claim_domain_of take_over
  claim_of-Triple none h =
      Triple-bind _ _
        (Triple-modify _ {Q = λ _ s. Owns a token expires at t s.fences} (λ s e. rw e (added h)))
        λ _. Triple-weaken (λ s h. h) (Triple-pure _) (λ r s h. h.0)
  claim_of-Triple (some f) h = Triple-next (Triple-check _ _ (λ s h. tt)) λ _ free.
      Triple-bind _ _ (Step-supersede Untouched f a at) λ superseded.
        Triple-bind _ _
          (Triple-modify _ {Q = λ _ s. Owns a token expires at t s.fences}
            (λ s e. rw e (taken f h free)))
          λ _. Triple-weaken (λ s h. h) (Triple-pure _) (λ r s h. h.0)

  pub claim-Triple :
      Triple Any
        (On (Fences Untouched))
        (claim_attention_domain a token expires at)
        (λ _ s. Owns a token expires at t s.fences)
  unfolding claim_attention_domain
  claim-Triple =
      Triple-next
        (Triple-weaken (λ s h. h) (Triple-gets (λ w. first_row (is_domain_of a) w.fences))
          λ x s h. (h.0, ap (first_row (is_domain_of a)) (sym h.0) ∙ h.1))
        λ x h. claim_of-Triple x h

-- A claim of the execution domain of an Attention, where it returns, found no fence of the domain or
-- one with no live lease and no unsettled provider attempt; the fence that is then found for the
-- domain is the Attention's, with the new token and expiry and no unsettled attempt; and the fences
-- of all other domains are the same, in the same order.
pub claim_attention_domain-Owns :
    (a : Attention) (token : String) (expires at : ℕ) (w w' : World) (r : Option Superseded)
    → claim_attention_domain a token expires at w ≡ returned r w'
    → Owns a token expires at w.fences w'.fences
claim_attention_domain-Owns a token expires at w w' r h =
    Triple-returned (claim-Triple a token expires at w.fences) w refl h
