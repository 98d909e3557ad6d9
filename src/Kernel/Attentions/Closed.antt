-- ===== src/Kernel/Attentions/Closed.antt =====
-- packages/kernel/src/attentions.ts: what a decision on an Attention leaves behind, statement by
-- statement.
use torsor.Prelude.{
  ℕ, ◌+◌, String, ◌≡◌, refl, Bool, true, false, not, ◌&&◌, Option, none, some, List, [], ◌∷◌, All,
  inl, inr, Bool-cases, is_none, first_row, where_rows, update_rows,
}
use torsor.Kernel.Action.Triples.{Triple, Triple-modify, Triple-bind}
use torsor.Kernel.Rows.{
  Attention, AttentionStatus, DomainFence, Activation, Principal, outcome_completed,
}
use torsor.Kernel.ReadOnly.{Any}
use torsor.Kernel.Runs.Ended.{first_row-update, and_false}
use torsor.Kernel.Activations.Actors.{named_activation}
use torsor.Kernel.Attentions.Rows.{is_attention, is_for_attention}
use torsor.Kernel.Attentions.Domains.{
  has_attention_id, drop_fence_lease, is_settled_of, release_attention_domain_lease,
}
use torsor.Kernel.Attentions.Decisions.{
  Decider, is_activation, finish_for, resolve_attention, finish_attention_activation,
  close_attention,
}
use torsor.Kernel.Attentions.Frames.{On, Frame-pure}
use torsor.Kernel.Attentions.Steps.{Change-attention, Change-activations}
use torsor.Kernel.Attentions.Stages.{Rows}

abbrev pub is_leased_for : String → DomainFence → Bool
is_leased_for id f = has_attention_id id f && not (is_none f.lease_token)

abbrev pub is_running : String → Activation → Bool
is_running id a = is_activation id a && is_none a.finished_at

-- The row of the Activation, which is for the Attention, has finished.
abbrev pub Finished : String → String → List Activation → Type 0
Finished activation id activations =
    (b : Activation) × ((first_row (is_activation activation) activations ≡ some b)
      × (is_none b.finished_at ≡ false)
      × (b.outcome ≡ some outcome_completed)
      × (is_for_attention b id ≡ true))

-- The Attention is stored with the decision and without a handler lease; no fence holds a lease for
-- it, and one that still names it waits for a provider attempt; the Activation that the context names
-- is for the Attention and has finished.
pub record Decided (context : Option String) (id : String) (status : AttentionStatus)
    (attentions : List Attention) (fences : List DomainFence) (activations : List Activation)
    : Type 0 where
  pub attention : Attention
  pub activation : String
  pub stored : first_row (is_attention id) attentions ≡ some attention
  pub decided : attention.status ≡ status
  pub acting : named_activation context ≡ some activation
  pub by : attention.resolved_activation_id ≡ some activation
  pub unleased :
      (attention.handler_lease_token ≡ none) × (attention.handler_lease_expires_at ≡ none)
  pub released : All (λ f. is_leased_for id f ≡ false) fences
  pub unsettled : All (λ f. is_settled_of id f ≡ false) fences
  pub finished : Finished activation id activations
  pub ended : All (λ a. is_running activation a ≡ false) activations

update_rows-All :
    {A : Type 0} (p test : A → Bool) (f : A → A)
    → ((x : A) → p x ≡ true → test (f x) ≡ false)
    → ((x : A) → p x ≡ false → test x ≡ false)
    → (xs : List A) → All (λ x. test x ≡ false) (update_rows p f xs)
unfolding update_rows
update_rows-All p test f k l [] = tt
update_rows-All p test f k l (x ∷ xs) = elim (Bool-cases (p x)) [
  | inl e ↦ rw e (k x e, update_rows-All p test f k l xs)
  | inr e ↦ rw e (l x e, update_rows-All p test f k l xs)
]

where_rows-All :
    {A : Type 0} (p : A → Bool) (P : A → Type 0) (xs : List A) → All P xs → All P (where_rows p xs)
unfolding where_rows
where_rows-All p P [] h = tt
where_rows-All p P (x ∷ xs) h = elim (Bool-cases (p x)) [
  | inl e ↦ rw e (h.0, where_rows-All p P xs h.1)
  | inr e ↦ rw e (where_rows-All p P xs h.1)
]

where_rows-fails :
    {A : Type 0} (p : A → Bool) (xs : List A)
    → All (λ x. p x ≡ false) (where_rows (λ x. not (p x)) xs)
unfolding where_rows
where_rows-fails p [] = tt
where_rows-fails p (x ∷ xs) = elim (Bool-cases (p x)) [
  | inl e ↦ rw e (where_rows-fails p xs)
  | inr e ↦ rw e (e, where_rows-fails p xs)
]

false_and : (a b : Bool) → a ≡ false → (a && b) ≡ false
false_and a b e = rw e refl

module _ (id : String) (context : Option String) (d : Decider) where
  -- the Attention under decision, and the Activation that the context names
  abbrev Pending : Rows
  Pending attentions fences activations runs limits =
      (first_row (is_attention d.attention.id) attentions ≡ some d.attention)
      × (d.attention.id ≡ id)
      × (named_activation context ≡ some d.activation.id)

  abbrev pub Found : Rows
  Found attentions fences activations runs limits =
      Pending attentions fences activations runs limits
      × (first_row (is_activation d.activation.id) activations ≡ some d.activation)
      × (is_for_attention d.activation d.attention.id ≡ true)

  abbrev pub Done : Rows
  Done attentions fences activations runs limits =
      Pending attentions fences activations runs limits
      × Finished d.activation.id d.attention.id activations
      × All (λ a. is_running d.activation.id a ≡ false) activations

  pub finish-Triple :
      (at : ℕ) (reason : String)
      → Triple Any (On Found) (finish_attention_activation d.activation.id at reason) (λ _. On Done)
  unfolding finish_attention_activation
  finish-Triple at reason =
      Triple-bind _ _
        (Change-activations Found Done (is_activation d.activation.id) (finish_for at reason) λ s h.
          (
            h.0,
            (
              finish_for at reason d.activation,
              (
                first_row-update (is_activation d.activation.id) (finish_for at reason) (λ x. refl)
                    s.activations d.activation h.1,
                refl,
                refl,
                h.2,
              ),
            ),
            update_rows-All (is_activation d.activation.id) (is_running d.activation.id)
                (finish_for at reason) (λ a e. and_false (is_activation d.activation.id a))
                (λ a e. false_and (is_activation d.activation.id a) (is_none a.finished_at) e)
                s.activations,
          ))
        λ changed. Frame-pure Done tt

  module _ (status : AttentionStatus) where
    abbrev Closing : Rows
    Closing attentions fences activations runs limits =
        ((d.attention.id ≡ id) × (named_activation context ≡ some d.activation.id))
        × ((a : Attention) × ((first_row (is_attention d.attention.id) attentions ≡ some a)
              × (a.status ≡ status)
              × (a.resolved_activation_id ≡ some d.activation.id)
              × ((a.handler_lease_token ≡ none) × (a.handler_lease_expires_at ≡ none))
              × Finished d.activation.id d.attention.id activations
              × All (λ a. is_running d.activation.id a ≡ false) activations))

    abbrev Released : Rows
    Released attentions fences activations runs limits =
        Closing attentions fences activations runs limits
        × All (λ f. is_leased_for d.attention.id f ≡ false) fences

    abbrev pub Final : Rows
    Final attentions fences activations runs limits =
        (d.attention.id ≡ id) × Decided context d.attention.id status attentions fences activations

    pub close-Triple :
        (outcome : String) (run_id : Option String) (p : Principal) (at : ℕ)
        → Triple Any (On Done) (close_attention d status outcome run_id p at) (λ _. On Final)
    unfolding close_attention release_attention_domain_lease
    close-Triple outcome run_id p at =
        let f : Attention → Attention =
          resolve_attention status outcome p.id d.activation.id run_id (d.attention.revision + 1)
            at in
        Triple-bind _ _
          (Change-attention Done Closing d.attention.id f λ s h. (
            (h.0.1, h.0.2),
            (
              f d.attention,
              (
                first_row-update (is_attention d.attention.id) f (λ x. refl) s.attentions
                    d.attention h.0.0,
                refl,
                refl,
                (refl, refl),
                h.1,
                h.2,
              ),
            ),
          ))
          λ _.
            Triple-bind _ _
              (Triple-modify _ {Q = λ _. On Released} λ s h. (
                h,
                update_rows-All (has_attention_id d.attention.id) (is_leased_for d.attention.id)
                    drop_fence_lease (λ g e. and_false (has_attention_id d.attention.id g))
                    (λ g e.
                      false_and (has_attention_id d.attention.id g) (not (is_none g.lease_token)) e)
                    s.fences,
              ))
              λ _. Triple-modify _ {Q = λ _. On Final} λ s h. (
                h.0.0.0,
                record {
                  attention = h.0.1.0;
                  activation = d.activation.id;
                  stored = h.0.1.1.0;
                  decided = h.0.1.1.1;
                  acting = h.0.0.1;
                  by = h.0.1.1.2;
                  unleased = h.0.1.1.3;
                  released =
                      where_rows-All (λ g. not (is_settled_of d.attention.id g))
                        (λ g. is_leased_for d.attention.id g ≡ false) s.fences h.1;
                  unsettled = where_rows-fails (is_settled_of d.attention.id) s.fences;
                  finished = h.0.1.1.4;
                  ended = h.0.1.1.5;
                },
              )
