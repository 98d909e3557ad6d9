-- ===== src/Kernel/Attentions/Decided.antt =====
-- packages/kernel/src/attentions.ts: what a decision on an Attention leaves behind.
use torsor.Prelude.{
  ℕ, String, ◌≡◌, sym, ap, subst, ◌∙◌, true, Option, some, List, eq_iff, str_eq, first_row,
  and_true,
}
use torsor.Kernel.Action.{Outcome, returned, thrown}
use torsor.Kernel.Action.Triples.{
  Triple, Triple-pure, Triple-gets, Triple-or_throw, Triple-modify, Triple-bind, Triple-weaken,
  Triple-returned, Ends, Triple-check, Triple-find, Triple-next,
}
use torsor.Kernel.Rows.{
  Agent, Attention, AttentionStatus, Activation, resolved, ignored, Run, Principal,
}
use torsor.Kernel.World.{World}
use torsor.Kernel.Results.{CommandResult}
use torsor.Kernel.ReadOnly.{Any}
use torsor.Kernel.Guards.{require_kind}
use torsor.Kernel.Activations.Validity.{
  require_attention, require_activation, require_live_activation,
}
use torsor.Kernel.Activations.Actors.{require_agent_for_principal, named_activation}
use torsor.Kernel.Runs.Ended.{first_row-test}
use torsor.Kernel.Attentions.Rows.{is_attention, is_for_attention}
use torsor.Kernel.Attentions.Decisions.{
  Decider, is_activation, require_attention_decision_context, ignore_attention,
}
use torsor.Kernel.Attentions.Resolutions.{
  insert_run, resolve_attention_with_run, resolve_attention_with_existing_run,
}
use torsor.Kernel.Attentions.Frames.{On, Frame-check, Frame-find, Frame-scope}
use torsor.Kernel.Attentions.Steps.{Step-lease, Step-admit}
use torsor.Kernel.Attentions.Stages.{Rows, Stage-ignore, Stage-create, Stage-continue}
use torsor.Kernel.Attentions.Dispatch.{
  AttentionCommand, claims, resolves_with_run, ignores, resolves_with_existing_run,
  dispatch_attention,
}
use torsor.Kernel.Attentions.Closed.{Decided, Found, Done, Final, finish-Triple, close-Triple}

named_attention :
    (id : String) (xs : List Attention) (a : Attention)
    → first_row (is_attention id) xs ≡ some a
    → (first_row (is_attention a.id) xs ≡ some a) × (a.id ≡ id)
named_attention id xs a h =
    let same = (eq_iff a.id id).0 (first_row-test (is_attention id) xs a h) in
    (subst (λ i. first_row (is_attention i) xs ≡ some a) (sym same) h, same)

module _ (id : String) (revision : ℕ) (token : String) (p : Principal)
    (context : Option String) where
  begin-Triple :
      Triple Any Any
        (require_attention_decision_context id revision token p context)
        (λ d. On (Found id context d))
  unfolding require_attention_decision_context require_kind require_agent_for_principal
      require_attention require_live_activation require_activation
  begin-Triple = Triple-bind _ _ (Frame-check None _ _) λ _.
      Triple-bind _ _ (Frame-find None _ _) λ agent.
        Triple-bind _ _
          (Triple-bind _ _ (Triple-gets (λ w. first_row (is_attention id) w.attentions)) λ found.
            Triple-weaken (λ s h. h) (Triple-or_throw found _ (λ s h. tt))
              λ a s h. named_attention id s.attentions a (h.0.1 ∙ h.1))
          λ a. Triple-bind _ _ (Frame-check (At a) _ _) λ _.
            Triple-bind _ _ (Frame-check (At a) _ _) λ _.
              Triple-bind _ _ (Frame-check (At a) _ _) λ _.
                Triple-bind _ _ (Step-lease (At a) a (some token)) λ _.
                  Triple-next (Triple-or_throw (named_activation context) _ (λ s h. tt)) λ i acting.
                    Triple-bind _ _ (live a i) λ x.
                      Triple-next (Triple-check _ _ (λ s h. tt)) λ _ own.
                        Triple-bind _ _ (Frame-scope (Acts a i x) x) λ _.
                          Triple-weaken (λ s h. h) (Triple-pure _)
                            λ d s h.
                              subst (λ y. On (Found id context y) s) (sym h.1)
                                (found agent a x i s h.0 acting
                                  (and_true (is_for_attention x id) (str_eq x.agent_id agent.id)
                                    own).0)
    where
      None : Rows
      None attentions fences activations runs limits = Unit

      At : Attention → Rows
      At a attentions fences activations runs limits =
          (first_row (is_attention a.id) attentions ≡ some a) × (a.id ≡ id)

      Acts : Attention → String → Activation → Rows
      Acts a i x attentions fences activations runs limits =
          At a attentions fences activations runs limits
          × (first_row (is_activation i) activations ≡ some x)

      live :
          (a : Attention) (i : String)
          → Triple Any (On (At a)) (require_live_activation i) (λ x. On (Acts a i x))
      live a i = Triple-bind _ _ (Triple-find _ _) λ x.
          Triple-bind _ _ (Frame-check (Acts a i x) _ _) λ _.
            Triple-weaken (λ s h. h) (Triple-pure x)
              (λ y s h. subst (λ z. On (Acts a i z) s) (sym h.1) h.0)

      found :
          (agent : Agent) (a : Attention) (x : Activation) (i : String) (s : World)
          → On (Acts a i x) s
          → named_activation context ≡ some i
          → is_for_attention x id ≡ true
          → On (Found id context (record { agent = agent; attention = a; activation = x })) s
      found agent a x i s h acting own =
          let same = (eq_iff x.id i).0 (first_row-test (is_activation i) s.activations x h.1) in
          (
            (h.0.0, h.0.1, acting ∙ ap some (sym same)),
            subst (λ k. first_row (is_activation k) s.activations ≡ some x) (sym same) h.1,
            subst (λ k. is_for_attention x k ≡ true) (sym h.0.1) own,
          )

  insert-Found :
      (d : Decider) (run : Run)
      → Triple Any (On (Found id context d)) (insert_run run) (λ _. On (Found id context d))
  unfolding insert_run
  insert-Found d run = Triple-modify _ {Q = λ _. On (Found id context d)} (λ s h. h)

  final :
      (status : AttentionStatus) (s : World) (d : Decider)
      → On (Final id context d status) s
      → Decided context id status s.attentions s.fences s.activations
  final status s d h =
      subst (λ i. Decided context i status s.attentions s.fences s.activations) h.0 h.1

  pub ignore-Decided :
      (reason correlation : String)
      → Triple Any Any
          (ignore_attention id revision token reason p context correlation)
          (λ _ s. Decided context id ignored s.attentions s.fences s.activations)
  ignore-Decided reason correlation =
      Triple-weaken (λ s h. h)
        (Stage-ignore Any (Found id context) (Done id context) (Final id context)
          (λ d a. Found id context d) id revision token p context begin-Triple
          (finish-Triple id context)
          (λ d status outcome r at. close-Triple id context d status outcome r p at) reason
          correlation)
        (λ r s h. final ignored s h.0 h.1)

  pub create-Decided :
      (correlation : String)
      → Triple Any Any
          (resolve_attention_with_run id revision token p context correlation)
          (λ _ s. Decided context id resolved s.attentions s.fences s.activations)
  create-Decided correlation =
      Triple-weaken (λ s h. h)
        (Stage-create Any (Found id context) (Done id context) (Final id context)
          (λ d a. Found id context d) id revision token p context begin-Triple
          (finish-Triple id context)
          (λ d status outcome r at. close-Triple id context d status outcome r p at)
          (λ d i f k l m s h. h) (λ d i f k l m s h. h)
          (λ d. Step-admit (Found id context d) d.attention) (λ d a i at. insert-Found d _)
          correlation)
        (λ r s h. final resolved s h.0 h.1)

  pub continue-Decided :
      (run_id : String) (run_revision : ℕ) (correlation : String)
      → Triple Any Any
          (resolve_attention_with_existing_run id revision token run_id run_revision p context
            correlation)
          (λ _ s. Decided context id resolved s.attentions s.fences s.activations)
  continue-Decided run_id run_revision correlation =
      Triple-weaken (λ s h. h)
        (Stage-continue Any (Found id context) (Done id context) (Final id context)
          (λ d a. Found id context d) id revision token p context begin-Triple
          (finish-Triple id context)
          (λ d status outcome r at. close-Triple id context d status outcome r p at)
          (λ d i f k l m s h. h) (λ d i f k l m s h. h) run_id run_revision correlation)
        (λ r s h. final resolved s h.0 h.1)

-- What a command on an Attention decides in a context; a claim decides nothing.
abbrev pub DecidedBy : AttentionCommand → Option String → World → Type 0
DecidedBy (claims id revision duration) context s = Unit
DecidedBy (resolves_with_run id revision token) context s =
    Decided context id resolved s.attentions s.fences s.activations
DecidedBy (ignores id revision token reason) context s =
    Decided context id ignored s.attentions s.fences s.activations
DecidedBy (resolves_with_existing_run id revision token run_id run_revision) context s =
    Decided context id resolved s.attentions s.fences s.activations

decision-Triple :
    (c : AttentionCommand) (p : Principal) (context : Option String) (correlation : String)
    → Triple Any Any (dispatch_attention c p context correlation) (λ _. DecidedBy c context)
unfolding dispatch_attention
decision-Triple (claims id revision duration) p context correlation = record { at = λ s h. any _ }
  where
    any : (x : Outcome World CommandResult) → Ends Any (λ _ _. Unit) x
    any (returned r s) = tt
    any (thrown e s) = tt
decision-Triple (resolves_with_run id revision token) p context correlation =
    create-Decided id revision token p context correlation
decision-Triple (ignores id revision token reason) p context correlation =
    ignore-Decided id revision token p context reason correlation
decision-Triple (resolves_with_existing_run id revision token run_id run_revision) p context
      correlation =
    continue-Decided id revision token p context run_id run_revision correlation

-- A decision on an Attention that returns has stored the Attention as Resolved, or as Ignored where it
-- was ignored, with the Activation that the caller's context names as the one that decided, and without
-- a handler lease; no fence of a domain holds a lease for it any more, and a fence that still names it
-- has an unsettled provider attempt; and the stored row of that Activation is for the Attention and has
-- finished as completed. Of a claim nothing is said.
pub dispatch_attention-Decided :
    (c : AttentionCommand) (p : Principal) (context : Option String) (correlation : String)
    (w w' : World) (r : CommandResult)
    → dispatch_attention c p context correlation w ≡ returned r w'
    → DecidedBy c context w'
dispatch_attention-Decided c p context correlation w w' r h =
    Triple-returned (decision-Triple c p context correlation) w tt h
