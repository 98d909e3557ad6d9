-- ===== src/Kernel/Attentions/Exclusive.antt =====
-- packages/kernel/src/attentions.ts: the commands keep one fence for each execution domain.
use torsor.Prelude.{ℕ, ◌+◌, String, ◌≡◌, not, Option, none, some, first_row, where_rows}
use torsor.Kernel.Action.{returned}
use torsor.Kernel.Action.Triples.{
  Triple, Triple-gets, Triple-modify, Triple-bind, Triple-weaken, Triple-returned,
}
use torsor.Kernel.Rows.{Attention, AttentionStatus, DomainFence, Run, Principal}
use torsor.Kernel.World.{World}
use torsor.Kernel.Results.{CommandResult}
use torsor.Kernel.ReadOnly.{Any}
use torsor.Kernel.Guards.{require_kind}
use torsor.Kernel.Activations.Validity.{require_attention}
use torsor.Kernel.Attentions.Domains.{
  is_domain_of, is_settled_of, take_over, claim_domain_of, claim_attention_domain,
  release_attention_domain_lease,
}
use torsor.Kernel.Attentions.Commands.{claim_at, claim_attention}
use torsor.Kernel.Attentions.Decisions.{
  Decider, finish_attention_activation, close_attention, ignore_attention,
}
use torsor.Kernel.Attentions.Resolutions.{
  insert_run, resolve_attention_with_run, resolve_attention_with_existing_run,
}
use torsor.Kernel.Attentions.Dispatch.{
  AttentionCommand, claims, resolves_with_run, ignores, resolves_with_existing_run,
  dispatch_attention,
}
use torsor.Kernel.Attentions.Frames.{
  On, Frame-now, Frame-fresh, Frame-check, Frame-pure, Frame-find, Frame-event, Frame-history,
}
use torsor.Kernel.Attentions.Steps.{
  Step-context, Step-admit, Step-report, Change-attention, Change-activations, Fences,
  Step-supersede,
}
use torsor.Kernel.Attentions.Stages.{Rows, Stage-ignore, Stage-create, Stage-continue}
use torsor.Kernel.Attentions.Fences.{Exclusive, add-Exclusive, take-Exclusive, release-Exclusive}

claim_of-Exclusive :
    (x : Option DomainFence) (a : Attention) (token : String) (e at : ℕ)
    → Triple Any
        (λ s. Exclusive s.fences × (first_row (is_domain_of a) s.fences ≡ x))
        (claim_domain_of x a token e at)
        (λ _. On (Fences Exclusive))
unfolding claim_domain_of take_over
claim_of-Exclusive none a token e at =
    Triple-bind _ _
      (Triple-modify _ {Q = λ _. On (Fences Exclusive)}
        (λ s h. add-Exclusive a token e s.fences h.1 h.0))
      λ _. Frame-pure (Fences Exclusive) none
claim_of-Exclusive (some f) a token e at =
    Triple-bind _ _ (Triple-weaken (λ s h. h.0) (Frame-check (Fences Exclusive) _ _) (λ r s h. h))
      λ _. Triple-bind _ _ (Step-supersede Exclusive f a at) λ superseded.
        Triple-bind _ _
          (Triple-modify _ {Q = λ _. On (Fences Exclusive)}
            (λ s h. take-Exclusive a token e s.fences h))
          λ _. Frame-pure (Fences Exclusive) superseded

claim-Exclusive :
    (id : String) (revision duration : ℕ) (p : Principal) (correlation : String)
    → Triple Any
        (On (Fences Exclusive))
        (claim_attention id revision duration p correlation)
        (λ _. On (Fences Exclusive))
unfolding claim_attention claim_at require_kind require_attention claim_attention_domain
claim-Exclusive id revision duration p correlation =
    let E = Fences Exclusive in
    Triple-bind _ _ (Frame-check E _ _) λ _.
      Triple-bind _ _ (Triple-bind _ _ (Frame-check E _ _) λ _. Frame-pure E _) λ d.
        Triple-bind _ _ (Frame-find E _ _) λ a. Triple-bind _ _ (Frame-check E _ _) λ _.
          Triple-bind _ _ (Frame-check E _ _) λ _. Triple-bind _ _ (Frame-now E) λ at.
            Triple-bind _ _ (Frame-check E _ _) λ _. Triple-bind _ _ (Frame-fresh E _) λ token.
              Triple-bind _ _
                (Triple-bind _ _ (Triple-gets _) λ x. claim_of-Exclusive x a token (at + d) at)
                λ superseded. Triple-bind _ _ (Step-report E superseded a.id p correlation) λ _.
                  Triple-bind _ _ (Change-activations E E _ _ (λ s h. h)) λ _.
                    Triple-bind _ _ (Change-attention E E a.id _ (λ s h. h)) λ _.
                      Triple-bind _ _ (Frame-event E _ _)
                        λ sequence. Triple-bind _ _ (Frame-history E _ _) λ _. Frame-pure E _

module _ (id : String) (revision : ℕ) (token : String) (p : Principal)
    (context : Option String) where
  abbrev One : Rows
  One = Fences Exclusive

  finish-Exclusive :
      (d : Decider) (at : ℕ) (reason : String)
      → Triple Any (On One) (finish_attention_activation d.activation.id at reason) (λ _. On One)
  unfolding finish_attention_activation
  finish-Exclusive d at reason =
      Triple-bind _ _ (Change-activations One One _ _ (λ s h. h)) λ changed. Frame-pure One tt

  close-Exclusive :
      (d : Decider) (status : AttentionStatus) (outcome : String) (run_id : Option String) (at : ℕ)
      → Triple Any (On One) (close_attention d status outcome run_id p at) (λ _. On One)
  unfolding close_attention release_attention_domain_lease
  close-Exclusive d status outcome run_id at =
      Triple-bind _ _ (Change-attention One One d.attention.id _ (λ s h. h)) λ _.
        Triple-bind _ _
          (Triple-modify _
            {Q = λ _ s. Exclusive (where_rows (λ f. not (is_settled_of d.attention.id f)) s.fences)}
            (λ s h. release-Exclusive d.attention.id s.fences h))
          λ _. Triple-modify _ {Q = λ _. On One} (λ s h. h)

  insert-Exclusive : (run : Run) → Triple Any (On One) (insert_run run) (λ _. On One)
  unfolding insert_run
  insert-Exclusive run = Triple-modify _ {Q = λ _. On One} (λ s h. h)

  ignore-Exclusive :
      (reason correlation : String)
      → Triple Any
          (On One)
          (ignore_attention id revision token reason p context correlation)
          (λ _. On One)
  ignore-Exclusive reason correlation =
      Triple-weaken (λ s h. h)
        (Stage-ignore (On One) (λ d. One) (λ d. One) (λ d status. One) (λ d a. One) id revision
          token p context (Step-context One id revision token p context) finish-Exclusive
          close-Exclusive reason correlation)
        (λ r s h. h.1)

  create-Exclusive :
      (correlation : String)
      → Triple Any
          (On One)
          (resolve_attention_with_run id revision token p context correlation)
          (λ _. On One)
  create-Exclusive correlation =
      Triple-weaken (λ s h. h)
        (Stage-create (On One) (λ d. One) (λ d. One) (λ d status. One) (λ d a. One) id revision
          token p context (Step-context One id revision token p context) finish-Exclusive
          close-Exclusive (λ d i f k l m s h. h) (λ d i f k l m s h. h)
          (λ d. Step-admit One d.attention) (λ d a i at. insert-Exclusive _) correlation)
        (λ r s h. h.1)

  continue-Exclusive :
      (run_id : String) (run_revision : ℕ) (correlation : String)
      → Triple Any
          (On One)
          (resolve_attention_with_existing_run id revision token run_id run_revision p context
            correlation)
          (λ _. On One)
  continue-Exclusive run_id run_revision correlation =
      Triple-weaken (λ s h. h)
        (Stage-continue (On One) (λ d. One) (λ d. One) (λ d status. One) (λ d a. One) id revision
          token p context (Step-context One id revision token p context) finish-Exclusive
          close-Exclusive (λ d i f k l m s h. h) (λ d i f k l m s h. h) run_id run_revision
          correlation)
        (λ r s h. h.1)

dispatch-Exclusive :
    (c : AttentionCommand) (p : Principal) (context : Option String) (correlation : String)
    → Triple Any
        (On (Fences Exclusive))
        (dispatch_attention c p context correlation)
        (λ _. On (Fences Exclusive))
unfolding dispatch_attention
dispatch-Exclusive (claims id revision duration) p context correlation =
    claim-Exclusive id revision duration p correlation
dispatch-Exclusive (resolves_with_run id revision token) p context correlation =
    create-Exclusive id revision token p context correlation
dispatch-Exclusive (ignores id revision token reason) p context correlation =
    ignore-Exclusive id revision token p context reason correlation
dispatch-Exclusive (resolves_with_existing_run id revision token run_id run_revision) p context
      correlation =
    continue-Exclusive id revision token p context run_id run_revision correlation

-- Where no execution domain has two fences, none has two after a command on an Attention that
-- returns: a claim, a resolution with a new or an existing Run, or an ignore.
pub dispatch_attention-Exclusive :
    (c : AttentionCommand) (p : Principal) (context : Option String) (correlation : String)
    (w w' : World) (r : CommandResult)
    → Exclusive w.fences
    → dispatch_attention c p context correlation w ≡ returned r w'
    → Exclusive w'.fences
dispatch_attention-Exclusive c p context correlation w w' r h e =
    Triple-returned (dispatch-Exclusive c p context correlation) w h e
