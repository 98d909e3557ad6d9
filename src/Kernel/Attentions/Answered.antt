-- ===== src/Kernel/Attentions/Answered.antt =====
-- packages/kernel/src/attentions.ts: a claim of an Attention.
use torsor.Prelude.{
  ℕ, ◌+◌, String, ◌≡◌, refl, sym, subst, ◌∙◌, true, false, ◌&&◌, Option, none, some, All, arith,
  leb, eq_iff, ap, first_row,
}
use torsor.Kernel.Action.{returned, ◌>>=◌}
use torsor.Kernel.Action.Triples.{
  Triple, Triple-pure, Triple-gets, Triple-check, Triple-bind, Triple-next, Triple-weaken,
  Triple-returned, Triple-assume,
}
use torsor.Kernel.Rows.{Attention, is_open, Principal}
use torsor.Kernel.World.{World, now, fresh}
use torsor.Kernel.Results.{CommandResult}
use torsor.Kernel.ReadOnly.{Any}
use torsor.Kernel.Guards.{require_kind}
use torsor.Kernel.Activations.Validity.{require_attention, is_over}
use torsor.Kernel.Runs.Ended.{first_row-test, first_row-update, and_false, update_rows-All}
use torsor.Kernel.Attentions.Rows.{is_attention, is_for_attention}
use torsor.Kernel.Attentions.Domains.{is_domain_of, new_fence, claim_attention_domain, revoke_for}
use torsor.Kernel.Attentions.Commands.{is_unrevoked_of, lease_handler, claim_at, claim_attention}
use torsor.Kernel.Attentions.Frames.{On, Frame-event, Frame-history}
use torsor.Kernel.Attentions.Steps.{Step-report, Change-attention, Change-activations}
use torsor.Kernel.Attentions.Stages.{Rows}
use torsor.Kernel.Attentions.Claimed.{Placed, Claims, leased_row, Ready, Held, claim_of-Triple}

module _ (p : Principal) (correlation : String) (a : Attention) (duration at : ℕ) where
  abbrev Revoked : String → ℕ → Rows
  Revoked token expires attentions fences activations runs limits =
      Held a token expires at attentions fences activations runs limits
      × All (λ x. is_unrevoked_of a.id x ≡ false) activations

  abbrev Leased : String → ℕ → Rows
  Leased token expires attentions fences activations runs limits =
      (first_row (is_attention a.id) attentions ≡ some (leased_row a p token expires))
      × Placed a fences
      × (first_row (is_domain_of a) fences ≡ some (new_fence a token expires))
      × All (λ x. is_unrevoked_of a.id x ≡ false) activations

  fresh-token :
      (names : String → ℕ → String) (issued : ℕ)
      → Triple Any
          (λ s. On (Ready a "" 0 at) s × (s.names ≡ names) × (s.issued ≡ issued))
          (fresh "lease")
          (λ t s. On (Ready a "" 0 at) s × (t ≡ names "lease" issued))
  unfolding fresh
  fresh-token names issued = record {
    at = λ s h. (h.0, ap (λ f. f "lease" s.issued) h.1 ∙ ap (names "lease") h.2);
  }

  claim_at-Triple :
      (names : String → ℕ → String) (issued : ℕ)
      → Triple Any
          (λ s. On (Ready a "" 0 at) s × (s.names ≡ names) × (s.issued ≡ issued))
          (claim_at a duration p correlation at)
          (λ r s.
            (is_over a.handler_lease_expires_at at ≡ true)
            × Claims a p
                (names "lease" issued)
                (at + duration)
                r
                s.attentions
                s.fences
                s.activations)
  unfolding claim_at claim_attention_domain
  claim_at-Triple names issued = Triple-next (Triple-check _ _ (λ s h. tt)) λ _ over.
      Triple-bind _ _ (fresh-token names issued) λ token. Triple-assume λ token_eq.
        let H = Held a token (at + duration) at in
        let V = Revoked token (at + duration) in
        let L = Leased token (at + duration) in
        Triple-bind _ _
          (Triple-bind _ _ (Triple-gets _) λ x. claim_of-Triple a token (at + duration) at x)
          λ superseded. Triple-bind _ _ (Step-report H superseded a.id p correlation) λ _.
            Triple-bind _ _
              (Change-activations H V (is_unrevoked_of a.id)
                (revoke_for at "attention_lease_replaced")
                λ s h. (
                  h,
                  update_rows-All (is_unrevoked_of a.id) (revoke_for at "attention_lease_replaced")
                      (λ x. and_false (is_for_attention x a.id)) s.activations,
                ))
              λ _.
                Triple-bind _ _
                  (Change-attention V L a.id _ λ s h. (
                    first_row-update (is_attention a.id)
                        (lease_handler p.id token (at + duration) (a.revision + 1)) (λ x. refl)
                        s.attentions a h.0.0,
                    h.0.1,
                    h.0.2,
                    h.1,
                  ))
                  λ _. Triple-bind _ _ (Frame-event L _ _) λ sequence.
                    Triple-bind _ _ (Frame-history L _ _) λ _.
                      Triple-weaken (λ s h. h) (Triple-pure _)
                        λ r s h. (
                          over,
                          subst
                              (λ t.
                                Claims a p t (at + duration) r s.attentions s.fences s.activations)
                              token_eq
                              (record {
                                answer = h.1;
                                stored = h.0.0;
                                placed = h.0.1;
                                fenced = h.0.2;
                                revoked = h.0.3;
                              }),
                        )

-- Each Attention that is stored under the id has its fence in its own domain.
abbrev pub PlacedAt : String → World → Type 0
PlacedAt id s =
    (a : Attention) → first_row (is_attention id) s.attentions ≡ some a → Placed a s.fences

-- What a claim finds and leaves: an Open Attention of the revision that was expected, whose lease, if
-- it has one, is over at the instant observed; and that Attention leased to the claimant under the
-- next fresh token until the instant observed plus the duration.
pub record Claimed (id : String) (revision duration : ℕ) (p : Principal) (w : World)
    (r : CommandResult) (w' : World) : Type 0 where
  pub attention : Attention
  pub found : first_row (is_attention id) w.attentions ≡ some attention
  pub named : attention.id ≡ id
  pub opened : is_open attention.status ≡ true
  pub expected : attention.revision ≡ revision
  pub free : is_over attention.handler_lease_expires_at (w.clock w.reads) ≡ true
  pub bounds : leb 1000 duration && leb duration 300000 ≡ true
  pub claims :
      Claims attention p
        (w.names "lease" w.issued)
        (w.clock w.reads + duration)
        r
        w'.attentions
        w'.fences
        w'.activations

-- the command, past its checks
claim_inner :
    (id : String) (revision duration : ℕ) (p : Principal) (correlation : String) (w : World)
    {r : CommandResult} {w' : World} (x : Option Attention)
    → first_row (is_attention id) w.attentions ≡ x
    → claim_attention id revision duration p correlation w ≡ returned r w'
    → (a : Attention) × ((x ≡ some a)
        × (is_open a.status ≡ true)
        × (a.revision ≡ revision)
        × (leb 1000 duration && leb duration 300000 ≡ true)
        × (claim_at a duration p correlation (w.clock w.reads) (record w { reads = w.reads + 1 })
            ≡ returned r w'))
unfolding claim_attention require_kind require_attention now ◌>>=◌
claim_inner id revision duration p correlation w none e h = absurd (ground (arith, e, h))
claim_inner id revision duration p correlation w (some a) e h = (
  a,
  (refl, ground (arith, e, h), ground (arith, e, h), ground (arith, e, h), ground (arith, e, h)),
)

-- A claim of an Attention that returns has found it Open, at the revision that was expected, with its
-- lease, if it had one, over at the first instant that the claim read from the clock, and with a
-- duration of 1 to 300 seconds. It has stored the Attention one revision later, with the claimant as
-- the holder of a lease under the next fresh token, until that instant plus the duration; the result
-- tells this lease; the fence of the Attention's domain holds the same lease; and no Activation for
-- the Attention is left without a revocation. Before, the fence that names an Attention has to stand
-- in the Attention's domain, and it does so after.
pub claim_attention-Claims :
    (id : String) (revision duration : ℕ) (p : Principal) (correlation : String) (w w' : World)
    (r : CommandResult)
    → PlacedAt id w
    → claim_attention id revision duration p correlation w ≡ returned r w'
    → Claimed id revision duration p w r w'
claim_attention-Claims id revision duration p correlation w w' r h e =
    let (a, (found, opened, expected, bounds, inner)) =
      claim_inner id revision duration p correlation w (first_row (is_attention id) w.attentions)
        refl e in
    let same = (eq_iff a.id id).0 (first_row-test (is_attention id) w.attentions a found) in
    let (free, claims) =
      Triple-returned (claim_at-Triple p correlation a duration (w.clock w.reads) w.names w.issued)
        (record w { reads = w.reads + 1 })
        (
          (
            subst (λ i. first_row (is_attention i) w.attentions ≡ some a) (sym same) found,
            h a found,
          ),
          refl,
          refl,
        )
        inner in
    record {
      attention = a;
      found = found;
      named = same;
      opened = opened;
      expected = expected;
      free = free;
      bounds = bounds;
      claims = claims;
    }
