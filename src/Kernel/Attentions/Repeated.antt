-- ===== src/Kernel/Attentions/Repeated.antt =====
-- packages/kernel/src/attentions.ts: the answer to the repetition of a claim of an Attention.
use torsor.Prelude.{
  ℕ, ◌+◌, ◌<◌, ◌≢◌, String, ◌≡◌, refl, sym, ap, ◌∙◌, Bool, true, false, some, List, [], ◌∷◌, inl,
  inr, arith, Bool-cases, str_eq, eq_iff, first_row, if◌then◌else◌, leb,
}
use torsor.Kernel.Action.{returned}
use torsor.Kernel.Rows.{Attention, is_open, DomainFence, Principal}
use torsor.Kernel.World.{World}
use torsor.Kernel.Results.{CommandResult}
use torsor.Kernel.Activations.Validity.{require_attention}
use torsor.Kernel.Attentions.Rows.{is_attention}
use torsor.Kernel.Attentions.Domains.{has_attention_id, is_domain_of, new_fence}
use torsor.Kernel.Attentions.Commands.{claim_attention}
use torsor.Kernel.Attentions.Domains.{is_attention_domain_lease_current}
use torsor.Kernel.Attentions.Commands.{resolve_cached_attention_claim}
use torsor.Kernel.World.{now}
use torsor.Kernel.Action.{◌>>=◌}
use torsor.Kernel.Attentions.Claimed.{Placed, Claims, told_result, leased_row}
use torsor.Kernel.Attentions.Answered.{PlacedAt, claim_attention-Claims}

-- in a table where the rows that pass one test pass the other, both find one row
first_row-both :
    (a : Attention) (t : List DomainFence) (f : DomainFence)
    → Placed a t
    → first_row (is_domain_of a) t ≡ some f
    → has_attention_id a.id f ≡ true
    → first_row (has_attention_id a.id) t ≡ some f
unfolding first_row
first_row-both a [] f h e k = cc
first_row-both a (x ∷ xs) f h e k = elim (Bool-cases (has_attention_id a.id x)) [
  | inl b ↦ rw b (ground (arith, e, h.0 b))
  | inr b ↦ rw b (first_row-both a xs f h.1 (later b (is_domain_of a x) e) k)
]
  where
    later :
        has_attention_id a.id x ≡ false
        → (d : Bool) → (if d then some x else first_row (is_domain_of a) xs) ≡ some f
        → first_row (is_domain_of a) xs ≡ some f
    later b true q = absurd (clash b q)
      where
        clash : has_attention_id a.id x ≡ false → some x ≡ some f → ⊥
        clash b q = ground (arith, b, q, k)
    later b false q = q

-- the repetition of a claim, on the row and the fence that the claim has stored
repeated :
    (a : Attention) (p : Principal) (token : String) (expires : ℕ) (s : World)
    → is_open a.status ≡ true
    → str_eq token "" ≡ false
    → first_row (is_attention a.id) s.attentions ≡ some (leased_row a p token expires)
    → first_row (has_attention_id a.id) s.fences ≡ some (new_fence a token expires)
    → leb expires (s.clock s.reads) ≡ false
    → resolve_cached_attention_claim (told_result a token expires) p s
      ≡ returned (told_result a token expires) (record s { reads = s.reads + 1 })
unfolding resolve_cached_attention_claim require_attention is_attention_domain_lease_current now
    ◌>>=◌
repeated a p token expires s opened named stored fenced live = ground (
  arith,
  opened,
  named,
  stored,
  fenced,
  live,
  eq_iff p.id p.id,
  eq_iff token token,
  eq_iff a.id a.id,
  eq_iff a.target_agent_id a.target_agent_id,
  eq_iff a.project_id a.project_id,
  eq_iff a.channel_id a.channel_id,
  eq_iff a.thread_root_id a.thread_root_id,
)

answered :
    (a : Attention) (p : Principal) (token : String) (until : ℕ) (r : CommandResult) (s : World)
    (expires : ℕ)
    → is_open a.status ≡ true
    → Claims a p token until r s.attentions s.fences s.activations
    → r.lease_expires_at ≡ some expires
    → s.clock s.reads < expires
    → r.handler_lease_token ≢ some ""
    → resolve_cached_attention_claim r p s ≡ returned r (record s { reads = s.reads + 1 })
answered a p token until r s expires opened c e live named = rw c.answer (
    repeated a p token until s opened blank c.stored
      (first_row-both a s.fences (new_fence a token until) c.placed c.fenced
        ((eq_iff a.id a.id).1 refl))
      (ground (arith, live, same (sym (ap (λ x. x.lease_expires_at) c.answer) ∙ e))))
  where
    same : some until ≡ some expires → until ≡ expires
    same k = cc

    blank : str_eq token "" ≡ false
    blank = elim (Bool-cases (str_eq token "")) [
      | inl b ↦
          absurd
            (named (ap (λ x. x.handler_lease_token) c.answer ∙ ap some ((eq_iff token "").0 b)))
      | inr b ↦ b
    ]

-- While the lease of a claim that returned has not expired by the clock, the repetition of the claim
-- by the same principal gives the same result, and writes nothing. The token must not be the empty
-- text, and before the claim the fence that names an Attention has to stand in its domain.
pub claim_attention-resolve_cached :
    (id : String) (revision duration : ℕ) (p : Principal) (correlation : String) (w w' : World)
    (r : CommandResult) (expires : ℕ)
    → PlacedAt id w
    → claim_attention id revision duration p correlation w ≡ returned r w'
    → r.lease_expires_at ≡ some expires
    → w'.clock w'.reads < expires
    → r.handler_lease_token ≢ some ""
    → resolve_cached_attention_claim r p w' ≡ returned r (record w' { reads = w'.reads + 1 })
claim_attention-resolve_cached id revision duration p correlation w w' r expires h e stored live
      named =
    let c = claim_attention-Claims id revision duration p correlation w w' r h e in
    answered c.attention p (w.names "lease" w.issued) (w.clock w.reads + duration) r w' expires
      c.opened c.claims stored live named
