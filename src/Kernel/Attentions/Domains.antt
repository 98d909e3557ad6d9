-- ===== src/Kernel/Attentions/Domains.antt =====
-- packages/kernel/src/invariants.ts: the leases of Attention execution domains. A domain is an Agent
-- with a Project, a Channel and a Thread.
use torsor.Prelude.{
  ℕ, ◌+◌, String, Bool, not, ◌&&◌, Option, none, some, List, [], ◌∷◌, ◌++◌, str_eq, is_none,
  is_text, where_rows, update_rows, first_row, ◌==◌, if◌then◌else◌,
}
use torsor.Kernel.Errors.{kernel_error, forbidden, conflict, domain_busy, internal}
use torsor.Kernel.Action.{pure, check, gets, modify, or_throw, ◌>>=◌, ◌>>◌}
use torsor.Kernel.Rows.{Attention, DomainFence, Activation}
use torsor.Kernel.World.{Command, now}
use torsor.Kernel.Activations.Validity.{fence_matches, is_over, require_attention}
use torsor.Kernel.Runs.Events.{kept_reason}
use torsor.Kernel.Attentions.Rows.{update_attention, is_for_attention, change_activations}

abbrev pub has_attention_id : String → DomainFence → Bool
has_attention_id id fence = str_eq fence.attention_id id

-- isAttentionDomainLeaseCurrent
unfoldable pub is_attention_domain_lease_current : Attention → String → Command Bool
is_attention_domain_lease_current attention token = do
  fence ← gets (λ w. first_row (has_attention_id attention.id) w.fences)
  pure (
      not (is_none attention.handler_lease_expires_at)
      && fence_matches attention fence (some token))

-- `!leaseToken || optionalText(attention.handler_lease_token) !== leaseToken`
abbrev pub given_token : Option String → Option String → Option String
given_token none held = none
given_token (some token) held =
    if not (str_eq token "") && is_text held token then some token else none

-- assertAttentionLease. An empty text of an expiry cannot be stored: it is an instant here.
unfoldable pub assert_attention_lease : Attention → Option String → Command Unit
assert_attention_lease attention lease_token = do
  token ← or_throw (given_token lease_token attention.handler_lease_token) (kernel_error forbidden)
  check (not (is_none attention.handler_lease_expires_at)) (kernel_error conflict)
  at ← now
  check (not (is_over attention.handler_lease_expires_at at)) (kernel_error conflict)
  current ← is_attention_domain_lease_current attention token
  check current (kernel_error conflict)

-- the row of attention_domain_fences for the domain of an Attention
abbrev pub is_domain_of : Attention → DomainFence → Bool
is_domain_of attention fence =
    str_eq fence.agent_id attention.target_agent_id
    && str_eq fence.project_id attention.project_id
    && str_eq fence.channel_id attention.channel_id
    && str_eq fence.thread_root_id attention.thread_root_id

-- neither hasLiveLease nor hasUnsettledProvider
abbrev pub is_free : DomainFence → ℕ → Bool
is_free fence at = is_over fence.lease_expires_at at && fence.unsettled_provider_attempt_count == 0

abbrev pub clear_handler_lease : Attention → Attention
clear_handler_lease attention = record attention {
  handler_lease_holder_principal_id = none;
  handler_lease_token = none;
  handler_lease_expires_at = none;
}

pub record Superseded : Type 0 where
  pub attention : Attention
  pub revision : ℕ
  pub activation_ids : List String

abbrev pub ids_of_activations : List Activation → List String
ids_of_activations [] = []
ids_of_activations (a ∷ as') = a.id ∷ ids_of_activations as'

abbrev pub is_unfinished_of : String → Activation → Bool
is_unfinished_of id a = is_for_attention a id && is_none a.finished_at && is_none a.revoked_at

-- The COALESCE of revoked_at keeps nothing, since the WHERE clause asks for revoked_at IS NULL.
abbrev pub revoke_for : ℕ → String → Activation → Activation
revoke_for at reason a = record a {
  revoked_at = some at;
  revocation_reason = kept_reason a.revocation_reason reason;
}

abbrev pub unlease : ℕ → Attention → Attention
unlease revision a = record (clear_handler_lease a) { revision = revision }

unfoldable pub supersede_previous : DomainFence → ℕ → Command Superseded
supersede_previous existing at = do
  previous ← require_attention existing.attention_id
  check (fence_matches previous (some existing) existing.lease_token) (kernel_error internal)
  update_attention previous.id (unlease (previous.revision + 1))
  changed ←
      change_activations (is_unfinished_of previous.id)
        (revoke_for at "attention_domain_superseded")
  pure (record {
    attention = previous;
    revision = previous.revision + 1;
    activation_ids = ids_of_activations changed;
  })

abbrev pub take_fence : String → String → ℕ → DomainFence → DomainFence
take_fence attention_id token expires_at fence = record fence {
  attention_id = attention_id;
  lease_token = some token;
  lease_expires_at = some expires_at;
  unsettled_provider_attempt_count = 0;
}

abbrev pub new_fence : Attention → String → ℕ → DomainFence
new_fence attention token expires_at = record {
  agent_id = attention.target_agent_id;
  project_id = attention.project_id;
  channel_id = attention.channel_id;
  thread_root_id = attention.thread_root_id;
  attention_id = attention.id;
  lease_token = some token;
  lease_expires_at = some expires_at;
  unsettled_provider_attempt_count = 0;
}

unfoldable pub supersede_other : DomainFence → Attention → ℕ → Command (Option Superseded)
supersede_other existing attention at =
    if str_eq existing.attention_id attention.id
    then pure none
    else do superseded ← supersede_previous existing at; pure (some superseded)

unfoldable pub take_over : DomainFence → Attention → String → ℕ → ℕ → Command (Option Superseded)
take_over existing attention token expires_at at = do
  check (is_free existing at) (kernel_error domain_busy)
  superseded ← supersede_other existing attention at
  modify λ w. record w {
    db = record w.db {
      fences =
          update_rows (is_domain_of attention) (take_fence attention.id token expires_at) w.fences;
    };
  }
  pure superseded

unfoldable pub claim_domain_of :
    Option DomainFence → Attention → String → ℕ → ℕ → Command (Option Superseded)
claim_domain_of none attention token expires_at at = do
  modify λ w. record w {
    db = record w.db { fences = w.fences ++ new_fence attention token expires_at ∷ [] };
  }
  pure none
claim_domain_of (some existing) attention token expires_at at =
    take_over existing attention token expires_at at

unfoldable pub claim_attention_domain : Attention → String → ℕ → ℕ → Command (Option Superseded)
claim_attention_domain attention token expires_at at = do
  existing ← gets (λ w. first_row (is_domain_of attention) w.fences)
  claim_domain_of existing attention token expires_at at

abbrev pub drop_fence_lease : DomainFence → DomainFence
drop_fence_lease fence = record fence { lease_token = none; lease_expires_at = none }

abbrev pub is_settled_of : String → DomainFence → Bool
is_settled_of id fence = has_attention_id id fence && fence.unsettled_provider_attempt_count == 0

-- UPDATE, then DELETE ... WHERE unsettled_provider_attempt_count = 0
unfoldable pub release_attention_domain_lease : String → Command Unit
release_attention_domain_lease id = do
  modify λ w. record w {
    db = record w.db { fences = update_rows (has_attention_id id) drop_fence_lease w.fences };
  }
  modify λ w. record w {
    db = record w.db { fences = where_rows (λ f. not (is_settled_of id f)) w.fences };
  }
