-- ===== src/Kernel/Attentions/Commands.antt =====
-- packages/kernel/src/attentions.ts: the claim of an Attention, and the answer to a repeated claim.
use torsor.Prelude.{
  ℕ, ◌+◌, String, Bool, not, ◌&&◌, Option, none, some, List, [], ◌∷◌, str_eq, is_none, is_text,
  if◌then◌else◌,
}
use torsor.Kernel.Errors.{kernel_error, conflict}
use torsor.Kernel.Action.{pure, check, or_throw, ◌>>=◌, ◌>>◌}
use torsor.Kernel.Rows.{
  Principal, is_runtime, Attention, Activation, is_open, Json, string, number, array, object, field,
  end, Items, nil, item,
}
use torsor.Kernel.World.{Command, now, fresh}
use torsor.Kernel.Values.{bounded_duration}
use torsor.Kernel.Results.{CommandResult, bare_result}
use torsor.Kernel.Guards.{require_kind}
use torsor.Kernel.Activations.Validity.{is_over, require_attention}
use torsor.Kernel.Activations.Actors.{is_expected}
use torsor.Kernel.Errors.{stale_revision}
use torsor.Kernel.Runs.Events.{EventInput, emit_event}
use torsor.Kernel.Attentions.Rows.{
  update_attention, record_attention_history, is_for_attention, change_activations,
}
use torsor.Kernel.Attentions.Domains.{
  Superseded, claim_attention_domain, is_attention_domain_lease_current, revoke_for,
}

-- an event about an Attention, in the Attention's Thread
abbrev pub attention_event :
    String → Attention → Principal → Option String → String → String → Json → EventInput
attention_event type attention principal activation causation correlation payload = record {
  type = type;
  project_id = attention.project_id;
  channel_id = attention.channel_id;
  thread_root_id = attention.thread_root_id;
  entity_type = "Attention";
  entity_id = attention.id;
  actor_principal_id = principal.id;
  activation_id = activation;
  causation_id = some causation;
  correlation_id = correlation;
  payload = payload;
}

abbrev pub json_ids : List String → Items
json_ids [] = nil
json_ids (id ∷ ids) = item (string id) (json_ids ids)

unfoldable pub report_superseded : Option Superseded → String → Principal → String → Command Unit
report_superseded none id principal correlation = pure tt
report_superseded (some s) id principal correlation = do
  sequence ←
      emit_event
        (attention_event "AttentionHandlerLeaseSuperseded" s.attention principal none id correlation
          (object (
            field "revision" (number s.revision) (
              field "supersededByAttentionId" (string id)
                (field "revokedActivationIds" (array (json_ids s.activation_ids)) end)))))
        none
  record_attention_history s.attention.id sequence

abbrev pub is_unrevoked_of : String → Activation → Bool
is_unrevoked_of id a = is_for_attention a id && is_none a.revoked_at

abbrev pub lease_handler : String → String → ℕ → ℕ → Attention → Attention
lease_handler principal_id token expires_at revision attention = record attention {
  revision = revision;
  handler_lease_holder_principal_id = some principal_id;
  handler_lease_token = some token;
  handler_lease_expires_at = some expires_at;
}

-- what follows the checks of the Attention
unfoldable pub claim_at : Attention → ℕ → Principal → String → ℕ → Command CommandResult
claim_at attention duration principal correlation at = do
  check (is_over attention.handler_lease_expires_at at) (kernel_error conflict)
  token ← fresh "lease"
  superseded ← claim_attention_domain attention token (at + duration) at
  report_superseded superseded attention.id principal correlation
  change_activations (is_unrevoked_of attention.id) (revoke_for at "attention_lease_replaced")
  update_attention attention.id
      (lease_handler principal.id token (at + duration) (attention.revision + 1))
  sequence ←
      emit_event
        (attention_event "AttentionClaimed" attention principal none attention.message_revision_id
          correlation
          (object (
            field "revision" (number (attention.revision + 1))
              (field "expiresAt" (number (at + duration)) end))))
        none
  record_attention_history attention.id sequence
  pure (record (bare_result attention.id) {
    revision = some (attention.revision + 1);
    lease_expires_at = some (at + duration);
    handler_lease_token = some token;
  })

unfoldable pub claim_attention : String → ℕ → ℕ → Principal → String → Command CommandResult
claim_attention id expected_revision duration principal correlation = do
  require_kind principal is_runtime
  duration_ms ← bounded_duration duration
  attention ← require_attention id
  check (is_open attention.status) (kernel_error conflict)
  check (is_expected (some expected_revision) attention.revision) (kernel_error stale_revision)
  at ← now
  claim_at attention duration_ms principal correlation at

-- `!leaseToken`: no token, or an empty text
abbrev pub cached_token : Option String → Option String
cached_token none = none
cached_token (some token) = if str_eq token "" then none else some token

unfoldable pub resolve_cached_attention_claim : CommandResult → Principal → Command CommandResult
resolve_cached_attention_claim result principal = do
  token ← or_throw (cached_token result.handler_lease_token) (kernel_error conflict)
  attention ← require_attention result.entity_id
  check
      (is_open attention.status
        && is_text attention.handler_lease_holder_principal_id principal.id
        && is_text attention.handler_lease_token token
        && not (is_none attention.handler_lease_expires_at))
      (kernel_error conflict)
  at ← now
  check (not (is_over attention.handler_lease_expires_at at)) (kernel_error conflict)
  current ← is_attention_domain_lease_current attention token
  check current (kernel_error conflict)
  pure (record result { lease_expires_at = attention.handler_lease_expires_at })
