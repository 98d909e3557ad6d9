-- ===== src/Tests/AttentionRuns.antt =====
-- packages/kernel/src/attentions.ts: claims of an Attention and decisions on it.
use torsor.Prelude.{
  ◌≤◌, ◌<◌, ◌+◌, subst, ◌≡◌, refl, Bool, false, true, Option, none, some, [], ◌∷◌, arith, first_row,
  where_rows, update_rows, any_row, is_blank, is_space, length, if◌then◌else◌,
}
use torsor.Kernel.Action.{returned, final, for_each, ◌>>=◌}
use torsor.Kernel.Rows.{
  Principal, human, agent, Attention, open_attention, DomainFence, Activation, for_attention,
  CausalLimits, Message, MessageRevision,
}
use torsor.Kernel.World.{World, Db, now, fresh, empty_db}
use torsor.Kernel.Results.{CommandResult, bare_result}
use torsor.Kernel.Guards.{require_kind}
use torsor.Kernel.Outbox.Rows.{enqueue_outbox}
use torsor.Kernel.Activations.Validity.{
  attention_validity, activation_validity_at, require_run, require_attention, require_activation,
  require_live_activation, load_scope_of, load_activation_scope_state,
  assert_activation_scope_current,
}
use torsor.Kernel.Activations.Actors.{require_agent_for_principal}
use torsor.Kernel.Runs.Events.{
  require_thread, emit_event, emit_thread_event, mark_activation_change,
}
use torsor.Kernel.Runs.Commands.{update_run}
use torsor.Kernel.Runs.Inputs.{create_run_input}
use torsor.Kernel.Attentions.Rows.{update_attention, record_attention_history, change_activations}
use torsor.Kernel.Attentions.Domains.{
  Superseded, is_domain_of, is_attention_domain_lease_current, assert_attention_lease,
  supersede_previous, supersede_other, take_over, claim_domain_of, claim_attention_domain,
  release_attention_domain_lease,
}
use torsor.Kernel.Attentions.Commands.{
  report_superseded, claim_at, claim_attention, resolve_cached_attention_claim,
}
use torsor.Kernel.Attentions.Admission.{
  Admission, source_in, source_of, provenance_of, admit_run_from_attention,
}
use torsor.Kernel.Attentions.Decisions.{
  require_attention_decision_context, finish_attention_activation, close_attention,
  ignore_attention,
}
use torsor.Kernel.Attentions.Resolutions.{insert_run, create_run_at, resolve_attention_with_run}
use torsor.Kernel.Attentions.Dispatch.{claims, ignores, dispatch_attention}
use torsor.Kernel.Attentions.Owned.{Owns, claim_attention_domain-Owns}
use torsor.Kernel.Attentions.Fences.{Exclusive}
use torsor.Kernel.Attentions.Exclusive.{dispatch_attention-Exclusive}
use torsor.Kernel.Attentions.Limits.{Limited, resolve_attention_with_run-Limited}
use torsor.Kernel.Attentions.Admitted.{Admits, admit_run_from_attention-Admits}
use torsor.Kernel.Attentions.Decided.{DecidedBy, dispatch_attention-Decided}
use torsor.Kernel.Attentions.Claimed.{Placed}
use torsor.Kernel.Attentions.Answered.{PlacedAt, Claimed, claim_attention-Claims}
use torsor.Kernel.Attentions.Repeated.{claim_attention-resolve_cached}
use torsor.Tests.Worlds.{alice, world_of, result_or}

abbrev pub owner : Principal
owner = record { id = "owner"; kind = human }

abbrev worker : Principal
worker = record { id = "worker"; kind = agent }

abbrev attention : Attention
attention = record {
  id = "att";
  target_agent_id = "agent";
  project_id = "project";
  channel_id = "channel";
  thread_root_id = "thread";
  message_revision_id = "rev";
  status = open_attention;
  revision = 1;
  handler_lease_holder_principal_id = none;
  handler_lease_token = none;
  handler_lease_expires_at = none;
  resolution_outcome = none;
  resolved_by_principal_id = none;
  resolved_activation_id = none;
  resolved_run_id = none;
  resolved_at = none;
}

-- an older Attention of the domain, whose lease has lapsed
abbrev older : Attention
older = record attention {
  id = "old";
  handler_lease_holder_principal_id = some "alice";
  handler_lease_token = some "past";
  handler_lease_expires_at = some 90;
}

abbrev old_fence : DomainFence
old_fence = record {
  agent_id = "agent";
  project_id = "project";
  channel_id = "channel";
  thread_root_id = "thread";
  attention_id = "old";
  lease_token = some "past";
  lease_expires_at = some 90;
  unsettled_provider_attempt_count = 0;
}

abbrev message : Message
message = record {
  id = "msg";
  project_id = "project";
  channel_id = "channel";
  thread_root_id = "thread";
  reply_to_message_id = none;
  author_principal_id = "owner";
  author_agent_id = none;
  caused_by_attention_id = none;
  caused_by_run_id = none;
  thread_sequence = 1;
  latest_revision = 1;
  created_at = 1;
}

abbrev revision : MessageRevision
revision = record {
  id = "rev";
  message_id = "msg";
  revision = 1;
  body = "please";
  tombstone = false;
  created_at = 1;
}

abbrev handling : Activation
handling = record {
  id = "h1";
  agent_id = "agent";
  cause = for_attention "att" "lease";
  config_revision = 1;
  started_at = 90;
  expires_at = 1000;
  revoked_at = none;
  revocation_reason = none;
  finished_at = none;
  outcome = none;
  detail = none;
}

abbrev open_db : Db
open_db = record empty_db {
  principals = alice ∷ owner ∷ worker ∷ [];
  attentions = older ∷ attention ∷ [];
  fences = old_fence ∷ [];
  messages = message ∷ [];
  message_revisions = revision ∷ [];
  agents =
      record {
        id = "agent";
        principal_id = "worker";
        project_id = "project";
        current_config_revision = 1;
      }
      ∷ [];
  threads =
      record {
        root_message_id = "thread";
        project_id = "project";
        channel_id = "channel";
        cursor = 4;
      }
      ∷ [];
  causal_limits = some (record { max_depth = 4; max_non_terminal_runs_per_root = 50 });
}

abbrev pub open_world : World
open_world = world_of open_db

-- the Attention once it is claimed, with an Activation that handles it
abbrev handled_world : World
handled_world = world_of (record open_db {
  attentions =
      record attention {
        handler_lease_holder_principal_id = some "alice";
        handler_lease_token = some "lease";
        handler_lease_expires_at = some 900;
      }
      ∷ [];
  fences =
      record old_fence {
        attention_id = "att";
        lease_token = some "lease";
        lease_expires_at = some 900;
      }
      ∷ [];
  activations = handling ∷ [];
})

-- opens what the commands are made of
unfoldable pub attention_code : Unit {0}
unfolding require_kind enqueue_outbox attention_validity activation_validity_at require_run
    require_attention require_activation require_live_activation load_scope_of
    load_activation_scope_state assert_activation_scope_current require_agent_for_principal
    require_thread emit_event emit_thread_event mark_activation_change update_run create_run_input
    update_attention record_attention_history change_activations is_attention_domain_lease_current
    assert_attention_lease supersede_previous supersede_other take_over claim_domain_of
    claim_attention_domain release_attention_domain_lease report_superseded claim_at claim_attention
    resolve_cached_attention_claim source_in source_of provenance_of admit_run_from_attention
    require_attention_decision_context finish_attention_activation close_attention ignore_attention
    insert_run create_run_at resolve_attention_with_run dispatch_attention now fresh first_row
    where_rows update_rows any_row is_blank is_space for_each ◌>>=◌
attention_code = tt

claimed_world : World
claimed_world = final (claim_attention "att" 1 1000 alice "c" open_world)

claimed_result : CommandResult
claimed_result = result_or (bare_result "") (claim_attention "att" 1 1000 alice "c" open_world)

claim_returns :
    claim_attention "att" 1 1000 alice "c" open_world ≡ returned claimed_result claimed_world
unfolding claimed_world claimed_result attention_code
claim_returns = refl

claim_dispatched :
    dispatch_attention (claims "att" 1 1000) alice none "c" open_world
    ≡ returned claimed_result claimed_world
unfolding claimed_world claimed_result attention_code
claim_dispatched = refl

domain_world : World
domain_world = final (claim_attention_domain attention "lease" 900 100 open_world)

domain_result : Option Superseded
domain_result = result_or none (claim_attention_domain attention "lease" 900 100 open_world)

domain_returns :
    claim_attention_domain attention "lease" 900 100 open_world
    ≡ returned domain_result domain_world
unfolding domain_world domain_result attention_code
domain_returns = refl

claim_attention_domain-Owns_example :
    Owns attention "lease" 900 100 (old_fence ∷ []) domain_world.fences
claim_attention_domain-Owns_example =
    claim_attention_domain-Owns attention "lease" 900 100 open_world domain_world domain_result
      domain_returns

one_fence : Exclusive (old_fence ∷ [])
unfolding where_rows
one_fence a = few (is_domain_of a old_fence)
  where
    few : (b : Bool) → length (if b then old_fence ∷ [] else []) ≤ 1
    few true = omega arith
    few false = omega arith

dispatch_attention-Exclusive_example : Exclusive claimed_world.fences
dispatch_attention-Exclusive_example =
    dispatch_attention-Exclusive (claims "att" 1 1000) alice none "c" open_world claimed_world
      claimed_result one_fence claim_dispatched

placed : PlacedAt "att" open_world
unfolding first_row
placed a h = subst (λ x. Placed x (old_fence ∷ [])) (same h) (λ _. refl, tt)
  where
    same : some attention ≡ some a → attention ≡ a
    same k = cc

claim_attention-Claims_example : Claimed "att" 1 1000 alice open_world claimed_result claimed_world
claim_attention-Claims_example =
    claim_attention-Claims "att" 1 1000 alice "c" open_world claimed_world claimed_result placed
      claim_returns

expiry_told : claimed_result.lease_expires_at ≡ some 1100
unfolding claimed_result attention_code
expiry_told = refl

token_told : claimed_result.handler_lease_token ≡ some "lease"
unfolding claimed_result attention_code
token_told = refl

still_live : claimed_world.clock claimed_world.reads < 1100
unfolding claimed_world attention_code
still_live = omega arith

claim_attention-resolve_cached_example :
    resolve_cached_attention_claim claimed_result alice claimed_world
    ≡ returned claimed_result (record claimed_world { reads = claimed_world.reads + 1 })
claim_attention-resolve_cached_example =
    claim_attention-resolve_cached "att" 1 1000 alice "c" open_world claimed_world claimed_result
      1100 placed claim_returns expiry_told still_live (λ e. cc (token_told, e))

ignored_world : World
ignored_world = final (
    dispatch_attention (ignores "att" 1 "lease" "nothing to do") worker (some "h1") "c"
      handled_world)

ignored_result : CommandResult
ignored_result = result_or (bare_result "") (
    dispatch_attention (ignores "att" 1 "lease" "nothing to do") worker (some "h1") "c"
      handled_world)

ignore_returns :
    dispatch_attention
      (ignores "att" 1 "lease" "nothing to do")
      worker
      (some "h1")
      "c"
      handled_world
    ≡ returned ignored_result ignored_world
unfolding ignored_world ignored_result attention_code
ignore_returns = refl

dispatch_attention-Decided_example :
    DecidedBy (ignores "att" 1 "lease" "nothing to do") (some "h1") ignored_world
dispatch_attention-Decided_example =
    dispatch_attention-Decided (ignores "att" 1 "lease" "nothing to do") worker (some "h1") "c"
      handled_world ignored_world ignored_result ignore_returns

run_world : World
run_world = final (resolve_attention_with_run "att" 1 "lease" worker (some "h1") "c" handled_world)

run_result : CommandResult
run_result =
    result_or (bare_result "")
      (resolve_attention_with_run "att" 1 "lease" worker (some "h1") "c" handled_world)

run_returns :
    resolve_attention_with_run "att" 1 "lease" worker (some "h1") "c" handled_world
    ≡ returned run_result run_world
unfolding run_world run_result attention_code
run_returns = refl

no_runs : (limits : Option CausalLimits) → Limited limits []
unfolding where_rows
no_runs limits = record { rooted = λ l e root. omega arith; deep = λ l e. tt }

resolve_attention_with_run-Limited_example : Limited run_world.causal_limits run_world.runs
resolve_attention_with_run-Limited_example =
    resolve_attention_with_run-Limited "att" 1 "lease" worker (some "h1") "c" handled_world
      run_world run_result (no_runs _) run_returns

admitted_world : World
admitted_world = final (admit_run_from_attention attention open_world)

no_admission : Admission
no_admission = record {
  provenance = record { causal_root_id = ""; parent_run_id = none; delegation_depth = 0 };
  max_depth = 0;
  max_non_terminal_runs_per_root = 0;
  non_terminal_run_count = 0;
}

admission : Admission
admission = result_or no_admission (admit_run_from_attention attention open_world)

admit_returns : admit_run_from_attention attention open_world ≡ returned admission admitted_world
unfolding admitted_world admission attention_code
admit_returns = refl

admit_run_from_attention-Admits_example :
    (admitted_world.db ≡ open_world.db) × Admits open_world.db attention admission
admit_run_from_attention-Admits_example =
    admit_run_from_attention-Admits attention open_world admitted_world admission admit_returns
