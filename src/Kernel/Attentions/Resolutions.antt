-- ===== src/Kernel/Attentions/Resolutions.antt =====
-- packages/kernel/src/attentions.ts: to resolve an Attention with a new Run, or with one that exists.
use torsor.Prelude.{ℕ, ◌+◌, String, Bool, not, ◌&&◌, Option, none, some, [], ◌∷◌, ◌++◌, str_eq}
use torsor.Kernel.Errors.{kernel_error, forbidden, stale_revision, terminal_run}
use torsor.Kernel.Action.{pure, check, modify, ◌>>=◌, ◌>>◌}
use torsor.Kernel.Rows.{
  Principal, Attention, resolved, Run, active_run, is_terminal_run_state, Json, string, number,
  null, object, field, end, Fields,
}
use torsor.Kernel.World.{Command, now, fresh}
use torsor.Kernel.Results.{CommandResult, bare_result}
use torsor.Kernel.Outbox.Rows.{enqueue_outbox}
use torsor.Kernel.Activations.Validity.{require_run}
use torsor.Kernel.Activations.Actors.{is_expected}
use torsor.Kernel.Runs.Events.{EventInput, emit_event, emit_thread_event}
use torsor.Kernel.Runs.Commands.{update_run}
use torsor.Kernel.Attentions.Rows.{record_attention_history}
use torsor.Kernel.Attentions.Commands.{attention_event}
use torsor.Kernel.Attentions.Admission.{Admission, admit_run_from_attention}
use torsor.Kernel.Runs.Inputs.{create_run_input}
use torsor.Kernel.Attentions.Decisions.{
  Decider, require_attention_decision_context, finish_attention_activation, close_attention,
}

abbrev pub new_run : String → Decider → Admission → ℕ → Run
new_run id decider admission at = record {
  id = id;
  project_id = decider.attention.project_id;
  home_channel_id = decider.attention.channel_id;
  thread_root_id = decider.attention.thread_root_id;
  owner_agent_id = decider.agent.id;
  agent_config_revision = decider.agent.current_config_revision;
  causal_root_id = admission.causal_root_id;
  parent_attention_id = decider.attention.id;
  parent_run_id = admission.parent_run_id;
  delegation_depth = admission.delegation_depth;
  state = active_run;
  revision = 1;
  activation_generation = 0;
  next_input_sequence = 1;
  next_activity_sequence = 1;
  created_at = at;
  updated_at = at;
  terminal_reason = none;
}

abbrev pub json_or_null : Option String → Json
json_or_null none = null
json_or_null (some id) = string id

abbrev pub admission_fields : Admission → Decider → Fields
admission_fields a decider = field "causalRootId" (string a.causal_root_id) (
    field "maxDepth" (number a.max_depth) (
      field "maxNonTerminalRunsPerRoot" (number a.max_non_terminal_runs_per_root) (
        field "nonTerminalRunCount" (number a.non_terminal_run_count) (
          field "parentAttentionId" (string decider.attention.id) (
            field "parentRunId" (json_or_null a.parent_run_id)
              (field "delegationDepth" (number a.delegation_depth) end))))))

-- INSERT INTO runs
unfoldable pub insert_run : Run → Command Unit
insert_run run = modify λ w. record w { db = record w.db { runs = w.runs ++ run ∷ [] } }

abbrev pub run_event : String → String → String → Decider → Principal → String → Json → EventInput
run_event type entity_type entity_id decider principal correlation payload = record {
  type = type;
  project_id = decider.attention.project_id;
  channel_id = decider.attention.channel_id;
  thread_root_id = decider.attention.thread_root_id;
  entity_type = entity_type;
  entity_id = entity_id;
  actor_principal_id = principal.id;
  activation_id = some decider.activation.id;
  causation_id = some decider.attention.id;
  correlation_id = correlation;
  payload = payload;
}

-- what follows the decision's context and the admission
unfoldable pub create_run_at : Decider → Admission → Principal → String → Command CommandResult
create_run_at decider admission principal correlation = do
  run_id ← fresh "run"
  at ← now
  insert_run (new_run run_id decider admission at)
  run ← require_run run_id
  input ←
      create_run_input run decider.attention.message_revision_id principal.id
        (some decider.activation.id) (some decider.attention.id)
  finish_attention_activation decider.activation.id at "attention_resolved"
  update_run run_id (λ r. record r { next_input_sequence = 2 })
  close_attention decider resolved "RunCreated" (some run_id) principal at
  cursor ← emit_thread_event (
      run_event "RunCreated" "Run" run_id decider principal correlation (
        object (
          field "state" (string "Active")
            (field "ownerAgentId" (string decider.agent.id) (admission_fields admission decider)))))
  sequence ←
      emit_event
        (attention_event "AttentionResolved" decider.attention principal
          (some decider.activation.id) decider.attention.message_revision_id correlation
          (object (
            field "outcome" (string "RunCreated") (
              field "revision" (number (decider.attention.revision + 1))
                (field "runId" (string run_id) (field "runInputId" (string input.id) end))))))
        none
  record_attention_history decider.attention.id sequence
  enqueue_outbox "run.activation-requested" "Run" run_id (
      object (
        field "runInputId" (string input.id)
          (field "sourceAttentionId" (string decider.attention.id) end)))
  pure (record (bare_result run_id) { revision = some 1; thread_cursor = some cursor })

unfoldable pub resolve_attention_with_run :
    String → ℕ → String → Principal → Option String → String → Command CommandResult
resolve_attention_with_run id expected_revision token principal context correlation = do
  decider ← require_attention_decision_context id expected_revision token principal context
  admission ← admit_run_from_attention decider.attention
  create_run_at decider admission principal correlation

abbrev pub is_home_of : Run → Attention → Bool
is_home_of run attention =
    str_eq run.project_id attention.project_id
    && str_eq run.home_channel_id attention.channel_id
    && str_eq run.thread_root_id attention.thread_root_id

-- what follows the decision's context and the checks of the Run
unfoldable pub continue_run_at : Decider → Run → Principal → String → Command CommandResult
continue_run_at decider run principal correlation = do
  at ← now
  input ←
      create_run_input run decider.attention.message_revision_id principal.id
        (some decider.activation.id) (some decider.attention.id)
  update_run run.id (λ r. record r {
    revision = run.revision + 1;
    next_input_sequence = input.run_input_sequence + 1;
    updated_at = at;
  })
  finish_attention_activation decider.activation.id at "attention_resolved_with_existing_run"
  close_attention decider resolved "ExistingRunContinued" (some run.id) principal at
  cursor ← emit_thread_event (
      run_event "RunInputAdded" "RunInput" input.id decider principal correlation (
        object (
          field "runId" (string run.id) (
            field "sequence" (number input.run_input_sequence) (
              field "runRevision" (number (run.revision + 1))
                (field "sourceAttentionId" (string decider.attention.id) end))))))
  sequence ←
      emit_event
        (attention_event "AttentionResolved" decider.attention principal
          (some decider.activation.id) decider.attention.message_revision_id correlation
          (object (
            field "outcome" (string "ExistingRunContinued") (
              field "revision" (number (decider.attention.revision + 1)) (
                field "runId" (string run.id) (
                  field "runInputId" (string input.id)
                    (field "runRevision" (number (run.revision + 1)) end)))))))
        none
  record_attention_history decider.attention.id sequence
  enqueue_outbox "run-input.available" "Run" run.id (
      object (
        field "runInputId" (string input.id) (
          field "runRevision" (number (run.revision + 1))
            (field "sourceAttentionId" (string decider.attention.id) end))))
  pure (record (bare_result run.id) {
    revision = some (run.revision + 1);
    thread_cursor = some cursor;
  })

unfoldable pub resolve_attention_with_existing_run :
    String → ℕ → String → String → ℕ → Principal → Option String → String → Command CommandResult
resolve_attention_with_existing_run id expected_revision token run_id expected_run principal context
      correlation =
    do
      decider ← require_attention_decision_context id expected_revision token principal context
      run ← require_run run_id
      check (str_eq run.owner_agent_id decider.agent.id) (kernel_error forbidden)
      check (is_home_of run decider.attention) (kernel_error forbidden)
      check (not (is_terminal_run_state run.state)) (kernel_error terminal_run)
      check (is_expected (some expected_run) run.revision) (kernel_error stale_revision)
      continue_run_at decider run principal correlation
