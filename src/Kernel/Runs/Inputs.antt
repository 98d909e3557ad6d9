-- ===== src/Kernel/Runs/Inputs.antt =====
-- packages/kernel/src/runs.ts: a new input of a Run.
use torsor.Prelude.{String, Option, none, [], ◌∷◌, ◌++◌}
use torsor.Kernel.Action.{pure, modify, ◌>>=◌, ◌>>◌}
use torsor.Kernel.Rows.{Run, RunInput, pending}
use torsor.Kernel.World.{Command, now, fresh}

-- createRunInput of runs.ts; the answer is the new row
unfoldable pub create_run_input :
    Run → String → String → Option String → Option String → Command RunInput
create_run_input run message_revision_id principal_id activation_id attention_id = do
  id ← fresh "run_input"
  at ← now
  let input : RunInput = record {
    id = id;
    run_id = run.id;
    message_revision_id = message_revision_id;
    run_input_sequence = run.next_input_sequence;
    assigned_by_principal_id = principal_id;
    assigned_by_activation_id = activation_id;
    source_attention_id = attention_id;
    created_at = at;
    disposition = pending;
    disposition_revision = 1;
    disposition_reason = none;
    superseded_by_run_input_id = none;
  }
  modify λ w. record w { db = record w.db { run_inputs = w.run_inputs ++ input ∷ [] } }
  pure input
