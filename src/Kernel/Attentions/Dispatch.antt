-- ===== src/Kernel/Attentions/Dispatch.antt =====
-- packages/kernel/src/kernel.ts: the commands on Attentions, as #dispatchCommand calls them.
use torsor.Prelude.{ℕ, String, Option}
use torsor.Kernel.Rows.{Principal}
use torsor.Kernel.World.{Command}
use torsor.Kernel.Results.{CommandResult}
use torsor.Kernel.Attentions.Commands.{claim_attention}
use torsor.Kernel.Attentions.Decisions.{ignore_attention}
use torsor.Kernel.Attentions.Resolutions.{
  resolve_attention_with_run, resolve_attention_with_existing_run,
}

-- the id, the expected revision, and the other fields of each command
pub data AttentionCommand : Type 0 where
  claims : String → ℕ → ℕ → AttentionCommand
  resolves_with_run : String → ℕ → String → AttentionCommand
  ignores : String → ℕ → String → String → AttentionCommand
  resolves_with_existing_run : String → ℕ → String → String → ℕ → AttentionCommand

unfoldable pub dispatch_attention :
    AttentionCommand → Principal → Option String → String → Command CommandResult
dispatch_attention (claims id revision duration) p context correlation =
    claim_attention id revision duration p correlation
dispatch_attention (resolves_with_run id revision token) p context correlation =
    resolve_attention_with_run id revision token p context correlation
dispatch_attention (ignores id revision token reason) p context correlation =
    ignore_attention id revision token reason p context correlation
dispatch_attention (resolves_with_existing_run id revision token run_id run_revision) p context
      correlation =
    resolve_attention_with_existing_run id revision token run_id run_revision p context correlation
