-- ===== src/Kernel/Errors.antt =====
-- packages/kernel/src/errors.ts.
use mathlib.Core.Bool.{Bool, true, false}

-- The codes of `KernelError`; `internal` is a plain `Error`, thrown where stored state is corrupt.
pub data Code : Type 0 where
  not_found unauthorized forbidden invalid_command conflict domain_busy : Code
  writer_authority_lost causal_limit_exceeded stale_revision : Code
  conditional_check_failed terminal_run pending_run_inputs internal : Code

-- `durable` tells a `DurableKernelError`, whose writes are committed, from a plain one.
pub record KernelError : Type 0 where
  pub code : Code
  pub durable : Bool

abbrev pub kernel_error : Code → KernelError
kernel_error c = record { code = c; durable = false }

abbrev pub durable_kernel_error : Code → KernelError
durable_kernel_error c = record { code = c; durable = true }
