-- ===== src/Kernel/Transaction.antt =====
-- packages/kernel/src/kernel.ts: what a throw leaves in the database.
use torsor.Prelude.{if◌then◌else◌}
use torsor.Kernel.Action.{Outcome, returned, thrown}
use torsor.Kernel.World.{World, Command}

-- COMMIT, or ROLLBACK unless the error is durable. The readings of the clock and the names that
-- were drawn are not given back.
abbrev pub settle : {A : Type 0} → World → Outcome World A → Outcome World A
settle w (returned a w') = returned a w'
settle w (thrown e w') = thrown e (if e.durable then w' else record w' { db = w.db })

-- #writerCheck, and the frame of #executeTransaction
unfoldable pub transact : {A : Type 0} → Command A → Command A
transact body w = settle w (body w)
