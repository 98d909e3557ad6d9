-- ===== src/Tests/Worlds.antt =====
-- packages/kernel/test: the rows and the worlds of the runs.
use torsor.Prelude.{
  [], ℕ, ◌+◌, String, refl, sym, subst, Option, none, some, List, str_eq, eq_iff, Bool-cases, inl,
  inr, arith, if◌then◌else◌,
}
use torsor.Kernel.Action.{Outcome, returned, thrown}
use torsor.Kernel.Rows.{Principal, runtime, Lease, active, released, OutboxEvent, null}
use torsor.Kernel.World.{World, Db, empty_db}
use torsor.Kernel.Leases.Sound.{IsSound, LeasesSound}

abbrev pub alice : Principal
alice = record { id = "alice"; kind = runtime }

abbrev pub bob : Principal
bob = record { id = "bob"; kind = runtime }

-- The clock shows 100 at first, and one more at each reading.
abbrev pub world_of : Db → World
world_of db = record {
  db = db;
  clock = λ n. 100 + n;
  reads = 0;
  names = λ prefix n. prefix;
  issued = 0;
  local_worktree_revocations = [];
}

-- the result of a command, where it returned
abbrev pub result_or : {A : Type 0} → A → Outcome World A → A
result_or a (returned b w) = b
result_or a (thrown e w) = a

-- alice's lease, until 500
abbrev pub alice_lease : Lease
alice_lease = record {
  worktree_id = "wt";
  revision = 1;
  generation = 1;
  fencing_token = 1;
  status = active;
  holder_principal_id = some "alice";
  lease_token = some "secret";
  acquired_at = some 50;
  renewed_at = none;
  expires_at = some 500;
  released_at = none;
  quarantine_reason = none;
  quarantine_token = none;
  quarantine_evidence = none;
  quarantined_at = none;
  quarantine_resolved_at = none;
  quarantine_resolution = none;
  updated_at = 50;
}

abbrev pub lapsed_lease : Lease
lapsed_lease = record alice_lease { expires_at = some 90 }

abbrev pub released_lease : Lease
released_lease = record alice_lease {
  revision = 2;
  status = released;
  holder_principal_id = none;
  lease_token = none;
  expires_at = none;
  released_at = some 60;
}

abbrev pub table_with : Lease → String → Option Lease
table_with lease id = if str_eq id "wt" then some lease else none

abbrev pub world_with : Lease → World
world_with lease = world_of (record empty_db { leases = table_with lease })

pub table_with-LeasesSound : (l : Lease) → IsSound "wt" l → LeasesSound (table_with l)
table_with-LeasesSound l s id = elim (Bool-cases (str_eq id "wt")) [
  | inl e ↦ rw e (subst (λ k. IsSound k l) (sym ((eq_iff id "wt").0 e)) s)
  | inr e ↦ rw e tt
]

pub alice_lease-IsSound : IsSound "wt" alice_lease
alice_lease-IsSound = record {
  keyed = refl;
  revised = omega arith;
  fenced = omega arith;
  checks = (omega arith, refl, refl, refl, refl, refl, refl, refl, refl, refl, refl, refl);
}

pub lapsed_lease-IsSound : IsSound "wt" lapsed_lease
lapsed_lease-IsSound = record {
  keyed = refl;
  revised = omega arith;
  fenced = omega arith;
  checks = (omega arith, refl, refl, refl, refl, refl, refl, refl, refl, refl, refl, refl);
}

pub released_lease-IsSound : IsSound "wt" released_lease
released_lease-IsSound = record {
  keyed = refl;
  revised = omega arith;
  fenced = omega arith;
  checks = (refl, refl, refl, refl, refl, refl, refl, refl);
}

-- An event of the queue, named by its id.
abbrev pub event_at : ℕ → String → OutboxEvent
event_at sequence id = record {
  sequence = sequence;
  id = id;
  topic = "run.activation-requested";
  aggregate_type = "Run";
  aggregate_id = "run";
  payload = null;
  delivery_attempts = 0;
  lease_holder_principal_id = none;
  lease_token = none;
  lease_expires_at = none;
  created_at = 1;
  acknowledged_at = none;
  acknowledged_by_principal_id = none;
}

abbrev pub done_event : OutboxEvent
done_event = record (event_at 1 "e1") {
  acknowledged_at = some 5;
  acknowledged_by_principal_id = some "alice";
}

abbrev pub leased_event : OutboxEvent
leased_event = record (event_at 2 "e2") {
  delivery_attempts = 1;
  lease_holder_principal_id = some "alice";
  lease_token = some "secret";
  lease_expires_at = some 500;
}

abbrev pub outbox_world : List OutboxEvent → World
outbox_world events = world_of (record empty_db { outbox_events = events })
