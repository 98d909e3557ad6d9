-- ===== src/Kernel/Physical/Calm.antt =====
-- packages/kernel/src/physical-worktrees.ts: the statements of the check of the authority to write leave
-- the database and the clock as they are.
use torsor.Prelude.{
  ℕ, ◌+◌, ◌≤◌, String, ◌≡◌, refl, sym, ap, subst, ◌∙◌, Bool, true, false, Option, some, arith,
  str_eq, is_none, first_row,
}
use torsor.Kernel.Errors.{KernelError}
use torsor.Kernel.Action.{Outcome, returned, thrown, pure, gets, or_throw, check, ◌>>=◌}
use torsor.Kernel.Action.Triples.{
  Ends, Triple, Triple-pure, Triple-throw, Triple-gets, Triple-or_throw, Triple-check, Triple-bind,
  Triple-next, Triple-weaken, Triple-assume,
}
use torsor.Kernel.Rows.{
  Principal, Lease, Activation, Operation, write_probe, native_provider, Cause, for_run,
  for_attention,
}
use torsor.Kernel.World.{World, Db, now, fresh}
use torsor.Kernel.ReadOnly.{Any}
use torsor.Kernel.Leases.Authority.{LeaseAuthority, require_live_authority}
use torsor.Kernel.Leases.Authorized.{Authorizes, require_live_authority-Authorizes}
use torsor.Kernel.Activations.Validity.{
  Scope, Validity, live, dead, require_run, require_attention, require_activation,
  require_live_activation, load_scope_of, load_activation_scope_state, require_live, is_for_run,
  assert_activation_scope_current,
}
use torsor.Kernel.Physical.Authority.{
  require_source_activation, get_attempt, require_native_attempt,
}

-- an instant that the clock shows from this state on
abbrev pub Instant : World → ℕ → Type 0
Instant w at = (n : ℕ) × ((w.reads ≤ n) × (at ≡ w.clock n))

module _ (w : World) where
  -- the database, the clock and the revocations that the process knows of are as they were
  abbrev pub Calm : World → Type 0
  Calm s =
      (s.db ≡ w.db)
      × (s.clock ≡ w.clock)
      × (w.reads ≤ s.reads)
      × (s.local_worktree_revocations ≡ w.local_worktree_revocations)

  pub Calm-now : Triple Any Calm now (λ at s. Calm s × Instant w at)
  unfolding now
  Calm-now = record {
    at = λ s h. ((h.0, h.1, later s.reads h.2, h.3), (s.reads, (h.2, ap (λ f. f s.reads) h.1)));
  }
    where
      later : (n : ℕ) → w.reads ≤ n → w.reads ≤ n + 1
      later n h = omega arith

  pub Calm-fresh : (prefix : String) → Triple Any Calm (fresh prefix) (λ _. Calm)
  unfolding fresh
  Calm-fresh prefix = record { at = λ s h. h }

  pub Calm-pure : {A : Type 0} (a : A) → Triple Any Calm (pure a) (λ b s. Calm s × (b ≡ a))
  Calm-pure a = Triple-pure a

  Calm-check :
      (b : Bool) (e : KernelError) → Triple Any Calm (check b e) (λ _ s. Calm s × (b ≡ true))
  Calm-check b e = Triple-check b e (λ s h. tt)

  -- a query that must find something in the database
  pub Calm-find :
      {A : Type 0} (f : Db → Option A) (e : KernelError)
      → Triple Any Calm
          (gets (λ s. f s.db) >>= λ found. or_throw found e)
          (λ a s. Calm s × (f w.db ≡ some a))
  Calm-find f e = Triple-bind _ _ (Triple-gets _) λ found.
      Triple-weaken (λ s h. h) (Triple-or_throw found e (λ s h. tt))
        (λ a s h. (h.0.0, ap f (sym h.0.0.0) ∙ h.0.1 ∙ h.1))

  -- the state right after a reading of the clock, which showed this instant
  abbrev pub Observed : ℕ → World → Type 0
  Observed at s = Calm s × ((n : ℕ) × ((s.reads ≡ n + 1) × (w.reads ≤ n) × (at ≡ w.clock n)))

  pub Observed-now : Triple Any Calm now (λ at. Observed at)
  unfolding now
  Observed-now = record {
    at = λ s h.
        ((h.0, h.1, later s.reads h.2, h.3), (s.reads, (refl, h.2, ap (λ f. f s.reads) h.1)));
  }
    where
      later : (n : ℕ) → w.reads ≤ n → w.reads ≤ n + 1
      later n h = omega arith

  pub Observed-fresh :
      (prefix : String) (at : ℕ) → Triple Any (Observed at) (fresh prefix) (λ _. Observed at)
  unfolding fresh
  Observed-fresh prefix at = record { at = λ s h. h }

  pub Calm-authority :
      {P : World → Type 0}
      → ((s : World) → P s → Calm s)
      → (a : LeaseAuthority) (p : Principal) (at : ℕ) (correlation : String)
      → Triple Any P
          (require_live_authority a p at correlation)
          (λ l s. P s × ((w.leases a.worktree_id ≡ some l) × Authorizes a p at l))
  Calm-authority {P} calm a p at correlation = record {
    at = λ s h. authorized s h (require_live_authority a p at correlation s) refl;
  }
    where
      authorized :
          (s : World)
          → P s
          → (x : Outcome World Lease) → require_live_authority a p at correlation s ≡ x
          → Ends Any (λ l s. P s × ((w.leases a.worktree_id ≡ some l) × Authorizes a p at l)) x
      authorized s h (thrown e t) k = tt
      authorized s h (returned l t) k =
          let (z, same, found) = require_live_authority-Authorizes a p at correlation s k in
          (subst P (sym same) h, (ap (λ d. d.leases a.worktree_id) (sym (calm s h).0) ∙ found, z))

  pub Calm-native :
      (o : Operation) (id : String)
      → Triple Any Calm (require_native_attempt o id false) (λ _. Calm)
  unfolding require_native_attempt get_attempt
  Calm-native write_probe id = Triple-weaken (λ s h. h) (Triple-pure tt) (λ a s h. h.0)
  Calm-native (native_provider attempt mode) id =
      Triple-bind _ _ (Triple-weaken (λ s h. h) (Triple-gets _) (λ a s h. h.0))
        λ x. Triple-weaken (λ s h. h) (Calm-check _ _) (λ a s h. h.0)

  scope-Calm : (cause : Cause) → Triple Any Calm (load_scope_of cause) (λ _. Calm)
  unfolding load_scope_of require_run require_attention
  scope-Calm (for_run id generation) =
      Triple-next (Calm-find (λ d. first_row _ d.runs) _)
        λ run _. Triple-weaken (λ s h. h) (Triple-pure _) (λ a s h. h.0)
  scope-Calm (for_attention id token) =
      Triple-next (Calm-find (λ d. first_row _ d.attentions) _) λ attention _.
        Triple-bind _ _ (Triple-weaken (λ s h. h) (Triple-gets _) (λ a s h. h.0))
          λ fence. Triple-weaken (λ s h. h) (Triple-pure _) (λ a s h. h.0)

  live-Calm : (scope : Scope) (v : Validity) → Triple Any Calm (require_live scope v) (λ _. Calm)
  live-Calm scope live = Triple-weaken (λ s h. h) (Triple-pure tt) (λ a s h. h.0)
  live-Calm scope (dead reason) = Triple-throw _ (λ s h. tt)

  -- an Activation that has not finished and is for the Run
  abbrev pub SourceActivation : String → String → Type 0
  SourceActivation run_id id =
      (a : Activation) × ((first_row (λ x. str_eq x.id id) w.activations ≡ some a)
        × (is_none a.finished_at ≡ true)
        × (is_for_run a run_id ≡ true))

  pub source-Calm :
      (run_id id : String)
      → Triple Any Calm
          (require_source_activation run_id id)
          (λ _ s. Calm s × SourceActivation run_id id)
  unfolding require_source_activation require_live_activation require_activation
      assert_activation_scope_current load_activation_scope_state
  source-Calm run_id id =
      Triple-bind _ _
        (Triple-next (Calm-find (λ d. first_row (λ x. str_eq x.id id) d.activations) _) λ a found.
          Triple-next (Calm-check _ _) λ _ unfinished.
            Triple-weaken (λ s h. h) (Triple-pure a)
              (λ b s h. (h.0, subst (λ x. Unfinished x) (sym h.1) (found, unfinished))))
        λ a. Triple-assume λ facts. Triple-next (Calm-check _ _) λ _ own.
          Triple-bind _ _ (scope-Calm a.cause) λ scope. Triple-next Calm-now λ at _.
            Triple-weaken (λ s h. h) (live-Calm scope _)
              (λ _ s h. (h, (a, (facts.0, facts.1, own))))
    where
      Unfinished : Activation → Type 0
      Unfinished x =
          (first_row (λ y. str_eq y.id id) w.activations ≡ some x) × (is_none x.finished_at ≡ true)
