-- ===== src/Kernel/Attentions/Admitted.antt =====
-- packages/kernel/src/causal-limits.ts: what the admission of a Run has checked.
use torsor.Prelude.{
  ◌+◌, ◌≤◌, String, ◌≡◌, refl, sym, ap, ◌∙◌, subst, true, Option, none, some, List, ◌⊎◌, inl, inr,
  arith, str_eq, eq_iff, first_row, where_rows, length,
}
use torsor.Kernel.Action.{returned}
use torsor.Kernel.Action.Triples.{
  Triple, Triple-pure, Triple-check, Triple-next, Triple-weaken, Triple-returned,
}
use torsor.Kernel.Rows.{Attention, Run, CausalLimits, is_human, is_agent}
use torsor.Kernel.World.{World, Db}
use torsor.Kernel.ReadOnly.{Any, Same, Triple-read, Triple-row}
use torsor.Kernel.Activations.Validity.{require_run}
use torsor.Kernel.Runs.Events.{counts_for}
use torsor.Kernel.Runs.Ended.{first_row-test}
use torsor.Kernel.Attentions.Admission.{
  Source, Provenance, Admission, is_source_of, source_in, source_of, provenance_of,
  admit_run_from_attention,
}

-- A Human's Message starts a tree of its own; a Run's Message goes on below that Run.
abbrev pub Derives : Db → Attention → Source → Provenance → Type 0
Derives d a source v =
    ((is_human source.author_kind ≡ true)
      × (v.parent_run_id ≡ none)
      × (v.causal_root_id ≡ source.message.id)
      × (v.delegation_depth ≡ 0))
    ⊎ ((parent : Run) × ((is_agent source.author_kind ≡ true)
          × (first_row (λ r. str_eq r.id parent.id) d.runs ≡ some parent)
          × (v.parent_run_id ≡ some parent.id)
          × (is_source_of parent a source.message ≡ true)
          × (v.causal_root_id ≡ parent.causal_root_id)
          × (v.delegation_depth ≡ parent.delegation_depth + 1)))

-- The source Message is stored, the Run's place in the tree derives from it, and both limits hold.
pub record Admits (d : Db) (attention : Attention) (a : Admission) : Type 0 where
  pub source : Source
  pub limits : CausalLimits
  pub sent : source_in attention.message_revision_id d ≡ some source
  pub derived : Derives d attention source a.provenance
  pub limited : d.causal_limits ≡ some limits
  pub shallow : a.delegation_depth ≤ limits.max_depth
  pub counted :
      a.non_terminal_run_count ≡ length (where_rows (counts_for a.causal_root_id) d.runs) + 1
  pub room : a.non_terminal_run_count ≤ limits.max_non_terminal_runs_per_root

named :
    (id : String) (runs : List Run) (r : Run)
    → first_row (λ x. str_eq x.id id) runs ≡ some r
    → (first_row (λ x. str_eq x.id r.id) runs ≡ some r) × (r.id ≡ id)
named id runs r h =
    let same = (eq_iff r.id id).0 (first_row-test (λ x. str_eq x.id id) runs r h) in
    (subst (λ i. first_row (λ x. str_eq x.id i) runs ≡ some r) (sym same) h, same)

module _ (d : Db) (attention : Attention) where
  derive-Triple :
      (source : Source) (parent : Option String)
      → Triple Any
          (Same d)
          (provenance_of attention source parent)
          (λ v s. Same d s × Derives d attention source v)
  unfolding provenance_of require_run
  derive-Triple source none = Triple-next (Triple-check _ _ (λ s h. tt)) λ _ human.
      Triple-weaken (λ s h. h) (Triple-pure _)
        λ v s h. (h.0, subst (Derives d attention source) (sym h.1) (inl (human, refl, refl, refl)))
  derive-Triple source (some id) = Triple-next (Triple-check _ _ (λ s h. tt)) λ _ agent.
      Triple-next
        (Triple-next (Triple-read d (λ e. first_row (λ x. str_eq x.id id) e.runs))
          λ x x_eq. Triple-weaken (λ s h. h) (Triple-row d x _) (λ r s h. (h.0, sym x_eq ∙ h.1)))
        λ parent found. Triple-next (Triple-check _ _ (λ s h. tt)) λ _ matches.
          Triple-weaken (λ s h. h) (Triple-pure _)
            λ v s h. (
              h.0,
              subst (Derives d attention source) (sym h.1) (
                  inr (
                    parent,
                    (
                      agent,
                      (named id d.runs parent found).0,
                      ap some (sym (named id d.runs parent found).1),
                      matches,
                      refl,
                      refl,
                    ),
                  )),
            )

  pub admit-Triple :
      Triple Any
        (Same d)
        (admit_run_from_attention attention)
        (λ a s. Same d s × Admits d attention a)
  unfolding admit_run_from_attention source_of
  admit-Triple = Triple-next (Triple-read d (source_in attention.message_revision_id)) λ found f_eq.
      Triple-next (Triple-row d found _) λ source s_eq.
        Triple-next (derive-Triple source source.message.caused_by_run_id) λ v derived.
          Triple-next (Triple-read d (λ e. e.causal_limits)) λ limited l_eq.
            Triple-next (Triple-row d limited _) λ limits m_eq.
              Triple-next
                (Triple-read d (λ e. length (where_rows (counts_for v.causal_root_id) e.runs)))
                λ count c_eq. Triple-next (Triple-check _ _ (λ s h. tt)) λ _ shallow.
                  Triple-next (Triple-check _ _ (λ s h. tt)) λ _ room.
                    Triple-weaken (λ s h. h) (Triple-pure _)
                      λ a s h. (
                        h.0,
                        subst (Admits d attention) (sym h.1) (record {
                          source = source;
                          limits = limits;
                          sent = sym f_eq ∙ s_eq;
                          derived = derived;
                          limited = sym l_eq ∙ m_eq;
                          shallow = ground (arith, shallow);
                          counted = ap (λ n. n + 1) c_eq;
                          room = ground (arith, room);
                        }),
                      )

-- An admission that returns has read and not written; the source Message of the Attention is stored,
-- and either a Human wrote it for no Run, so that it is the causal root, at depth 0, or an Agent
-- wrote it for a stored Run of its own in the Attention's Project, Channel and Thread, whose causal
-- root is taken, one level deeper; the depth is within the limit, and the Runs of the root that have
-- not ended, with the new one, are within theirs.
pub admit_run_from_attention-Admits :
    (attention : Attention) (w w' : World) (a : Admission)
    → admit_run_from_attention attention w ≡ returned a w'
    → (w'.db ≡ w.db) × Admits w.db attention a
admit_run_from_attention-Admits attention w w' a h =
    Triple-returned (admit-Triple w.db attention) w refl h
