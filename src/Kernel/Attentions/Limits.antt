-- ===== src/Kernel/Attentions/Limits.antt =====
-- packages/kernel/src/causal-limits.ts: the commands on Attentions keep the limits on causal trees.
use torsor.Prelude.{
  ℕ, ◌+◌, ◌≤◌, ◌<◌, String, ◌≡◌, refl, sym, ◌∙◌, Bool, true, false, ◌&&◌, Option, some, List, [],
  ◌∷◌, ◌++◌, inl, inr, arith, str_eq, eq_iff, and_true, subst, length, All, where_rows, update_rows,
  Bool-cases, leb, ltb, if◌then◌else◌,
}
use torsor.Kernel.Action.{returned}
use torsor.Kernel.Action.Triples.{
  Triple, Triple-gets, Triple-modify, Triple-bind, Triple-weaken, Triple-returned, Triple-pure,
  Triple-check, Triple-or_throw,
}
use torsor.Kernel.Rows.{Attention, AttentionStatus, Run, CausalLimits, Principal}
use torsor.Kernel.World.{World}
use torsor.Kernel.Results.{CommandResult}
use torsor.Kernel.ReadOnly.{Any}
use torsor.Kernel.Runs.Events.{counts_for}
use torsor.Kernel.Attentions.Domains.{release_attention_domain_lease}
use torsor.Kernel.Attentions.Admission.{Admission, Provenance, source_of, admit_run_from_attention}
use torsor.Kernel.Attentions.Decisions.{Decider, finish_attention_activation, close_attention}
use torsor.Kernel.Attentions.Resolutions.{insert_run, new_run, resolve_attention_with_run}
use torsor.Kernel.Attentions.Frames.{On, Frame-gets, Frame-pure, Frame-or_throw}
use torsor.Kernel.Attentions.Steps.{
  Step-context, Change-attention, Change-activations, provenance-Step,
}
use torsor.Kernel.Attentions.Owned.{where_rows-append, append-nil}
use torsor.Kernel.Attentions.Stages.{Rows, KeepsRuns, Stage-create}

abbrev pub active_of : String → List Run → ℕ
active_of root runs = length (where_rows (counts_for root) runs)

-- No causal root has more Runs that have not ended than the limit, and no Run is deeper than it.
pub record Limited (limits : Option CausalLimits) (runs : List Run) : Type 0 where
  pub rooted :
      (l : CausalLimits)
      → limits ≡ some l
      → (root : String) → active_of root runs ≤ l.max_non_terminal_runs_per_root
  pub deep : (l : CausalLimits) → limits ≡ some l → All (λ r. r.delegation_depth ≤ l.max_depth) runs

abbrev pub InLimits : Rows
InLimits attentions fences activations runs limits = Limited limits runs

-- and there is room for the Run that was admitted
abbrev Room : Admission → Rows
Room a attentions fences activations runs limits =
    Limited limits runs
    × ((l : CausalLimits)
        → limits ≡ some l
        → (active_of a.causal_root_id runs < l.max_non_terminal_runs_per_root)
          × (a.delegation_depth ≤ l.max_depth))

All-append :
    {A : Type 0} (P : A → Type 0) (xs : List A) (y : A) → All P xs → P y → All P (xs ++ y ∷ [])
All-append P [] y h k = (k, tt)
All-append P (x ∷ xs) y h k = (h.0, All-append P xs y h.1 k)

length-append_one : {A : Type 0} (xs : List A) (y : A) → length (xs ++ y ∷ []) ≡ length xs + 1
length-append_one [] y = omega arith
length-append_one (x ∷ xs) y = omega (arith, length-append_one xs y)

changed-counts :
    (id : String) (f : Run → Run)
    → ((r : Run) → (f r).state ≡ r.state)
    → ((r : Run) → (f r).causal_root_id ≡ r.causal_root_id)
    → (root : String) (b : Bool) (r : Run)
    → counts_for root (if b then f r else r) ≡ counts_for root r
changed-counts id f k l root true r = rw (k r, l r) refl
changed-counts id f k l root false r = refl

update_rows-same :
    (id : String) (f : Run → Run)
    → ((r : Run) → (f r).state ≡ r.state)
    → ((r : Run) → (f r).causal_root_id ≡ r.causal_root_id)
    → (root : String) (runs : List Run)
    → active_of root (update_rows (λ r. str_eq r.id id) f runs) ≡ active_of root runs
unfolding where_rows update_rows
update_rows-same id f k l root [] = refl
update_rows-same id f k l root (r ∷ rs) =
    ground
      (arith, changed-counts id f k l root (str_eq r.id id) r, update_rows-same id f k l root rs)

update_rows-deep :
    (id : String) (f : Run → Run) (d : ℕ)
    → ((r : Run) → (f r).delegation_depth ≡ r.delegation_depth)
    → (runs : List Run) → All (λ r. r.delegation_depth ≤ d) runs
    → All (λ r. r.delegation_depth ≤ d) (update_rows (λ r. str_eq r.id id) f runs)
unfolding update_rows
update_rows-deep id f d k [] h = tt
update_rows-deep id f d k (r ∷ rs) h = (changed (str_eq r.id id), update_rows-deep id f d k rs h.1)
  where
    changed : (b : Bool) → (if b then f r else r).delegation_depth ≤ d
    changed true = rw (k r) h.0
    changed false = h.0

added-rooted :
    (root : String) (runs : List Run) (n : Run) (max : ℕ)
    → active_of root runs ≤ max
    → (counts_for root n ≡ true → active_of root runs < max)
    → active_of root (runs ++ n ∷ []) ≤ max
added-rooted root runs n max h k =
    rw (where_rows-append (counts_for root) runs n) (elim (Bool-cases (counts_for root n)) [
      | inl e ↦ rw e (omega (arith, length-append_one (where_rows (counts_for root) runs) n, k e))
      | inr e ↦ rw (e, append-nil (where_rows (counts_for root) runs)) h
    ])

room_at :
    (a : Admission) (root : String) (runs : List Run) (max : ℕ)
    → active_of a.causal_root_id runs < max
    → (str_eq a.causal_root_id root && true) ≡ true
    → active_of root runs < max
room_at a root runs max h e =
    let same = (eq_iff a.causal_root_id root).0 (and_true _ _ e).0 in
    subst (λ i. active_of i runs < max) same h

KeepsRuns-InLimits : KeepsRuns InLimits
KeepsRuns-InLimits id f k l m s h = record {
  rooted = λ x e root. omega (arith, update_rows-same id f k l root s.runs, h.rooted x e root);
  deep = λ x e. update_rows-deep id f x.max_depth m s.runs (h.deep x e);
}

insert-InLimits :
    (d : Decider) (a : Admission) (run_id : String) (at : ℕ)
    → Triple Any (On (Room a)) (insert_run (new_run run_id d a at)) (λ _. On InLimits)
unfolding insert_run
insert-InLimits d a run_id at = Triple-modify _ {Q = λ _. On InLimits} λ s h. record {
  rooted = λ l e root.
      added-rooted root s.runs (new_run run_id d a at) l.max_non_terminal_runs_per_root
        (h.0.rooted l e root) (room_at a root s.runs l.max_non_terminal_runs_per_root (h.1 l e).0);
  deep = λ l e.
      All-append (λ r. r.delegation_depth ≤ l.max_depth) s.runs (new_run run_id d a at)
        (h.0.deep l e) (h.1 l e).1;
}

room_of :
    (v : Provenance) (limits : CausalLimits) (count : ℕ) (s : World)
    → s.causal_limits ≡ some limits
    → active_of v.causal_root_id s.runs ≡ count
    → leb v.delegation_depth limits.max_depth ≡ true
    → ltb count limits.max_non_terminal_runs_per_root ≡ true
    → (l : CausalLimits) → s.causal_limits ≡ some l
    → (active_of v.causal_root_id s.runs < l.max_non_terminal_runs_per_root)
      × (v.delegation_depth ≤ l.max_depth)
room_of v limits count s stored counted deep room l e =
    subst
      (λ x.
        (active_of v.causal_root_id s.runs < x.max_non_terminal_runs_per_root)
        × (v.delegation_depth ≤ x.max_depth))
      (same (sym stored ∙ e)) (ground (arith, counted, room), ground (arith, deep))
  where
    same : some limits ≡ some l → limits ≡ l
    same k = cc

admit-InLimits :
    (a : Attention)
    → Triple Any (On InLimits) (admit_run_from_attention a) (λ admission. On (Room admission))
unfolding admit_run_from_attention source_of
admit-InLimits a = Triple-bind _ _ (Frame-gets InLimits _) λ found.
    Triple-bind _ _ (Frame-or_throw InLimits found _) λ source.
      Triple-bind _ _ (provenance-Step InLimits a source source.message.caused_by_run_id) λ v.
        Triple-bind _ _ (Triple-gets (λ w. w.causal_limits)) λ limited.
          Triple-bind _ _ (Triple-or_throw limited _ (λ s h. tt)) λ limits.
            Triple-bind _ _ (Triple-gets (λ w. active_of v.causal_root_id w.runs)) λ count.
              Triple-bind _ _ (Triple-check _ _ (λ s h. tt)) λ _.
                Triple-bind _ _ (Triple-check _ _ (λ s h. tt)) λ _.
                  Triple-weaken (λ s h. h) (Triple-pure _)
                    λ r s h.
                      let ((((((h0, h1), h2), h3), h4), h5), h6) = h in
                      subst (λ x. On (Room x) s) (sym h6)
                        (h0, room_of v limits count s (h1 ∙ h2) h3 h4 h5)

module _ (id : String) (revision : ℕ) (token : String) (p : Principal)
    (context : Option String) where
  finish-InLimits :
      (d : Decider) (at : ℕ) (reason : String)
      → Triple Any
          (On InLimits)
          (finish_attention_activation d.activation.id at reason)
          (λ _. On InLimits)
  unfolding finish_attention_activation
  finish-InLimits d at reason =
      Triple-bind _ _ (Change-activations InLimits InLimits _ _ (λ s h. h))
        λ changed. Frame-pure InLimits tt

  close-InLimits :
      (d : Decider) (status : AttentionStatus) (outcome : String) (run_id : Option String) (at : ℕ)
      → Triple Any (On InLimits) (close_attention d status outcome run_id p at) (λ _. On InLimits)
  unfolding close_attention release_attention_domain_lease
  close-InLimits d status outcome run_id at =
      Triple-bind _ _ (Change-attention InLimits InLimits d.attention.id _ (λ s h. h)) λ _.
        Triple-bind _ _ (Triple-modify _ {Q = λ _. On InLimits} (λ s h. h))
          λ _. Triple-modify _ {Q = λ _. On InLimits} (λ s h. h)

  create-InLimits :
      (correlation : String)
      → Triple Any
          (On InLimits)
          (resolve_attention_with_run id revision token p context correlation)
          (λ _. On InLimits)
  create-InLimits correlation =
      Triple-weaken (λ s h. h)
        (Stage-create (On InLimits) (λ d. InLimits) (λ d. InLimits) (λ d status. InLimits)
          (λ d a. Room a) id revision token p context
          (Step-context InLimits id revision token p context) finish-InLimits close-InLimits
          (λ d. KeepsRuns-InLimits) (λ d. KeepsRuns-InLimits) (λ d. admit-InLimits d.attention)
          insert-InLimits correlation)
        (λ r s h. h.1)

-- Where no causal root has more Runs that have not ended than the limit and no Run is deeper than
-- the limit, the same holds after an Attention was resolved with a new Run.
pub resolve_attention_with_run-Limited :
    (id : String) (revision : ℕ) (token : String) (p : Principal) (context : Option String)
    (correlation : String) (w w' : World) (r : CommandResult)
    → Limited w.causal_limits w.runs
    → resolve_attention_with_run id revision token p context correlation w ≡ returned r w'
    → Limited w'.causal_limits w'.runs
resolve_attention_with_run-Limited id revision token p context correlation w w' r h e =
    Triple-returned (create-InLimits id revision token p context correlation) w h e
