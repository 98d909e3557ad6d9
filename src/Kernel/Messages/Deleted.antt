-- ===== src/Kernel/Messages/Deleted.antt =====
-- packages/kernel/src/collaboration.ts: a Message that has been edited or deleted.
use torsor.Prelude.{
  ℕ, ◌+◌, ◌≢◌, String, ◌≡◌, sym, ap, subst, ◌∙◌, true, false, not, some, List, [], eq_iff,
  first_row, trim, sort_texts,
}
use torsor.Kernel.Action.{returned}
use torsor.Kernel.Action.Triples.{
  Triple, Triple-pure, Triple-check, Triple-bind, Triple-weaken, Triple-assume, Triple-find,
  Triple-returned,
}
use torsor.Kernel.Rows.{Principal, Message, MessageRevision}
use torsor.Kernel.World.{World}
use torsor.Kernel.Values.{unique}
use torsor.Kernel.Results.{CommandResult}
use torsor.Kernel.ReadOnly.{Any}
use torsor.Kernel.Guards.{require_kind}
use torsor.Kernel.Runs.Ended.{first_row-test}
use torsor.Kernel.Frames.{Kept-thread_event, Kept-enqueue}
use torsor.Kernel.Messages.Revisions.{
  is_message_id, require_message, is_revision_of, latest_message_revision, require_original_author,
  require_valid_revision, RevisionInput, validate_target_agent_ids, require_revisable, edit_message,
  delete_message,
}
use torsor.Kernel.Messages.Revised.{
  Latest, Revised, Revised-Stable, append-Triple, revisable-Triple,
}

-- a Message whose latest revision is a tombstone
refuse-Triple :
    (id : String) (n later : ℕ) (body : String) (p : Principal)
    → Triple Any
        (λ w. Latest id n body true w.messages w.message_revisions)
        (require_revisable id later p)
        (λ m w. ⊥)
unfolding require_revisable require_kind require_valid_revision require_message
    require_original_author latest_message_revision
refuse-Triple id n later body p = Triple-bind _ _ (Triple-check _ _ (λ w h. tt)) λ _.
    Triple-bind _ _ (Triple-check _ _ (λ w h. tt)) λ _. Triple-bind _ _ (Triple-find _ _) λ m.
      Triple-bind _ _ (Triple-check _ _ (λ w h. tt)) λ _.
        Triple-bind _ _ (Triple-find _ _) λ latest.
          Triple-bind _ _ (Triple-check _ _ (λ w h. tt)) λ _.
            Triple-bind _ _ (Triple-check _ _ (λ w h. tt)) λ _.
              Triple-weaken (λ w h. h) (Triple-pure m)
                λ x w h. clash w m latest h.0.0.0.0.0.0.0.0 h.0.0.0.0.0.1 h.0.0.0.1 h.0.1
  where
    one : {A : Type 0} {a b : A} → some a ≡ some b → a ≡ b
    one q = cc

    clash :
        (w : World) (m : Message) (r : MessageRevision)
        → Latest id n body true w.messages w.message_revisions
        → first_row (is_message_id id) w.messages ≡ some m
        → first_row (is_revision_of m.id m.latest_revision) w.message_revisions ≡ some r
        → not r.tombstone ≡ true
        → ⊥
    clash w m r l found k fresh =
        let same : m ≡ l.message = one (sym found ∙ l.stored) in
        let its_id = (eq_iff m.id id).0 (first_row-test (is_message_id id) w.messages m found) in
        let number = ap (λ x. x.latest_revision) same ∙ l.numbered in
        let again : r ≡ l.revision = one (
          sym k
          ∙ ap (λ i. first_row (is_revision_of i m.latest_revision) w.message_revisions) its_id
          ∙ ap (λ i. first_row (is_revision_of id i) w.message_revisions) number
          ∙ l.found) in
        cc (fresh, ap (λ x. x.tombstone) again, l.marked)

module _ (id : String) (expected : ℕ) where
  moved :
      (input : RevisionInput) (w : World)
      → input.message.id ≡ id
      → input.revision ≡ expected + 1
      → Revised input w
      → Latest id (expected + 1) input.body input.tombstone w.messages w.message_revisions
  moved input w same number h =
      subst (λ n. Latest id n input.body input.tombstone w.messages w.message_revisions) number
        (subst
          (λ i. Latest i input.revision input.body input.tombstone w.messages w.message_revisions)
          same h)

  delete-Triple :
      (p : Principal) (correlation : String)
      → Triple Any Any
          (delete_message id expected p correlation)
          (λ r w. Latest id (expected + 1) "" true w.messages w.message_revisions)
  unfolding delete_message
  delete-Triple p correlation = Triple-bind _ _ (revisable-Triple id expected p) λ m.
      Triple-assume λ facts.
        let input : RevisionInput = record {
          message = m;
          revision = m.latest_revision + 1;
          body = "";
          tombstone = true;
          target_agent_ids = [];
          actor = p;
          correlation_id = correlation;
        } in
        Triple-bind _ _ (append-Triple input) λ v.
          Triple-bind _ _ (Kept-thread_event (Revised input) (Revised-Stable input) _ (λ w xs h. h))
            λ cursor.
              Triple-bind _ _ (Kept-enqueue (Revised input) (Revised-Stable input) _ _ _ _) λ _.
                Triple-weaken (λ w h. h) (Triple-pure _)
                  (λ r w h. moved input w facts.0 (ap (λ n. n + 1) facts.1) h.0)

  edit-Triple :
      (body : String) (ids : List String) (p : Principal) (correlation : String)
      → Triple Any Any
          (edit_message id expected body ids p correlation)
          (λ r w. Latest id (expected + 1) (trim body) false w.messages w.message_revisions)
  unfolding edit_message validate_target_agent_ids
  edit-Triple body ids p correlation = Triple-bind _ _ (revisable-Triple id expected p) λ m.
      Triple-assume λ facts. Triple-bind _ _ (Triple-check _ _ (λ w h. tt)) λ _.
        Triple-bind _ _
          (Triple-bind _ _ (Triple-check _ _ (λ w h. tt))
            λ _. Triple-pure (sort_texts (unique ids)))
          λ sorted.
            let input : RevisionInput = record {
              message = m;
              revision = m.latest_revision + 1;
              body = trim body;
              tombstone = false;
              target_agent_ids = sorted;
              actor = p;
              correlation_id = correlation;
            } in
            Triple-bind _ _ (Triple-weaken (λ w h. h.0.0.0) (append-Triple input) (λ v w h. h)) λ v.
              Triple-bind _ _
                (Kept-thread_event (Revised input) (Revised-Stable input) _ (λ w xs h. h))
                λ cursor.
                  Triple-bind _ _ (Kept-enqueue (Revised input) (Revised-Stable input) _ _ _ _) λ _.
                    Triple-weaken (λ w h. h) (Triple-pure _)
                      (λ r w h. moved input w facts.0 (ap (λ n. n + 1) facts.1) h.0)

-- nothing follows the checks
delete-refused :
    (id : String) (n later : ℕ) (q : Principal) (c : String)
    → Triple Any
        (λ w. Latest id n "" true w.messages w.message_revisions)
        (delete_message id later q c)
        (λ r w. ⊥)
unfolding delete_message
delete-refused id n later q c =
    Triple-bind _ _ (refuse-Triple id n later "" q) λ m. record { at = λ w h. elim h [ ] }

edit-refused :
    (id : String) (n later : ℕ) (body : String) (ids : List String) (q : Principal) (c : String)
    → Triple Any
        (λ w. Latest id n "" true w.messages w.message_revisions)
        (edit_message id later body ids q c)
        (λ r w. ⊥)
unfolding edit_message
edit-refused id n later body ids q c =
    Triple-bind _ _ (refuse-Triple id n later "" q) λ m. record { at = λ w h. elim h [ ] }

-- An edition that returns leaves the Message with the trimmed body as its latest revision, which is
-- one above the revision that was expected and is no tombstone.
pub edit_message-Latest :
    (id : String) (expected : ℕ) (body : String) (ids : List String) (p : Principal)
    (correlation : String) (w w' : World) (r : CommandResult)
    → edit_message id expected body ids p correlation w ≡ returned r w'
    → Latest id (expected + 1) (trim body) false w'.messages w'.message_revisions
edit_message-Latest id expected body ids p correlation w w' r h =
    Triple-returned (edit-Triple id expected body ids p correlation) w tt h

-- A deletion that returns leaves an empty tombstone as the Message's latest revision, one above the
-- revision that was expected; and no later edition or deletion of the Message returns from that state,
-- whoever asks and whatever revision is expected.
pub delete_message-Latest :
    (id : String) (expected : ℕ) (p : Principal) (correlation : String) (w w' : World)
    (r : CommandResult)
    → delete_message id expected p correlation w ≡ returned r w'
    → Latest id (expected + 1) "" true w'.messages w'.message_revisions
      × ((later : ℕ) (q : Principal) (c : String) (body : String) (ids : List String)
            (s : CommandResult) (w'' : World)
          → (edit_message id later body ids q c w' ≢ returned s w'')
            × (delete_message id later q c w' ≢ returned s w''))
delete_message-Latest id expected p correlation w w' r h =
    let gone = Triple-returned (delete-Triple id expected p correlation) w tt h in
    (
      gone,
      λ later q c body ids s w''. (
        λ e. Triple-returned (edit-refused id (expected + 1) later body ids q c) w' gone e,
        λ e. Triple-returned (delete-refused id (expected + 1) later q c) w' gone e,
      ),
    )
