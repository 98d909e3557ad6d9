-- ===== src/Kernel/Messages/Revised.antt =====
-- packages/kernel/src/collaboration.ts: what a new revision of a Message leaves.
use torsor.Prelude.{
  ℕ, String, ◌≡◌, refl, sym, subst, ◌∙◌, Bool, true, false, not, some, List, [], ◌∷◌, ◌++◌, inl,
  inr, arith, Bool-cases, eq_refl, eq_iff, ◌==◌, first_row, any_row,
}
use torsor.Kernel.Action.Triples.{
  Triple, Triple-pure, Triple-gets, Triple-check, Triple-modify, Triple-bind, Triple-weaken,
  Triple-loop, Triple-find,
}
use torsor.Kernel.Rows.{Principal, Message, MessageRevision}
use torsor.Kernel.World.{World}
use torsor.Kernel.ReadOnly.{Any}
use torsor.Kernel.Guards.{require_kind}
use torsor.Kernel.Runs.Ended.{first_row-update, first_row-test}
use torsor.Kernel.Attentions.Rows.{require_agent, record_attention_history}
use torsor.Kernel.Frames.{
  Stable, Kept-now, Kept-fresh, Kept-check, Kept-pure, Kept-find, Kept-event,
}
use torsor.Kernel.Messages.Create.{new_revision, open_attention_for}
use torsor.Kernel.Messages.Revisions.{
  is_message_id, require_message, is_revision_of, latest_message_revision, require_original_author,
  require_valid_revision, RevisionInput, supersede_revision, insert_revision, mention_again,
  append_message_revision, require_revisable,
}

-- The latest revision of the Message is this one.
pub record Latest (id : String) (n : ℕ) (body : String) (tombstone : Bool) (ms : List Message)
    (rs : List MessageRevision) : Type 0 where
  pub message : Message
  pub stored : first_row (is_message_id id) ms ≡ some message
  pub numbered : message.latest_revision ≡ n
  pub revision : MessageRevision
  pub found : first_row (is_revision_of id n) rs ≡ some revision
  pub written : revision.body ≡ body
  pub marked : revision.tombstone ≡ tombstone

first_row-last :
    (test : MessageRevision → Bool) (rs : List MessageRevision) (r : MessageRevision)
    → any_row test rs ≡ false
    → test r ≡ true
    → first_row test (rs ++ r ∷ []) ≡ some r
unfolding first_row any_row
first_row-last test [] r h k = rw k refl
first_row-last test (x ∷ xs) r h k = elim (Bool-cases (test x)) [
  | inl e ↦ absurd (ground (arith, h, e))
  | inr e ↦ rw e (first_row-last test xs r (ground (arith, h, e)) k)
]

module _ (input : RevisionInput) where
  abbrev Stored : World → Type 0
  Stored w = first_row (is_message_id input.message.id) w.messages ≡ some input.message

  Stored-Stable : Stable Stored
  Stored-Stable = record {
    reads = λ w n h. h;
    issued = λ w n h. h;
    events = λ w xs h. h;
    outbox = λ w xs h. h;
    marks = λ w xs h. h;
  }

  abbrev pub Revised : World → Type 0
  Revised w =
      Latest input.message.id input.revision input.body input.tombstone w.messages
        w.message_revisions

  pub Revised-Stable : Stable Revised
  Revised-Stable = record {
    reads = λ w n h. h;
    issued = λ w n h. h;
    events = λ w xs h. h;
    outbox = λ w xs h. h;
    marks = λ w xs h. h;
  }

  insert-Triple :
      (id : String) (at : ℕ) → Triple Any Stored (insert_revision input id at) (λ _. Revised)
  unfolding insert_revision
  insert-Triple id at =
      Triple-bind _ _
        (Triple-gets
          (λ w. any_row (is_revision_of input.message.id input.revision) w.message_revisions))
        λ known. Triple-bind _ _ (Triple-check _ _ (λ w h. tt)) λ _.
          Triple-modify _ {Q = λ _. Revised} λ w h. record {
            message = supersede_revision input.revision input.message;
            stored =
                first_row-update (is_message_id input.message.id)
                  (supersede_revision input.revision) (λ m. refl) w.messages input.message h.0.0;
            numbered = refl;
            revision =
                new_revision id input.message.id input.revision input.body input.tombstone at;
            found =
                first_row-last (is_revision_of input.message.id input.revision) w.message_revisions
                  (new_revision id input.message.id input.revision input.body input.tombstone at)
                  (h.0.1 ∙ absent known h.1) (ground (arith, eq_refl input.message.id));
            written = refl;
            marked = refl;
          }
    where
      absent : (b : Bool) → not b ≡ true → b ≡ false
      absent true h = cc
      absent false h = refl

  mention-Triple :
      (v : String) (at : ℕ) (t : String)
      → Triple Any Revised (mention_again input v at t) (λ _. Revised)
  unfolding mention_again require_agent open_attention_for record_attention_history
  mention-Triple v at t = Triple-bind _ _ (Kept-find Revised Revised-Stable _ _) λ agent.
      Triple-bind _ _ (Kept-check Revised Revised-Stable _ _) λ _.
        Triple-bind _ _ (Kept-fresh Revised Revised-Stable _) λ id.
          Triple-bind _ _ (Triple-modify _ {Q = λ _. Revised} (λ w h. h)) λ _.
            Triple-bind _ _ (Kept-fresh Revised Revised-Stable _) λ attention.
              Triple-bind _ _ (Triple-modify _ {Q = λ _. Revised} (λ w h. h)) λ _.
                Triple-bind _ _ (Kept-event Revised Revised-Stable _ _)
                  λ sequence. Triple-modify _ {Q = λ _. Revised} (λ w h. h)

  pub append-Triple : Triple Any Stored (append_message_revision input) (λ _. Revised)
  unfolding append_message_revision
  append-Triple = Triple-bind _ _ (Kept-fresh Stored Stored-Stable _) λ id.
      Triple-bind _ _ (Kept-now Stored Stored-Stable) λ at.
        Triple-bind _ _ (insert-Triple id at) λ _.
          Triple-bind _ _ (Triple-loop _ input.target_agent_ids (mention-Triple id at))
            λ _. Kept-pure Revised Revised-Stable id

-- what the checks find: the Message, whose number is the one expected
pub revisable-Triple :
    (id : String) (expected : ℕ) (p : Principal)
    → Triple Any Any (require_revisable id expected p) (λ m w.
      (first_row (is_message_id m.id) w.messages ≡ some m)
      × ((m.id ≡ id) × (m.latest_revision ≡ expected)))
unfolding require_revisable require_kind require_valid_revision require_message
    require_original_author latest_message_revision
revisable-Triple id expected p = Triple-bind _ _ (Triple-check _ _ (λ w h. tt)) λ _.
    Triple-bind _ _ (Triple-check _ _ (λ w h. tt)) λ _. Triple-bind _ _ (Triple-find _ _) λ m.
      Triple-bind _ _ (Triple-check _ _ (λ w h. tt)) λ _.
        Triple-bind _ _ (Triple-find _ _) λ latest.
          Triple-bind _ _ (Triple-check _ _ (λ w h. tt)) λ _.
            Triple-bind _ _ (Triple-check _ _ (λ w h. tt)) λ _.
              Triple-weaken (λ w h. h) (Triple-pure m)
                λ x w h.
                  subst
                    (λ y.
                      (first_row (is_message_id y.id) w.messages ≡ some y)
                      × ((y.id ≡ id) × (y.latest_revision ≡ expected)))
                    (sym h.1) (facts w m h.0.0.0.0.0.1 h.0.0.1)
  where
    facts :
        (w : World) (m : Message)
        → first_row (is_message_id id) w.messages ≡ some m
        → (m.latest_revision == expected) ≡ true
        → (first_row (is_message_id m.id) w.messages ≡ some m)
          × ((m.id ≡ id) × (m.latest_revision ≡ expected))
    facts w m found e =
        let same = (eq_iff m.id id).0 (first_row-test (is_message_id id) w.messages m found) in
        (
          subst (λ i. first_row (is_message_id i) w.messages ≡ some m) (sym same) found,
          (same, ground (arith, e)),
        )
