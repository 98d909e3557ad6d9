-- ===== src/Kernel/Messages/Published.antt =====
-- packages/kernel/src/collaboration.ts: what createMessage stores.
use torsor.Prelude.{
  ℕ, ◌+◌, String, ◌≡◌, refl, sym, ap, subst, ◌∙◌, false, some, [], ◌∷◌, ◌++◌, first_row, where_rows,
  trim,
}
use torsor.Kernel.Action.{returned}
use torsor.Kernel.Action.Triples.{
  Triple-find, Triple, Triple-pure, Triple-modify, Triple-bind, Triple-assume, Triple-weaken,
  Triple-if, Triple-returned,
}
use torsor.Kernel.Rows.{Thread}
use torsor.Kernel.World.{World, Db}
use torsor.Kernel.Values.{unique}
use torsor.Kernel.ReadOnly.{Any}
use torsor.Kernel.Runs.Events.{is_thread, require_thread}
use torsor.Kernel.Attentions.Owned.{append-nil}
use torsor.Kernel.Frames.{
  Stable, Kept-now, Kept-fresh, Kept-gets, Kept-or_throw, Kept-check, Kept-find, Kept-enqueue,
}
use torsor.Kernel.Messages.Scope.{assert_project_channel}
use torsor.Kernel.Messages.Create.{
  MessageInput, Created, root_or, starts_thread, insert_thread, open_thread, new_message,
  new_revision, insert_message, create_message,
}
use torsor.Kernel.Messages.Opens.{Opens}
use torsor.Kernel.Messages.Stages.{Stage, Moved, Moved-Stable, mentions-Triple, event-Triple}

-- The Message stands last, with the number that its Thread's cursor has afterwards; so does its first
-- revision, with the trimmed body; and the Attentions are opened.
pub record Publishes (input : MessageInput) (c : Created) (before after : Db) : Type 0 where
  pub at : ℕ
  pub thread : Thread
  pub stored :
      after.messages
      ≡ before.messages
        ++ new_message input c.message_id
            (root_or input.thread_root_id c.message_id)
            c.thread_cursor
            at
          ∷ []
  pub revised :
      after.message_revisions
      ≡ before.message_revisions
        ++ new_revision c.message_revision_id c.message_id 1 (trim input.body) false at ∷ []
  pub found :
      first_row (is_thread (root_or input.thread_root_id c.message_id)) after.threads ≡ some thread
  pub counted : thread.cursor ≡ c.thread_cursor
  pub opens :
      Opens input c.message_revision_id
        (unique input.target_agent_ids)
        before.attentions
        after.attentions

module _ (input : MessageInput) (before : Db) where
  -- nothing is stored yet
  abbrev Begun : World → Type 0
  Begun w =
      ((w.messages ≡ before.messages) × (w.message_revisions ≡ before.message_revisions))
      × (w.attentions ≡ before.attentions)

  Begun-Stable : Stable Begun
  Begun-Stable = record {
    reads = λ w n h. h;
    issued = λ w n h. h;
    events = λ w xs h. h;
    outbox = λ w xs h. h;
    marks = λ w xs h. h;
  }

  open_thread-Triple : (root : String) → Triple Any Begun (open_thread input root) (λ _. Begun)
  unfolding open_thread insert_thread require_thread
  open_thread-Triple root =
      Triple-if (starts_thread input.thread_root_id) (insert_thread input root) _
        (λ _. Triple-modify _ {Q = λ _. Begun} (λ w h. h))
        (λ _.
          Triple-bind _ _ (Kept-find Begun Begun-Stable _ _)
            λ thread. Kept-check Begun Begun-Stable _ _)

  find-Triple :
      (root : String)
      → Triple Any Begun
          (require_thread root)
          (λ t w. Begun w × (first_row (is_thread root) w.threads ≡ some t))
  unfolding require_thread
  find-Triple root = Triple-find (λ w. first_row (is_thread root) w.threads) _

  stored :
      (id v : String) (sequence at : ℕ) (w : World) (thread : Thread)
      → Begun w × (first_row (is_thread (root_or input.thread_root_id id)) w.threads ≡ some thread)
      → Stage input
          (root_or input.thread_root_id id)
          v
          (before.messages
            ++ new_message input id (root_or input.thread_root_id id) sequence at ∷ [])
          (before.message_revisions ++ new_revision v id 1 (trim input.body) false at ∷ [])
          thread
          before.attentions
          []
          (record w {
            db = record w.db {
              messages =
                  w.messages
                  ++ new_message input id (root_or input.thread_root_id id) sequence at ∷ [];
              message_revisions =
                  w.message_revisions ++ new_revision v id 1 (trim input.body) false at ∷ [];
            };
          })
  unfolding where_rows
  stored id v sequence at w thread h = (
    (
      ap (λ l. l ++ new_message input id (root_or input.thread_root_id id) sequence at ∷ [])
          h.0.0.0,
      ap (λ l. l ++ new_revision v id 1 (trim input.body) false at ∷ []) h.0.0.1,
    ),
    (
      h.1,
      record {
        opened = [];
        added = h.0.1 ∙ sym (append-nil before.attentions);
        targeted = refl;
        each = tt;
      },
    ),
  )

  done :
      (id v : String) (at : ℕ) (thread : Thread) (w : World) (cursor : ℕ)
      → cursor ≡ thread.cursor + 1
      → (c : Created)
      → c ≡ record { message_id = id; message_revision_id = v; thread_cursor = cursor }
      → Moved input
          (root_or input.thread_root_id id)
          v
          (before.messages
            ++ new_message input id (root_or input.thread_root_id id) (thread.cursor + 1) at ∷ [])
          (before.message_revisions ++ new_revision v id 1 (trim input.body) false at ∷ [])
          thread
          before.attentions
          (unique input.target_agent_ids)
          w
      → Publishes input c before w.db
  done id v at thread w cursor told c same h =
      subst (λ x. Publishes input x before w.db) (sym same)
        (record {
          at = at;
          thread = record thread { cursor = thread.cursor + 1 };
          stored =
              subst
                (λ n.
                  w.messages
                  ≡ before.messages
                    ++ new_message input id (root_or input.thread_root_id id) n at ∷ [])
                (sym told) h.0.0;
          revised = h.0.1;
          found = h.1.0;
          counted = sym told;
          opens = h.1.1;
        })

  channel-Triple :
      Triple Any Begun (assert_project_channel input.project_id input.channel_id) (λ _. Begun)
  unfolding assert_project_channel
  channel-Triple = Triple-bind _ _ (Kept-gets Begun Begun-Stable _) λ found.
      Triple-bind _ _ (Kept-or_throw Begun Begun-Stable found _)
        λ channel. Kept-check Begun Begun-Stable _ _

  publish-Triple : Triple Any Begun (create_message input) (λ c w. Publishes input c before w.db)
  unfolding create_message insert_message
  publish-Triple = Triple-bind _ _ (Kept-check Begun Begun-Stable _ _) λ _.
      Triple-bind _ _ channel-Triple λ _. Triple-bind _ _ (Kept-fresh Begun Begun-Stable _) λ id.
        Triple-bind _ _ (Kept-fresh Begun Begun-Stable _) λ v.
          Triple-bind _ _ (Kept-now Begun Begun-Stable) λ at.
            let root = root_or input.thread_root_id id in
            Triple-bind _ _ (open_thread-Triple root) λ _.
              Triple-bind _ _ (find-Triple root) λ thread.
                let ms = before.messages ++ new_message input id root (thread.cursor + 1) at ∷ [] in
                let rs =
                  before.message_revisions ++ new_revision v id 1 (trim input.body) false at ∷ [] in
                let as' = before.attentions in
                let ids = unique input.target_agent_ids in
                let M = Moved input root v ms rs thread as' ids in
                let s = Moved-Stable input root v ms rs thread as' ids in
                Triple-bind _ _
                  (Triple-modify _ {Q = λ _. Stage input root v ms rs thread as' []}
                    λ w h. stored id v (thread.cursor + 1) at w thread h)
                  λ _.
                    Triple-bind _ _ (mentions-Triple input root v ms rs thread as' at ids []) λ _.
                      Triple-bind _ _ (event-Triple input v ms rs thread as' ids _) λ cursor.
                        Triple-assume λ told. Triple-bind _ _ (Kept-enqueue M s _ _ _ _) λ _.
                          Triple-weaken (λ w h. h) (Triple-pure _)
                            (λ c w h. done id v at thread w cursor told c h.1 h.0)

-- A Message that is created, where the command returns, stands behind the other Messages under the id
-- that is returned, with the number that the cursor of its Thread then has; its first revision holds
-- the trimmed body; and each Agent that is named, but for its author and those suppressed, has one new
-- open Attention for it, in the order in which they are first named; no other Attention is opened.
pub create_message-Publishes :
    (input : MessageInput) (w w' : World) (c : Created)
    → create_message input w ≡ returned c w'
    → Publishes input c w.db w'.db
create_message-Publishes input w w' c h =
    Triple-returned (publish-Triple input w.db) w ((refl, refl), refl) h
