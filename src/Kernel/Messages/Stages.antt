-- ===== src/Kernel/Messages/Stages.antt =====
-- packages/kernel/src/collaboration.ts: the mentions of a Message, and the cursor of its Thread.
use torsor.Prelude.{
  ℕ, ◌+◌, String, ◌≡◌, refl, sym, ap, subst, ◌∙◌, true, some, List, [], ◌∷◌, ◌++◌, append_assoc,
  first_row, update_rows,
}
use torsor.Kernel.Action.{pure, modify, for_each}
use torsor.Kernel.Action.Triples.{
  Triple, Triple-pure, Triple-gets, Triple-or_throw, Triple-modify, Triple-bind, Triple-next,
  Triple-weaken, Triple-if,
}
use torsor.Kernel.Rows.{Attention, Thread, Message, MessageRevision}
use torsor.Kernel.World.{World}
use torsor.Kernel.ReadOnly.{Any}
use torsor.Kernel.Runs.Events.{EventInput, is_thread, require_thread, emit_thread_event}
use torsor.Kernel.Runs.Ended.{first_row-update}
use torsor.Kernel.Attentions.Rows.{require_agent, record_attention_history}
use torsor.Kernel.Attentions.Owned.{append-nil}
use torsor.Kernel.Frames.{Stable, Kept-fresh, Kept-check, Kept-find, Kept-event}
use torsor.Kernel.Messages.Create.{MessageInput, open_attention_for, opens_attention, mention}
use torsor.Kernel.Messages.Opens.{Opens, Opens-skip, Opens-add}

module _ (input : MessageInput) (root v : String) (ms : List Message) (rs : List MessageRevision)
    (thread : Thread) (before : List Attention) where
  -- the Message and its revision are stored, the Thread has not moved, and the Agents so far have
  -- their Attentions
  abbrev pub Stage : List String → World → Type 0
  Stage ids w =
      ((w.messages ≡ ms) × (w.message_revisions ≡ rs))
      × ((first_row (is_thread root) w.threads ≡ some thread)
          × Opens input v ids before w.attentions)

  pub Stage-Stable : (ids : List String) → Stable (Stage ids)
  Stage-Stable ids = record {
    reads = λ w n h. h;
    issued = λ w n h. h;
    events = λ w xs h. h;
    outbox = λ w xs h. h;
    marks = λ w xs h. h;
  }

  open-Triple :
      (ids : List String) (t : String)
      → opens_attention input t ≡ true
      → Triple Any (Stage ids) (open_attention_for input root v t) (λ _. Stage (ids ++ t ∷ []))
  unfolding open_attention_for record_attention_history
  open-Triple ids t e =
      let S = Stage (ids ++ t ∷ []) in
      let s = Stage-Stable (ids ++ t ∷ []) in
      Triple-bind _ _ (Kept-fresh (Stage ids) (Stage-Stable ids) _) λ id.
        Triple-bind _ _
          (Triple-modify _ {Q = λ _. S}
            (λ w h. (h.0, (h.1.0, Opens-add input root v t id ids before w.attentions e h.1.1))))
          λ _.
            Triple-bind _ _ (Kept-event S s _ _) λ sequence. Triple-modify _ {Q = λ _. S} (λ w h. h)

  mention-Triple :
      (at : ℕ) (ids : List String) (t : String)
      → Triple Any (Stage ids) (mention input root v at t) (λ _. Stage (ids ++ t ∷ []))
  unfolding mention require_agent
  mention-Triple at ids t =
      let S = Stage ids in
      let s = Stage-Stable ids in
      Triple-bind _ _ (Kept-find S s _ _) λ agent. Triple-bind _ _ (Kept-check S s _ _) λ _.
        Triple-bind _ _ (Kept-fresh S s _) λ id.
          Triple-bind _ _ (Triple-modify _ {Q = λ _. S} (λ w h. h)) λ _.
            Triple-if (opens_attention input t) (open_attention_for input root v t) (pure tt)
              (λ e. open-Triple ids t e)
              (λ e.
                Triple-weaken (λ w h. h) (Triple-pure tt)
                  (λ u w h.
                    (h.0.0, (h.0.1.0, Opens-skip input v t ids before w.attentions e h.0.1.1))))

  pub mentions-Triple :
      (at : ℕ) (rest ids : List String)
      → Triple Any (Stage ids) (for_each (mention input root v at) rest) (λ _. Stage (ids ++ rest))
  unfolding for_each
  mentions-Triple at [] ids =
      Triple-weaken (λ w h. h) (Triple-pure tt)
        (λ u w h. subst (λ l. Stage l w) (sym (append-nil ids)) h.0)
  mentions-Triple at (t ∷ rest) ids = Triple-bind _ _ (mention-Triple at ids t) λ _.
      Triple-weaken (λ w h. h) (mentions-Triple at rest (ids ++ t ∷ []))
        (λ u w h. subst (λ l. Stage l w) (append_assoc ids (t ∷ []) rest) h)

  -- the cursor of the Thread has moved on
  abbrev pub Moved : List String → World → Type 0
  Moved ids w =
      ((w.messages ≡ ms) × (w.message_revisions ≡ rs))
      × ((first_row (is_thread root) w.threads
            ≡ some (record thread { cursor = thread.cursor + 1 }))
          × Opens input v ids before w.attentions)

  pub Moved-Stable : (ids : List String) → Stable (Moved ids)
  Moved-Stable ids = record {
    reads = λ w n h. h;
    issued = λ w n h. h;
    events = λ w xs h. h;
    outbox = λ w xs h. h;
    marks = λ w xs h. h;
  }

  thread-Triple :
      (ids : List String)
      → Triple Any (Stage ids) (require_thread root) (λ t w. Stage ids w × (t ≡ thread))
  unfolding require_thread
  thread-Triple ids =
      Triple-bind _ _ (Triple-gets (λ w. first_row (is_thread root) w.threads)) λ found.
        Triple-weaken (λ w h. h) (Triple-or_throw found _ (λ w h. tt))
          (λ t w h. (h.0.0, one t (sym h.1 ∙ sym h.0.1 ∙ h.0.0.1.0)))
    where
      one : (t : Thread) → some t ≡ some thread → t ≡ thread
      one t q = cc

  move-Triple :
      (ids : List String) (t : Thread)
      → t ≡ thread
      → Triple Any
          (Stage ids)
          (modify λ w. record w {
            db = record w.db {
              threads =
                  update_rows (is_thread root) (λ x. record x { cursor = t.cursor + 1 }) w.threads;
            };
          })
          (λ _. Moved ids)
  move-Triple ids t e = Triple-modify _ {Q = λ _. Moved ids} λ w h. (
    h.0,
    (
      first_row-update (is_thread root) (λ x. record x { cursor = t.cursor + 1 }) (λ x. refl)
            w.threads thread h.1.0
          ∙ ap (λ n. some (record thread { cursor = n + 1 })) (ap (λ x. x.cursor) e),
      h.1.1,
    ),
  )

pub event-Triple :
    (input : MessageInput) (v : String) (ms : List Message) (rs : List MessageRevision)
    (thread : Thread) (before : List Attention) (ids : List String) (e : EventInput)
    → Triple Any
        (Stage input e.thread_root_id v ms rs thread before ids)
        (emit_thread_event e)
        (λ cursor w.
          Moved input e.thread_root_id v ms rs thread before ids w × (cursor ≡ thread.cursor + 1))
unfolding emit_thread_event
event-Triple input v ms rs thread before ids e =
    let root = e.thread_root_id in
    let M = Moved input root v ms rs thread before ids in
    let s = Moved-Stable input root v ms rs thread before ids in
    Triple-next (thread-Triple input root v ms rs thread before ids) λ t same.
      Triple-bind _ _ (move-Triple input root v ms rs thread before ids t same) λ _.
        Triple-bind _ _ (Kept-event M s _ _) λ sequence.
          Triple-weaken (λ w h. h) (Triple-pure _)
            (λ cursor w h. (h.0, h.1 ∙ ap (λ x. x.cursor + 1) same))
