-- ===== src/Kernel/Runs/Publishing.antt =====
-- packages/kernel/src/collaboration.ts: a message changes no Run, no input and no Activation.
use torsor.Prelude.{ℕ, String, Option, List}
use torsor.Kernel.Action.{pure}
use torsor.Kernel.Action.Triples.{
  Triple, Triple-modify, Triple-bind, Triple-if, Triple-loop, Triple-throw,
}
use torsor.Kernel.Rows.{
  Principal, is_agent, Run, RunInput, Activation, Cause, for_run, for_attention, Thread,
}
use torsor.Kernel.ReadOnly.{Any}
use torsor.Kernel.Activations.Validity.{
  require_run, require_attention, require_activation, require_live_activation,
  load_activation_scope_state, assert_activation_scope_current,
}
use torsor.Kernel.Activations.Actors.{require_agent_for_principal, named_activation, is_expected}
use torsor.Kernel.Runs.Events.{EventInput, require_thread, emit_event}
use torsor.Kernel.Runs.Ended.{
  On, Triple-now-On, Triple-fresh-On, Triple-gets-On, Triple-row-On, Triple-event-On,
  Triple-enqueue-On,
}
use torsor.Kernel.Runs.Closed.{
  Triple-check-On, Triple-find-On, Triple-value-On, scope-Triple, live-Triple,
}
use torsor.Kernel.Attentions.Rows.{require_agent, record_attention_history}
use torsor.Kernel.Messages.Scope.{
  assert_project_channel, require_project, assert_project_access, place_of_cause, activation_scope,
  agent_read_scope, resolve_principal_read_scope, check_thread_cursor,
}
use torsor.Kernel.Messages.Create.{
  MessageInput, starts_thread, insert_thread, open_thread, insert_message, opens_attention,
  open_attention_for, mention, create_message,
}

module _ (Q : List Run → List RunInput → List Activation → Type 0) where
  event-On : (e : EventInput) (c : Option ℕ) → Triple Any (On Q) (emit_event e c) (λ _. On Q)
  unfolding emit_event
  event-On e c = Triple-bind _ _ (Triple-fresh-On Q _) λ id.
      Triple-bind _ _ (Triple-now-On Q)
        λ at. Triple-bind _ _ (Triple-modify _ {Q = λ _. On Q} (λ s h. h)) λ _. Triple-gets-On Q _

  attention-On :
      (input : MessageInput) (root revision_id target : String)
      → Triple Any (On Q) (open_attention_for input root revision_id target) (λ _. On Q)
  unfolding open_attention_for record_attention_history
  attention-On input root revision_id target = Triple-bind _ _ (Triple-fresh-On Q _) λ id.
      Triple-bind _ _ (Triple-modify _ {Q = λ _. On Q} (λ s h. h))
        λ _. Triple-bind _ _ (event-On _ _) λ sequence. Triple-modify _ {Q = λ _. On Q} (λ s h. h)

  mention-On :
      (input : MessageInput) (root revision_id : String) (at : ℕ) (target : String)
      → Triple Any (On Q) (mention input root revision_id at target) (λ _. On Q)
  unfolding mention require_agent
  mention-On input root revision_id at target = Triple-bind _ _ (Triple-find-On Q _ _) λ agent.
      Triple-bind _ _ (Triple-check-On Q _ _) λ _. Triple-bind _ _ (Triple-fresh-On Q _) λ id.
        Triple-bind _ _ (Triple-modify _ {Q = λ _. On Q} (λ s h. h)) λ _.
          Triple-if (opens_attention input target) _ (pure tt)
            (λ _. attention-On input root revision_id target) (λ _. Triple-value-On Q tt)

  thread-On :
      (input : MessageInput) (root : String)
      → Triple Any (On Q) (open_thread input root) (λ _. On Q)
  unfolding open_thread insert_thread require_thread
  thread-On input root =
      Triple-if (starts_thread input.thread_root_id) (insert_thread input root) _
        (λ _. Triple-modify _ {Q = λ _. On Q} (λ s h. h))
        (λ _. Triple-bind _ _ (Triple-find-On Q _ _) λ thread. Triple-check-On Q _ _)

  channel-On :
      (project_id channel_id : String)
      → Triple Any (On Q) (assert_project_channel project_id channel_id) (λ _. On Q)
  unfolding assert_project_channel
  channel-On project_id channel_id =
      Triple-bind _ _ (Triple-gets-On Q _)
        λ found. Triple-bind _ _ (Triple-row-On Q found _) λ channel. Triple-check-On Q _ _

  pub Triple-message-On :
      (input : MessageInput) → Triple Any (On Q) (create_message input) (λ _. On Q)
  unfolding create_message insert_message require_thread
  Triple-message-On input = Triple-bind _ _ (Triple-check-On Q _ _) λ _.
      Triple-bind _ _ (channel-On _ _) λ _. Triple-bind _ _ (Triple-fresh-On Q _) λ message_id.
        Triple-bind _ _ (Triple-fresh-On Q _) λ revision_id. Triple-bind _ _ (Triple-now-On Q) λ at.
          Triple-bind _ _ (thread-On input _) λ _. Triple-bind _ _ (Triple-find-On Q _ _) λ thread.
            Triple-bind _ _ (Triple-modify _ {Q = λ _. On Q} (λ s h. h)) λ _.
              Triple-bind _ _ (Triple-loop _ _ (mention-On input _ revision_id at)) λ _.
                Triple-bind _ _ (Triple-event-On Q _)
                  λ cursor. Triple-bind _ _ (Triple-enqueue-On Q _ _ _ _) λ _. Triple-value-On Q _

  place-On : (cause : Cause) → Triple Any (On Q) (place_of_cause cause) (λ _. On Q)
  unfolding place_of_cause require_run require_attention
  place-On (for_run id generation) =
      Triple-bind _ _ (Triple-find-On Q _ _) λ run. Triple-value-On Q _
  place-On (for_attention id token) =
      Triple-bind _ _ (Triple-find-On Q _ _) λ attention. Triple-value-On Q _

  agent-On :
      (p : Principal) (context : Option String) (project_id : String)
      → Triple Any (On Q) (agent_read_scope p context project_id) (λ _. On Q)
  unfolding agent_read_scope require_agent_for_principal require_live_activation require_activation
      assert_activation_scope_current load_activation_scope_state activation_scope
  agent-On p context project_id =
      Triple-bind _ _ (Triple-row-On Q (named_activation context) _) λ id.
        Triple-bind _ _ (Triple-find-On Q _ _) λ agent.
          Triple-bind _ _
            (Triple-bind _ _ (Triple-find-On Q _ _)
              λ a. Triple-bind _ _ (Triple-check-On Q _ _) λ _. Triple-value-On Q a)
            λ a. Triple-bind _ _ (Triple-check-On Q _ _) λ _.
              Triple-bind _ _
                (Triple-bind _ _ (scope-Triple Q a.cause)
                  λ scope. Triple-bind _ _ (Triple-now-On Q) λ at. live-Triple Q scope _)
                λ _.
                  Triple-bind _ _ (place-On a.cause)
                    λ place. Triple-bind _ _ (Triple-check-On Q _ _) λ _. Triple-value-On Q _

  pub Triple-cursor-On :
      (thread : Thread) (p : Principal) (context : Option String) (expected : Option ℕ)
      → Triple Any (On Q) (check_thread_cursor thread p context expected) (λ _. On Q)
  unfolding check_thread_cursor resolve_principal_read_scope require_project assert_project_access
      require_agent_for_principal
  Triple-cursor-On thread p context expected =
      Triple-if (is_expected expected thread.cursor) (pure tt) _ (λ _. Triple-value-On Q tt)
        λ _.
          Triple-bind _ _
            (Triple-bind _ _ (Triple-find-On Q _ _) λ project.
              Triple-bind _ _
                (Triple-if (is_agent p.kind) _ (pure tt)
                  (λ _. Triple-bind _ _ (Triple-find-On Q _ _) λ agent. Triple-check-On Q _ _)
                  (λ _. Triple-value-On Q tt))
                λ _.
                  Triple-if (is_agent p.kind) (agent_read_scope p context thread.project_id) _
                    (λ _. agent-On p context thread.project_id) (λ _. Triple-value-On Q _))
            λ scope. Triple-throw _ (λ s h. tt)
