-- ===== src/Tests/RevisionRuns.antt =====
-- packages/kernel/src/collaboration.ts: a Message is edited, and deleted.
use torsor.Prelude.{
  ℕ, ◌≡◌, ◌≢◌, refl, String, true, false, List, [], ◌∷◌, trim, trim_start, trim_end, keep_char,
  sort_texts,
}
use torsor.Kernel.Action.{returned, final}
use torsor.Kernel.Rows.{Principal}
use torsor.Kernel.World.{World}
use torsor.Kernel.Values.{unique}
use torsor.Kernel.Results.{CommandResult, bare_result}
use torsor.Kernel.Attentions.Rows.{require_agent}
use torsor.Kernel.Messages.Create.{open_attention_for}
use torsor.Kernel.Messages.Revisions.{
  require_message, latest_message_revision, require_original_author, require_valid_revision,
  validate_target_agent_ids, insert_revision, mention_again, append_message_revision,
  require_revisable, edit_message, delete_message,
}
use torsor.Kernel.Messages.Revised.{Latest}
use torsor.Kernel.Messages.Deleted.{edit_message-Latest, delete_message-Latest}
use torsor.Tests.Worlds.{result_or}
use torsor.Tests.AttentionRuns.{owner, open_world, attention_code}

-- the code units of two texts are compared, not their letters
sorted : sort_texts ("b" ∷ "a" ∷ "B" ∷ []) ≡ "B" ∷ "a" ∷ "b" ∷ []
unfolding sort_texts
sorted = refl

-- opens what the commands are made of
revision_code : Unit {0}
unfolding attention_code open_attention_for require_agent require_message latest_message_revision
    require_original_author require_valid_revision validate_target_agent_ids insert_revision
    mention_again append_message_revision require_revisable edit_message delete_message trim
    trim_start trim_end keep_char sort_texts unique
revision_code = tt

edited_world : World
edited_world = final (edit_message "msg" 1 " pretty please" ("agent" ∷ []) owner "c" open_world)

edit_result : CommandResult
edit_result =
    result_or (bare_result "")
      (edit_message "msg" 1 " pretty please" ("agent" ∷ []) owner "c" open_world)

edit_returns :
    edit_message "msg" 1 " pretty please" ("agent" ∷ []) owner "c" open_world
    ≡ returned edit_result edited_world
unfolding edited_world edit_result revision_code
edit_returns = refl

edit_message-Latest_example :
    Latest "msg" 2
      (trim " pretty please")
      false
      edited_world.messages
      edited_world.message_revisions
edit_message-Latest_example =
    edit_message-Latest "msg" 1 " pretty please" ("agent" ∷ []) owner "c" open_world edited_world
      edit_result edit_returns

deleted_world : World
deleted_world = final (delete_message "msg" 1 owner "c" open_world)

delete_result : CommandResult
delete_result = result_or (bare_result "") (delete_message "msg" 1 owner "c" open_world)

delete_returns : delete_message "msg" 1 owner "c" open_world ≡ returned delete_result deleted_world
unfolding deleted_world delete_result revision_code
delete_returns = refl

delete_message-Latest_example :
    Latest "msg" 2 "" true deleted_world.messages deleted_world.message_revisions
    × ((later : ℕ) (q : Principal) (c : String) (body : String) (ids : List String)
          (s : CommandResult) (w : World)
        → (edit_message "msg" later body ids q c deleted_world ≢ returned s w)
          × (delete_message "msg" later q c deleted_world ≢ returned s w))
delete_message-Latest_example =
    delete_message-Latest "msg" 1 owner "c" open_world deleted_world delete_result delete_returns
