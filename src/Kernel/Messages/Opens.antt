-- ===== src/Kernel/Messages/Opens.antt =====
-- packages/kernel/src/collaboration.ts: the Attentions that a Message opens.
use torsor.Prelude.{
  String, ◌≡◌, refl, sym, ap, ◌∙◌, true, false, List, [], ◌∷◌, ◌++◌, All, append_assoc, where_rows,
}
use torsor.Kernel.Rows.{Attention, is_open}
use torsor.Kernel.Attentions.Owned.{where_rows-append, append-nil}
use torsor.Kernel.Messages.Create.{MessageInput, new_attention, opens_attention}

abbrev pub targets : List Attention → List String
targets [] = []
targets (a ∷ xs) = a.target_agent_id ∷ targets xs

-- an open Attention for this revision of a Message
abbrev pub IsOpenFor : String → Attention → Type 0
IsOpenFor revision_id a = (is_open a.status ≡ true) × (a.message_revision_id ≡ revision_id)

-- These Attentions are new: one, open, for each of the Agents that the input opens one for.
pub record Opens (input : MessageInput) (revision_id : String) (ids : List String)
    (before after : List Attention) : Type 0 where
  pub opened : List Attention
  pub added : after ≡ before ++ opened
  pub targeted : targets opened ≡ where_rows (opens_attention input) ids
  pub each : All (IsOpenFor revision_id) opened

pub Opens-skip :
    (input : MessageInput) (v t : String) (ids : List String) (before after : List Attention)
    → opens_attention input t ≡ false
    → Opens input v ids before after
    → Opens input v (ids ++ t ∷ []) before after
Opens-skip input v t ids before after e h = record {
  opened = h.opened;
  added = h.added;
  targeted =
      h.targeted ∙ sym (where_rows-append (opens_attention input) ids t ∙ rw e (append-nil _));
  each = h.each;
}

targets-append :
    (xs : List Attention) (a : Attention)
    → targets (xs ++ a ∷ []) ≡ targets xs ++ a.target_agent_id ∷ []
targets-append [] a = refl
targets-append (x ∷ xs) a = ap (λ l. x.target_agent_id ∷ l) (targets-append xs a)

each-append :
    (v : String) (xs : List Attention) (a : Attention)
    → All (IsOpenFor v) xs
    → IsOpenFor v a
    → All (IsOpenFor v) (xs ++ a ∷ [])
each-append v [] a h k = (k, tt)
each-append v (x ∷ xs) a h k = (h.0, each-append v xs a h.1 k)

pub Opens-add :
    (input : MessageInput) (root v t id : String) (ids : List String)
    (before after : List Attention)
    → opens_attention input t ≡ true
    → Opens input v ids before after
    → Opens input v (ids ++ t ∷ []) before (after ++ new_attention input id root v t ∷ [])
Opens-add input root v t id ids before after e h = record {
  opened = h.opened ++ new_attention input id root v t ∷ [];
  added =
      ap (λ l. l ++ new_attention input id root v t ∷ []) h.added
      ∙ append_assoc before h.opened (new_attention input id root v t ∷ []);
  targeted =
      targets-append h.opened (new_attention input id root v t)
      ∙ ap (λ l. l ++ t ∷ []) h.targeted
      ∙ sym (where_rows-append (opens_attention input) ids t ∙ rw e refl);
  each = each-append v h.opened (new_attention input id root v t) h.each (refl, refl);
}
