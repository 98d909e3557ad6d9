-- ===== src/Kernel/Outbox/Held.antt =====
-- packages/kernel/src/outbox.ts: the checks of an acknowledgement, on its ids and on the leases.
use torsor.Prelude.{
  and_true, ℕ, suc, ◌+◌, String, ◌≡◌, refl, ap, subst, ◌∙◌, true, ◌&&◌, List, [], ◌∷◌, All, length,
  is_text, str_eq, eq_iff, ◌==◌,
}
use torsor.Kernel.Action.{for_each}
use torsor.Kernel.Action.Triples.{
  Triple, Triple-pure, Triple-check, Triple-bind, Triple-next, Triple-weaken, Triple-assume,
}
use torsor.Kernel.Rows.{OutboxEvent}
use torsor.Kernel.World.{World, now}
use torsor.Kernel.Outbox.Rows.{is_live_at, same_ids, ids_of}
use torsor.Kernel.Outbox.Queue.{Found}
use torsor.Kernel.Outbox.Loops.{Any, Triple-require_event_in}
use torsor.Kernel.Outbox.Acknowledge.{same_rows, require_events, require_live_lease}

pub same_ids-equal : (xs ys : List String) → same_ids xs ys ≡ true → xs ≡ ys
unfolding same_ids
same_ids-equal [] [] h = refl
same_ids-equal [] (y ∷ ys) h = cc
same_ids-equal (x ∷ xs) [] h = cc
same_ids-equal (x ∷ xs) (y ∷ ys) h =
    let (first, rest) = and_true (str_eq x y) (same_ids xs ys) h in
    ap (λ i. i ∷ xs) ((eq_iff x y).0 first) ∙ ap (λ l. y ∷ l) (same_ids-equal xs ys rest)

pub same_rows-ids : (xs ys : List OutboxEvent) → same_rows xs ys ≡ true → ids_of xs ≡ ids_of ys
unfolding same_rows
same_rows-ids [] [] h = refl
same_rows-ids [] (y ∷ ys) h = cc
same_rows-ids (x ∷ xs) [] h = cc
same_rows-ids (x ∷ xs) (y ∷ ys) h =
    let (first, rest) =
      and_true (str_eq x.id y.id && x.sequence == y.sequence) (same_rows xs ys) h in
    ap (λ i. i ∷ ids_of xs) ((eq_iff x.id y.id).0 (and_true _ _ first).0)
    ∙ ap (λ l. y.id ∷ l) (same_rows-ids xs ys rest)

pub length-ids_of : (xs : List OutboxEvent) → length (ids_of xs) ≡ length xs
length-ids_of [] = refl
length-ids_of (x ∷ xs) = ap suc (length-ids_of xs)

-- The table, the clock and the number of its readings so far.
abbrev pub Reads : List OutboxEvent → (ℕ → ℕ) → ℕ → World → Type 0
Reads t clock n s = (s.outbox_events ≡ t) × (s.clock ≡ clock) × (s.reads ≡ n)

-- The holder leased each event under the token, and its lease was live at its own reading of the
-- clock, of which the first is the n-th.
abbrev pub HeldBy : String → String → (ℕ → ℕ) → ℕ → List OutboxEvent → Type 0
HeldBy holder token clock n [] = Unit
HeldBy holder token clock n (e ∷ es) =
    (is_text e.lease_holder_principal_id holder ≡ true)
    × (is_text e.lease_token token ≡ true)
    × (is_live_at e.lease_expires_at (clock n) ≡ true)
    × HeldBy holder token clock (n + 1) es

module _ (t : List OutboxEvent) (clock : ℕ → ℕ) where
  Triple-observe :
      (n : ℕ) → Triple Any (Reads t clock n) now (λ at s. Reads t clock (n + 1) s × (at ≡ clock n))
  unfolding now
  Triple-observe n = record {
    at = λ s h. ((h.0, h.1, ap (λ k. k + 1) h.2), ap (λ f. f s.reads) h.1 ∙ ap clock h.2);
  }

  Triple-require_live_lease :
      (holder token : String) (n : ℕ) (e : OutboxEvent)
      → Triple Any (Reads t clock n) (require_live_lease holder token e) (λ _ s.
        Reads t clock (n + 1) s
        × ((is_text e.lease_holder_principal_id holder ≡ true)
            × (is_text e.lease_token token ≡ true)
            × (is_live_at e.lease_expires_at (clock n) ≡ true)))
  unfolding require_live_lease
  Triple-require_live_lease holder token n e = Triple-next (Triple-check _ _ (λ s h. tt)) λ _ _.
      Triple-next (Triple-check _ _ (λ s h. tt)) λ _ held. Triple-bind _ _ (Triple-observe n) λ at.
        Triple-assume λ read.
          Triple-weaken (λ s h. h) (Triple-check _ _ (λ s h. tt))
            λ _ s h.
              let (names, dated) = and_true _ _ held in
              let (holder_eq, token_eq) = and_true _ _ names in
              (
                h.0,
                (holder_eq, token_eq, subst (λ i. is_live_at e.lease_expires_at i ≡ true) read h.1),
              )

  pub Triple-require_live_leases :
      (holder token : String) (n : ℕ) (es : List OutboxEvent)
      → Triple Any
          (Reads t clock n)
          (for_each (require_live_lease holder token) es)
          (λ _ s. (s.outbox_events ≡ t) × HeldBy holder token clock n es)
  unfolding for_each
  Triple-require_live_leases holder token n [] =
      Triple-weaken (λ s h. h) (Triple-pure tt) (λ _ s h. (h.0.0, tt))
  Triple-require_live_leases holder token n (e ∷ es) =
      Triple-bind _ _ (Triple-require_live_lease holder token n e) λ _. Triple-assume λ held.
        Triple-weaken (λ s h. h) (Triple-require_live_leases holder token (n + 1) es)
          (λ _ s h. (h.0, (held.0, held.1, held.2, h.1)))

  pub Triple-require_events :
      (n : ℕ) (es : List OutboxEvent)
      → All (Found t) es
      → Triple Any
          (Reads t clock n)
          (require_events (ids_of es))
          (λ ds s. Reads t clock n s × (ds ≡ es))
  unfolding require_events
  Triple-require_events n [] found = Triple-pure []
  Triple-require_events n (e ∷ es) found =
      Triple-next (Triple-require_event_in t (λ s h. h.0) e found.0) λ d d_e.
        Triple-next (Triple-require_events n es found.1) λ ds ds_es.
          Triple-weaken (λ s h. h) (Triple-pure _)
            (λ r s h. (h.0, h.1 ∙ cons_equal d e ds es d_e ds_es))
    where
      cons_equal :
          (a b : OutboxEvent) (cs ds : List OutboxEvent) → a ≡ b → cs ≡ ds → a ∷ cs ≡ b ∷ ds
      cons_equal a b cs ds p q = cc
