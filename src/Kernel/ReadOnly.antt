-- ===== src/Kernel/ReadOnly.antt =====
-- packages/kernel/src/database.ts: statements that read and do not write.
use torsor.Prelude.{String, ◌≡◌, sym, ap, ◌∙◌, Option, some, first_row, str_eq}
use torsor.Kernel.Action.{gets, or_throw}
use torsor.Kernel.Action.Triples.{Triple, Triple-gets, Triple-or_throw, Triple-next, Triple-weaken}
use torsor.Kernel.Errors.{KernelError}
use torsor.Kernel.World.{World, Db, now}
use torsor.Kernel.Guards.{require_outbox_event}

-- Nothing is said of a throw: its writes are rolled back.
abbrev pub Any : World → Type 0
Any w = Unit

-- The database is this one.
abbrev pub Same : Db → World → Type 0
Same d w = w.db ≡ d

module _ (d : Db) where
  pub Triple-read :
      {A : Type 0} (f : Db → A)
      → Triple Any (Same d) (gets (λ w. f w.db)) (λ a s. Same d s × (a ≡ f d))
  Triple-read f = Triple-weaken (λ s h. h) (Triple-gets _) (λ a s h. (h.0, sym h.1 ∙ ap f h.0))

  pub Triple-observe : Triple Any (Same d) now (λ _ s. Same d s × Unit)
  unfolding now
  Triple-observe = record { at = λ s h. (h, tt) }

  pub Triple-row :
      {A : Type 0} (x : Option A) (e : KernelError)
      → Triple Any (Same d) (or_throw x e) (λ a s. Same d s × (x ≡ some a))
  Triple-row x e = Triple-or_throw x e (λ s h. tt)

  pub Triple-event :
      (id : String)
      → Triple Any
          (Same d)
          (require_outbox_event id)
          (λ e s. Same d s × (first_row (λ f. str_eq f.id id) d.outbox_events ≡ some e))
  unfolding require_outbox_event
  Triple-event id =
      Triple-next (Triple-read (λ u. first_row (λ f. str_eq f.id id) u.outbox_events))
        λ x x_eq. Triple-weaken (λ s h. h) (Triple-row x _) (λ e s h. (h.0, sym x_eq ∙ h.1))
