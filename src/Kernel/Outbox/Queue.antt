-- ===== src/Kernel/Outbox/Queue.antt =====
-- packages/kernel/src/outbox.ts, abstractly: the table is a queue, the acknowledged events first and
-- the pending ones behind them, and no two events share an id.
use torsor.Prelude.{
  String, ◌≡◌, refl, sym, ap, ◌∙◌, true, false, some, List, [], ◌∷◌, ◌++◌, map, All, arith, str_eq,
  eq_iff, eq_refl, where_rows, update_rows, first_row, subst,
}
use torsor.Kernel.Rows.{OutboxEvent}
use torsor.Kernel.Outbox.Rows.{pending, is_pending_event, has_id, ids_of}

-- No later event has the id of an earlier one.
abbrev pub Distinct : List OutboxEvent → Type 0
Distinct [] = Unit
Distinct (e ∷ es) = All (λ f. has_id e.id f ≡ false) es × Distinct es

pub record IsQueue (t acked ps : List OutboxEvent) : Type 0 where
  pub split : t ≡ acked ++ ps
  pub done : All (λ e. is_pending_event e ≡ false) acked
  pub waiting : All (λ e. is_pending_event e ≡ true) ps
  pub distinct : Distinct (acked ++ ps)

pending-waiting :
    (ps : List OutboxEvent) → All (λ e. is_pending_event e ≡ true) ps → pending ps ≡ ps
unfolding where_rows
pending-waiting [] h = refl
pending-waiting (e ∷ es) h = rw (h.0) (ap (λ l. e ∷ l) (pending-waiting es h.1))

pending-append :
    (xs ps : List OutboxEvent)
    → All (λ e. is_pending_event e ≡ false) xs
    → All (λ e. is_pending_event e ≡ true) ps
    → pending (xs ++ ps) ≡ ps
unfolding where_rows
pending-append [] ps h k = pending-waiting ps k
pending-append (e ∷ es) ps h k = rw (h.0) (pending-append es ps h.1 k)

pub IsQueue-pending : (t xs ps : List OutboxEvent) → IsQueue t xs ps → pending t ≡ ps
IsQueue-pending t xs ps q = ap pending q.split ∙ pending-append xs ps q.done q.waiting

-- The updates of a loop over ids.
unfoldable pub update_ids :
    (OutboxEvent → OutboxEvent) → List String → List OutboxEvent → List OutboxEvent
update_ids f [] t = t
update_ids f (i ∷ is) t = update_ids f is (update_rows (has_id i) f t)

update_rows_none :
    (i : String) (f : OutboxEvent → OutboxEvent) (t : List OutboxEvent)
    → All (λ e. has_id i e ≡ false) t
    → update_rows (has_id i) f t ≡ t
unfolding update_rows
update_rows_none i f [] h = refl
update_rows_none i f (e ∷ es) h = rw (h.0) (ap (λ l. e ∷ l) (update_rows_none i f es h.1))

update_rows_miss :
    (i : String) (f : OutboxEvent → OutboxEvent) (e : OutboxEvent) (t : List OutboxEvent)
    → has_id i e ≡ false
    → update_rows (has_id i) f (e ∷ t) ≡ e ∷ update_rows (has_id i) f t
unfolding update_rows
update_rows_miss i f e t h = rw h

update_rows_front :
    (f : OutboxEvent → OutboxEvent) (e : OutboxEvent) (t : List OutboxEvent)
    → All (λ d. has_id e.id d ≡ false) t
    → update_rows (has_id e.id) f (e ∷ t) ≡ f e ∷ t
unfolding update_rows
update_rows_front f e t h = rw (eq_refl e.id) (ap (λ l. f e ∷ l) (update_rows_none e.id f t h))

-- An event whose id is not among those of the loop is passed over.
abbrev NotIn : OutboxEvent → List OutboxEvent → Type 0
NotIn e es = All (λ f. has_id f.id e ≡ false) es

update_ids_skip :
    (f : OutboxEvent → OutboxEvent) (e : OutboxEvent) (xs t : List OutboxEvent)
    → NotIn e xs
    → update_ids f (ids_of xs) (e ∷ t) ≡ e ∷ update_ids f (ids_of xs) t
unfolding update_ids
update_ids_skip f e [] t h = refl
update_ids_skip f e (x ∷ xs) t h =
    ap (update_ids f (ids_of xs)) (update_rows_miss x.id f e t h.0)
    ∙ update_ids_skip f e xs (update_rows (has_id x.id) f t) h.1

has_id_sym : (d e : OutboxEvent) → has_id d.id e ≡ false → has_id e.id d ≡ false
has_id_sym d e h = ground (arith, eq_iff e.id d.id, eq_iff d.id e.id)

pub All-append_left {ℓ} :
    {A : Type ℓ} (P : A → Type 0) (xs ys : List A) → All P (xs ++ ys) → All P xs
All-append_left P [] ys h = tt
All-append_left P (x ∷ xs) ys h = (h.0, All-append_left P xs ys h.1)

pub All-append_right {ℓ} :
    {A : Type ℓ} (P : A → Type 0) (xs ys : List A) → All P (xs ++ ys) → All P ys
All-append_right P [] ys h = h
All-append_right P (x ∷ xs) ys h = All-append_right P xs ys h.1

pub All-append {ℓ} :
    {A : Type ℓ} (P : A → Type 0) (xs ys : List A) → All P xs → All P ys → All P (xs ++ ys)
All-append P [] ys h k = k
All-append P (x ∷ xs) ys h k = (h.0, All-append P xs ys h.1 k)

NotIn-of :
    (e : OutboxEvent) (es : List OutboxEvent) → All (λ f. has_id e.id f ≡ false) es → NotIn e es
NotIn-of e [] h = tt
NotIn-of e (f ∷ fs) h = (has_id_sym e f h.0, NotIn-of e fs h.1)

module _ (f : OutboxEvent → OutboxEvent) (keeps : (e : OutboxEvent) → (f e).id ≡ e.id) where
  NotIn-kept : (e : OutboxEvent) (es : List OutboxEvent) → NotIn e es → NotIn (f e) es
  NotIn-kept e [] h = tt
  NotIn-kept e (d ∷ ds) h = (rw (keeps e) h.0, NotIn-kept e ds h.1)

  update_front :
      (xs ys : List OutboxEvent)
      → Distinct (xs ++ ys)
      → update_ids f (ids_of xs) (xs ++ ys) ≡ map f xs ++ ys
  unfolding update_ids
  update_front [] ys h = refl
  update_front (x ∷ xs) ys h =
      ap (update_ids f (ids_of xs)) (update_rows_front f x (xs ++ ys) h.0)
      ∙ update_ids_skip f (f x) xs (xs ++ ys)
          (NotIn-kept x xs (NotIn-of x xs (All-append_left _ xs ys h.0)))
      ∙ ap (λ l. f x ∷ l) (update_front xs ys h.1)

  -- The events behind the acknowledged ones are updated where they stand.
  pub update_ids_middle :
      (ds xs ys : List OutboxEvent)
      → Distinct (ds ++ (xs ++ ys))
      → update_ids f (ids_of xs) (ds ++ (xs ++ ys)) ≡ ds ++ (map f xs ++ ys)
  update_ids_middle [] xs ys h = update_front xs ys h
  update_ids_middle (d ∷ ds) xs ys h =
      update_ids_skip f d xs (ds ++ (xs ++ ys))
        (NotIn-of d xs (All-append_left _ xs ys (All-append_right _ ds (xs ++ ys) h.0)))
      ∙ ap (λ l. d ∷ l) (update_ids_middle ds xs ys h.1)

  pub ids_of-map : (xs : List OutboxEvent) → ids_of (map f xs) ≡ ids_of xs
  ids_of-map [] = refl
  ids_of-map (x ∷ xs) = rw (keeps x, ids_of-map xs)

ids_of-append : (xs ys : List OutboxEvent) → ids_of (xs ++ ys) ≡ ids_of xs ++ ids_of ys
ids_of-append [] ys = refl
ids_of-append (x ∷ xs) ys = ap (λ l. x.id ∷ l) (ids_of-append xs ys)

All-ids :
    (i : String) (xs ys : List OutboxEvent)
    → ids_of xs ≡ ids_of ys
    → All (λ f. has_id i f ≡ false) xs
    → All (λ f. has_id i f ≡ false) ys
All-ids i xs [] e h = tt
All-ids i [] (y ∷ ys) e h = cc
All-ids i (x ∷ xs) (y ∷ ys) e h =
    (subst (λ j. str_eq j i ≡ false) (cc) h.0, All-ids i xs ys (cc) h.1)

Distinct-ids : (xs ys : List OutboxEvent) → ids_of xs ≡ ids_of ys → Distinct xs → Distinct ys
Distinct-ids xs [] e h = tt
Distinct-ids [] (y ∷ ys) e h = cc
Distinct-ids (x ∷ xs) (y ∷ ys) e h = (
  subst (λ j. All (λ f. has_id j f ≡ false) ys) (cc) (All-ids x.id xs ys (cc) h.0),
  Distinct-ids xs ys (cc) h.1,
)

-- A change of the middle that keeps the ids keeps them distinct.
pub Distinct-middle :
    (f : OutboxEvent → OutboxEvent) (keeps : (e : OutboxEvent) → (f e).id ≡ e.id)
    (ds xs ys : List OutboxEvent)
    → Distinct (ds ++ (xs ++ ys))
    → Distinct (ds ++ (map f xs ++ ys))
Distinct-middle f keeps ds xs ys h =
    Distinct-ids (ds ++ (xs ++ ys)) (ds ++ (map f xs ++ ys))
      (ids_of-append ds (xs ++ ys)
        ∙ ap (λ l. ids_of ds ++ l)
            (ids_of-append xs ys
              ∙ ap (λ l. l ++ ids_of ys) (sym (ids_of-map f keeps xs))
              ∙ sym (ids_of-append (map f xs) ys))
        ∙ sym (ids_of-append ds (map f xs ++ ys)))
      h

-- An event of the table is the one that its id finds.
abbrev pub Found : List OutboxEvent → OutboxEvent → Type 0
Found t e = first_row (has_id e.id) t ≡ some e

Found-behind :
    (d : OutboxEvent) (t es : List OutboxEvent)
    → NotIn d es
    → All (Found t) es
    → All (Found (d ∷ t)) es
unfolding first_row
Found-behind d t [] n h = tt
Found-behind d t (e ∷ es) n h = (rw (n.0) h.0, Found-behind d t es n.1 h.1)

Found-front : (xs ys : List OutboxEvent) → Distinct (xs ++ ys) → All (Found (xs ++ ys)) xs
unfolding first_row
Found-front [] ys h = tt
Found-front (x ∷ xs) ys h = (
  rw (eq_refl x.id),
  Found-behind x (xs ++ ys) xs (NotIn-of x xs (All-append_left _ xs ys h.0))
      (Found-front xs ys h.1),
)

pub Found-middle :
    (ds xs ys : List OutboxEvent) → Distinct (ds ++ (xs ++ ys)) → All (Found (ds ++ (xs ++ ys))) xs
Found-middle [] xs ys h = Found-front xs ys h
Found-middle (d ∷ ds) xs ys h =
    Found-behind d (ds ++ (xs ++ ys)) xs
      (NotIn-of d xs (All-append_left _ xs ys (All-append_right _ ds (xs ++ ys) h.0)))
      (Found-middle ds xs ys h.1)
