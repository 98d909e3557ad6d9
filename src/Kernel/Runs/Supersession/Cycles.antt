-- ===== src/Kernel/Runs/Supersession/Cycles.antt =====
-- packages/kernel/src/runs.ts: the search finds a cycle exactly where there is one.
use torsor.Prelude.{
  ℕ, zero, suc, ◌≢◌, ◌↔◌, String, ◌≡◌, refl, sym, subst, Bool, true, false, Option, none, some,
  List, [], ◌∷◌, inl, inr, arith, All, Bool-cases, length, str_eq, eq_iff, any_row,
}
use torsor.Kernel.Runs.Supersession.{
  Edge, get, keys, next, Walk, ends, cycles, unfinished, is_cycle, follow, walk, has_cycle,
}
use torsor.Kernel.Runs.Supersession.Measure.{next-get, walk-ends}

-- One id leads to another along one entry or more.
pub data Leads (es : List Edge) : String → String → Type 0 where
  one : {x y : String} → next es x ≡ some y → Leads es x y
  more : {x y z : String} → next es x ≡ some y → Leads es y z → Leads es x z

onward : {es : List Edge} {x y z : String} → Leads es x y → next es y ≡ some z → Leads es x z
onward (one e) k = more e (one k)
onward (more e l) k = more e (onward l k)

-- on a cycle there is a next id, and it is on the cycle
around :
    {es : List Edge} {x y : String}
    → Leads es x x
    → Leads es y x
    → (z : String) × ((next es y ≡ some z) × Leads es z x)
around loop (one {y = y} e) = (y, (e, loop))
around loop (more {y = y} e l) = (y, (e, l))

never_ends :
    (es : List Edge) (fuel : ℕ) (visited : List String) (x y : String)
    → Leads es x x
    → Leads es y x
    → follow es fuel visited y ≢ ends
unfolding follow
never_ends es zero visited x y loop l = λ q. cc
never_ends es (suc fuel) visited x y loop l =
    let (z, (e, l')) = around loop l in
    rw (e, follow)
      (turn z (any_row (str_eq y) visited) (never_ends es fuel (y ∷ visited) x z loop l'))
  where
    turn :
        (z : String) (b : Bool)
        → follow es fuel (y ∷ visited) z ≢ ends
        → elim b [ true ↦ cycles | false ↦ follow es fuel (y ∷ visited) z ] ≢ ends
    turn z true h = λ q. cc
    turn z false h = h

visited-Leads :
    (es : List Edge) (c : String) (visited : List String)
    → any_row (str_eq c) visited ≡ true
    → All (λ v. Leads es v c) visited
    → Leads es c c
unfolding any_row
visited-Leads es c [] h k = cc
visited-Leads es c (v ∷ vs) h k = elim (Bool-cases (str_eq c v)) [
  | inl e ↦ subst (λ i. Leads es i c) (sym ((eq_iff c v).0 e)) k.0
  | inr e ↦ visited-Leads es c vs (later e) k.1
]
  where
    later : str_eq c v ≡ false → any_row (str_eq c) vs ≡ true
    later e = ground (arith, h, e)

All-onward :
    (es : List Edge) (c d : String) (visited : List String)
    → next es c ≡ some d
    → All (λ v. Leads es v c) visited
    → All (λ v. Leads es v d) visited
All-onward es c d [] e h = tt
All-onward es c d (v ∷ vs) e h = (onward h.0 e, All-onward es c d vs e h.1)

abbrev Cyclic : List Edge → Type 0
Cyclic es = (x : String) × Leads es x x

follow-Cyclic :
    (es : List Edge) (fuel : ℕ) (visited : List String) (c : String)
    → All (λ v. Leads es v c) visited
    → follow es fuel visited c ≡ cycles
    → Cyclic es
unfolding follow
follow-Cyclic es zero visited c h e = cc
follow-Cyclic es (suc fuel) visited c h e =
    step (λ d. follow-Cyclic es fuel (c ∷ visited) d) (next es c) refl e
  where
    turn :
        (d : String)
        → (All (λ v. Leads es v d) (c ∷ visited)
            → follow es fuel (c ∷ visited) d ≡ cycles
            → Cyclic es)
        → next es c ≡ some d
        → (b : Bool) → any_row (str_eq c) visited ≡ b
        → elim b [ true ↦ cycles | false ↦ follow es fuel (c ∷ visited) d ] ≡ cycles
        → Cyclic es
    turn d later k true s q = (c, visited-Leads es c visited s h)
    turn d later k false s q = later (one k, All-onward es c d visited k h) q

    step :
        ((d : String)
          → All (λ v. Leads es v d) (c ∷ visited)
          → follow es fuel (c ∷ visited) d ≡ cycles
          → Cyclic es)
        → (o : Option String) → next es c ≡ o
        → elim o [
          | none ↦ ends
          | some target ↦ elim (any_row (str_eq c) visited) [
            | true ↦ cycles
            | false ↦ follow es fuel (c ∷ visited) target
          ]
        ]
          ≡ cycles
        → Cyclic es
    step later none k q = cc
    step later (some d) k q = turn d (later d) k (any_row (str_eq c) visited) refl q

is_cycle-cycles : (w : Walk) → is_cycle w ≡ true → w ≡ cycles
is_cycle-cycles ends h = cc
is_cycle-cycles cycles h = refl
is_cycle-cycles unfinished h = cc

cycles_left : (w : Walk) → w ≢ ends → w ≢ unfinished → is_cycle w ≡ true
cycles_left ends h k = absurd (h refl)
cycles_left cycles h k = refl
cycles_left unfinished h k = absurd (k refl)

any_key :
    (p : String → Bool) (es : List Edge) (x y : String)
    → get x es ≡ some y
    → p x ≡ true
    → any_row p (keys es) ≡ true
unfolding any_row get
any_key p [] x y h k = cc
any_key p (e ∷ es) x y h k = elim (Bool-cases (str_eq e.source x)) [
  | inl b ↦ rw ((eq_iff e.source x).0 b, k) refl
  | inr b ↦ ground (arith, any_key p es x y, b, h, k)
]

any_row-holds :
    {A : Type 0} (p : A → Bool) (xs : List A) → any_row p xs ≡ true → (x : A) × (p x ≡ true)
unfolding any_row
any_row-holds p [] h = cc
any_row-holds p (x ∷ xs) h = elim (Bool-cases (p x)) [
  | inl e ↦ (x, e)
  | inr e ↦ any_row-holds p xs (rw e at h)
]

first_get : {es : List Edge} {x y : String} → Leads es x y → (z : String) × (get x es ≡ some z)
first_get {es} {x} (one {y = y} e) = (y, next-get es x (some y) e y refl)
first_get {es} {x} (more {y = y} e l) = (y, next-get es x (some y) e y refl)

-- The search of completeRun reports a cycle exactly where some id leads back to itself along the
-- entries.
pub has_cycle-Leads : (es : List Edge) → (has_cycle es ≡ true) ↔ ((x : String) × Leads es x x)
unfolding has_cycle walk
has_cycle-Leads es = (
  λ h.
      let (start, e) = any_row-holds (λ start. is_cycle (walk es start)) (keys es) h in
      follow-Cyclic es (suc (length es)) [] start tt (is_cycle-cycles (walk es start) e),
  λ h.
      let (x, loop) = h in
      let (y, e) = first_get loop in
      any_key (λ start. is_cycle (walk es start)) es x y e
        (cycles_left (walk es x) (never_ends es (suc (length es)) [] x x loop loop)
          (walk-ends es x)),
)
