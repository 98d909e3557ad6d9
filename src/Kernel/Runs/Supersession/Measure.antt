-- ===== src/Kernel/Runs/Supersession/Measure.antt =====
-- packages/kernel/src/runs.ts: the while loop of the search for a cycle ends.
use torsor.Prelude.{
  ℕ, zero, suc, ◌≤◌, ◌<◌, ◌≢◌, String, ◌≡◌, refl, Bool, true, false, not, Option, none, some, List,
  [], ◌∷◌, inl, inr, arith, Bool-cases, length, str_eq, eq_iff, any_row, where_rows, subst, sym,
  if◌then◌else◌,
}
use torsor.Kernel.Runs.Supersession.{Edge, get, next, ends, cycles, unfinished, follow, walk}

-- the entries whose keys were not visited
abbrev pub unvisited : List String → List Edge → ℕ
unvisited visited es = length (where_rows (λ e. not (any_row (str_eq e.source) visited)) es)

unvisited-le :
    (c : String) (visited : List String) (es : List Edge)
    → unvisited (c ∷ visited) es ≤ unvisited visited es
unfolding where_rows any_row
unvisited-le c visited [] = omega arith
unvisited-le c visited (e ∷ es) = ground (arith, unvisited-le c visited es)

unvisited-lt :
    (c d : String) (visited : List String) (es : List Edge)
    → get c es ≡ some d
    → any_row (str_eq c) visited ≡ false
    → unvisited (c ∷ visited) es < unvisited visited es
unfolding where_rows any_row get
unvisited-lt c d visited [] h k = cc
unvisited-lt c d visited (e ∷ es) h k = elim (Bool-cases (str_eq e.source c)) [
  | inl same ↦
      let seen : any_row (str_eq e.source) visited ≡ false =
        subst (λ i. any_row (str_eq i) visited ≡ false) (sym ((eq_iff e.source c).0 same)) k in
      rw (same, seen) (omega (arith, unvisited-le c visited es))
  | inr other ↦
      rw other
        (longer (any_row (str_eq e.source) visited) (unvisited-lt c d visited es (rest other) k))
]
  where
    rest : str_eq e.source c ≡ false → get c es ≡ some d
    rest other = ground (arith, h, other)

    longer :
        (b : Bool)
        → unvisited (c ∷ visited) es < unvisited visited es
        → length (
            if not b
            then e ∷ where_rows (λ e. not (any_row (str_eq e.source) (c ∷ visited))) es
            else where_rows (λ e. not (any_row (str_eq e.source) (c ∷ visited))) es)
          < length (
              if not b
              then e ∷ where_rows (λ e. not (any_row (str_eq e.source) visited)) es
              else where_rows (λ e. not (any_row (str_eq e.source) visited)) es)
    longer true h = h
    longer false h = omega (arith, h)

pub next-get :
    (es : List Edge) (c : String) (o : Option String)
    → next es c ≡ o
    → (d : String) → o ≡ some d
    → get c es ≡ some d
unfolding next
next-get es c o h d e = elim (Bool-cases (str_eq c "")) [
  | inl b ↦ absurd (clash b)
  | inr b ↦ ground (arith, b, h, e)
]
  where
    clash : str_eq c "" ≡ true → ⊥
    clash b = ground (arith, b, h, e)

-- With more fuel than there are keys left to visit, the fuel does not run out.
pub follow-ends :
    (es : List Edge) (fuel : ℕ) (visited : List String) (c : String)
    → unvisited visited es < fuel
    → follow es fuel visited c ≢ unfinished
unfolding follow
follow-ends es zero visited c h = absurd (omega (arith, h))
follow-ends es (suc fuel) visited c h =
    step (λ d. follow-ends es fuel (c ∷ visited) d) (next es c) refl
  where
    turn :
        (d : String)
        → (unvisited (c ∷ visited) es < fuel → follow es fuel (c ∷ visited) d ≢ unfinished)
        → (b : Bool) → any_row (str_eq c) visited ≡ b
        → get c es ≡ some d
        → elim b [ true ↦ cycles | false ↦ follow es fuel (c ∷ visited) d ] ≢ unfinished
    turn d later true e g = λ q. cc
    turn d later false e g = later (omega (arith, h, unvisited-lt c d visited es g e))

    step :
        ((d : String)
          → unvisited (c ∷ visited) es < fuel
          → follow es fuel (c ∷ visited) d ≢ unfinished)
        → (o : Option String) → next es c ≡ o
        → elim o [
          | none ↦ ends
          | some target ↦ elim (any_row (str_eq c) visited) [
            | true ↦ cycles
            | false ↦ follow es fuel (c ∷ visited) target
          ]
        ]
          ≢ unfinished
    step later none e = λ q. cc
    step later (some d) e =
        turn d (later d) (any_row (str_eq c) visited) refl (next-get es c (some d) e d refl)

all_unvisited : (es : List Edge) → unvisited [] es ≡ length es
unfolding where_rows any_row
all_unvisited [] = refl
all_unvisited (e ∷ es) = omega (arith, all_unvisited es)

-- The walk along the entries of a Map ends by the loop's own tests, whatever the entries and the
-- start: it reaches an id that is no key, or one that it has visited; the fuel of one step more than
-- there are entries does not run out.
pub walk-ends : (es : List Edge) (start : String) → walk es start ≢ unfinished
unfolding walk
walk-ends es start = follow-ends es (suc (length es)) [] start (omega (arith, all_unvisited es))
