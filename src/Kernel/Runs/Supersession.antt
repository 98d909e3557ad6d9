-- ===== src/Kernel/Runs/Supersession.antt =====
-- packages/kernel/src/runs.ts: which input of a Run takes the place of which, as completeRun keeps it
-- in a Map, and the search for a cycle in it.
pub mod Measure
pub mod Cycles
use torsor.Prelude.{
  ℕ, zero, suc, String, Bool, true, false, Option, none, some, List, [], ◌∷◌, ◌++◌, length, str_eq,
  any_row, if◌then◌else◌,
}

-- an entry of the Map; a key has one entry
pub record Edge : Type 0 where
  pub source : String
  pub target : String

unfoldable pub get : String → List Edge → Option String
get id [] = none
get id (e ∷ es) = if str_eq e.source id then some e.target else get id es

abbrev pub retarget : String → String → List Edge → List Edge
retarget id target [] = []
retarget id target (e ∷ es) =
    (if str_eq e.source id then record e { target = target } else e) ∷ retarget id target es

-- Map.prototype.set: an entry keeps its place, a new one comes last.
unfoldable pub set : String → String → List Edge → List Edge
set id target es =
    if any_row (λ e. str_eq e.source id) es
    then retarget id target es
    else es ++ record { source = id; target = target } ∷ []

-- Map.prototype.delete
unfoldable pub delete : String → List Edge → List Edge
delete id [] = []
delete id (e ∷ es) = let rest = delete id es in if str_eq e.source id then rest else e ∷ rest

abbrev pub keys : List Edge → List String
keys [] = []
keys (e ∷ es) = e.source ∷ keys es

-- `current && supersession.has(current)`, with what the entry says
unfoldable pub next : List Edge → String → Option String
unfolding get
next es id = if str_eq id "" then none else get id es

-- how a walk along the entries went
pub data Walk : Type 0 where
  ends cycles unfinished : Walk

-- The while loop, with fuel: `visited` is the set, and `unfinished` means that the fuel ran out.
unfoldable pub follow : List Edge → ℕ → List String → String → Walk
unfolding next any_row
follow es zero visited current = unfinished
follow es (suc fuel) visited current = elim (next es current) [
  | none ↦ ends
  | some target ↦ elim (any_row (str_eq current) visited) [
    | true ↦ cycles
    | false ↦ follow es fuel (current ∷ visited) target
  ]
]

abbrev pub is_cycle : Walk → Bool
is_cycle cycles = true
is_cycle _ = false

-- The walk from a key; no walk visits more keys than there are entries.
unfoldable pub walk : List Edge → String → Walk
unfolding follow
walk es start = follow es (suc (length es)) [] start

-- `for (const start of supersession.keys())`
unfoldable pub has_cycle : List Edge → Bool
unfolding walk
has_cycle es = any_row (λ start. is_cycle (walk es start)) (keys es)
