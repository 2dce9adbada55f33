-- ===== src/Graph/Cycles/Search.antt =====
-- The search with three colours. The source recurs with no bound; here each call costs a unit of fuel.
use brockleyai.Prelude.{
  ℕ, zero, suc, ◌+◌, Bool, true, false, Option, none, some, List, [], ◌∷◌, ◌++◌, if◌then◌else◌,
  length, Str, update,
}
use brockleyai.Model.{Node, Edge, Graph}

pub data Color : Type 0 where
  white gray black : Color

-- The variables that `dfs` captures. A missing colour reads as 0, which is white.
pub record DfsState : Type 0 where
  pub colors : Str → Color
  pub cycle_path : List Str

unfoldable pub forward_adj : List Edge → (Str → List Str) → Str → List Str
forward_adj [] adj = adj
forward_adj (e ∷ es) adj = forward_adj es (
    if e.back_edge
    then adj
    else update adj e.source_node_id (adj e.source_node_id ++ e.target_node_id ∷ []))

-- `cyclePath[:len(cyclePath)-1]`
unfoldable pub drop_last : List Str → List Str
drop_last [] = []
drop_last (x ∷ []) = []
drop_last (x ∷ y ∷ ys) = x ∷ drop_last (y ∷ ys)

abbrev pub enter : Str → DfsState → DfsState
enter n s = record { colors = update s.colors n gray; cycle_path = s.cycle_path ++ n ∷ [] }

unfoldable pub leave : Str → DfsState → DfsState
unfolding drop_last
leave n s = record { colors = update s.colors n black; cycle_path = drop_last s.cycle_path }

abbrev pub Outcome : Type 0
Outcome = Option (Bool × DfsState)

-- The loop over the neighbours; `go` is the recursive call of `dfs`.
unfoldable pub visit_all : (Str → DfsState → Outcome) → List Str → DfsState → Outcome
visit_all go [] s = some (false, s)
visit_all go (n ∷ ns) s = elim (s.colors n) [
  | gray ↦ some (true, s)
  | white ↦ elim (go n s) [
    | none ↦ none
    | some (true, s') ↦ some (true, s')
    | some (false, s') ↦ visit_all go ns s'
  ]
  | black ↦ visit_all go ns s
]

unfoldable pub dfs : (Str → List Str) → ℕ → Str → DfsState → Outcome
unfolding visit_all leave
dfs adj zero n s = none
dfs adj (suc fuel) n s = elim (visit_all (dfs adj fuel) (adj n) (enter n s)) [
  | none ↦ none
  | some (true, s') ↦ some (true, s')
  | some (false, s') ↦ some (false, leave n s')
]

-- The outer loop: `has_cycle` and the state after it.
unfoldable pub search_all : (Str → List Str) → ℕ → List Node → Bool → DfsState → Outcome
search_all adj fuel [] has_cycle s = some (has_cycle, s)
search_all adj fuel (n ∷ ns) has_cycle s = elim (s.colors n.id) [
  | white ↦ elim (dfs adj fuel n.id s) [
    | none ↦ none
    | some (true, s') ↦ search_all adj fuel ns true s'
    | some (false, s') ↦ search_all adj fuel ns has_cycle s'
  ]
  | _ ↦ search_all adj fuel ns has_cycle s
]

abbrev pub unvisited : DfsState
unvisited = record { colors = λ _. white; cycle_path = [] }

-- Whether the search meets a gray node.
unfoldable pub find_cycle : Graph → Option Bool
unfolding forward_adj search_all dfs
find_cycle g =
    elim (search_all (forward_adj g.edges (λ _. [])) (length g.nodes + length g.edges) g.nodes false
      unvisited) [ none ↦ none | some (has_cycle, _) ↦ some has_cycle ]
