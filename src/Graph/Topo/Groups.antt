-- ===== src/Graph/Topo/Groups.antt =====
-- ParallelGroups of engine/graph/topo.go. Go does not fix the order in which `range` visits a map:
-- `arrange k` is the order of the visits in the round that has `k` rounds of fuel left.
use brockleyai.Prelude.{
  ℕ, zero, suc, ◌==◌, Bool, true, Option, none, some, List, [], ◌∷◌, ◌++◌, if◌then◌else◌, length,
  Str, update, mem, select, all, not,
}
use brockleyai.Model.{Node, Edge, Graph}

-- `map[string]map[string]bool`: `none` is a missing key, whose nil map cannot be written to.
abbrev pub Deps : Type 0
Deps = Str → Option (List Str)

abbrev pub no_deps : Deps
no_deps _ = none

unfoldable pub init_deps : List Node → Deps → Deps
init_deps [] d = d
init_deps (n ∷ ns) d = init_deps ns (update d n.id (some []))

-- `none` is the panic of a write to a nil map.
unfoldable pub add_dep : Edge → Deps → Option Deps
add_dep e d = if e.back_edge then some d else elim (d e.target_node_id) [
  | none ↦ none
  | some ds ↦ some (update d e.target_node_id (some (ds ++ e.source_node_id ∷ [])))
]

unfoldable pub add_deps : List Edge → Deps → Option Deps
add_deps [] d = some d
add_deps (e ∷ es) d = elim (add_dep e d) [ none ↦ none | some d' ↦ add_deps es d' ]

-- The keys of `remaining`, each once.
unfoldable pub add_keys : List Node → List Str → List Str
add_keys [] keys = keys
add_keys (n ∷ ns) keys = add_keys ns (if mem n.id keys then keys else keys ++ n.id ∷ [])

-- `for dep := range deps[nodeID]`: all dependencies are completed.
abbrev pub is_ready : Deps → List Str → Str → Bool
is_ready d completed id = elim (d id) [ none ↦ true | some ds ↦ all (λ dep. mem dep completed) ds ]

pub data GroupsResult : Type 0 where
  grouped : List (List Str) → GroupsResult
  -- "cycle detected: %d nodes remaining but none are ready"
  stuck : ℕ → GroupsResult
  panicked : GroupsResult
  out_of_fuel : GroupsResult

module _ (arrange : ℕ → List Str → List Str) where
  abbrev pub ready : ℕ → Deps → List Str → List Str → List Str
  ready k d completed remaining = select (is_ready d completed) (arrange k remaining)

  unfoldable pub rounds : ℕ → Deps → List Str → List Str → List (List Str) → GroupsResult
  rounds fuel d completed [] groups = grouped groups
  rounds zero d completed (r ∷ rs) groups = out_of_fuel
  rounds (suc fuel) d completed (r ∷ rs) groups =
      let remaining = r ∷ rs in
      let now = ready fuel d completed remaining in
      let rest =
        rounds fuel d (completed ++ now) (select (λ id. not (mem id now)) remaining)
          (groups ++ now ∷ []) in
      if length now == 0 then stuck (length remaining) else rest

  unfoldable pub parallel_groups : Graph → GroupsResult
  unfolding add_dep add_deps add_keys rounds init_deps
  parallel_groups g = elim (add_deps g.edges (init_deps g.nodes no_deps)) [
    | none ↦ panicked
    | some d ↦ rounds (length g.nodes) d [] (add_keys g.nodes []) []
  ]
