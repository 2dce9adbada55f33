-- ===== src/Orchestrator/Skips.antt =====
-- propagateSkips and markSkipped of engine/orchestrator/orchestrator.go. The source recurs along the graph
-- with no bound; here each level of calls costs a unit of fuel.
pub mod Justified
pub mod Reasons
use brockleyai.Prelude.{
  Str, str_eq, ℕ, zero, suc, Bool, true, false, not, ◌&&◌, ◌||◌, Option, none, some, List, [], ◌∷◌,
  if◌then◌else◌, update, all, select,
}
use brockleyai.Model.{Edge}
use brockleyai.Value.{Value, Table, is_nil}
use brockleyai.Orchestrator.Ports.{read}

-- `deadEdges` by edge identifier, and `skipped` by node identifier.
pub record Skips : Type 0 where
  pub dead : Str → Bool
  pub skipped : Str → Bool

-- `outEdges[id]` and `inEdges[id]`, in the order of the graph's edges.
abbrev pub out_edges : List Edge → Str → List Edge
out_edges es id = select (λ e. str_eq e.source_node_id id) es

abbrev pub in_edges : List Edge → Str → List Edge
in_edges es id = select (λ e. str_eq e.target_node_id id) es

abbrev pub kill : Edge → Skips → Skips
kill e s = record s { dead = update s.dead e.id true }

abbrev pub skip : Str → Skips → Skips
skip id s = record s { skipped = update s.skipped id true }

-- An incoming edge that does not keep its target alive.
abbrev pub is_spent : Skips → Edge → Bool
is_spent s e = e.back_edge || s.dead e.id || s.skipped e.source_node_id

-- The loop over the outgoing edges of a skipped node; `go` is the recursive call of markSkipped.
unfoldable pub kill_all : (Str → Skips → Option Skips) → List Edge → Skips → Option Skips
kill_all go [] s = some s
kill_all go (e ∷ es) s = elim (go e.target_node_id (kill e s)) [
  | none ↦ none
  | some s' ↦ kill_all go es s'
]

unfoldable pub mark_skipped : List Edge → ℕ → Str → Skips → Option Skips
unfolding kill_all
mark_skipped edges zero id s = none
mark_skipped edges (suc fuel) id s =
    elim (s.skipped id || not (all (is_spent s) (in_edges edges id))) [
      | true ↦ some s
      | false ↦ kill_all (mark_skipped edges fuel) (out_edges edges id) (skip id s)
    ]

-- The loop over the outgoing edges of a conditional node: a port without a value is a branch not taken.
unfoldable pub propagate_skips :
    {F : Type 0} → List Edge → ℕ → Table F → List Edge → Skips → Option Skips
unfolding mark_skipped
propagate_skips edges fuel outputs [] s = some s
propagate_skips edges fuel outputs (e ∷ es) s = elim (is_nil (read outputs e.source_port)) [
  | false ↦ propagate_skips edges fuel outputs es s
  | true ↦ elim (mark_skipped edges fuel e.target_node_id (kill e s)) [
    | none ↦ none
    | some s' ↦ propagate_skips edges fuel outputs es s'
  ]
]
