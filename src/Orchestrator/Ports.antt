-- ===== src/Orchestrator/Ports.antt =====
-- The tables that an execution reads and writes: initState, resolveInputs, applyStateWrites, isTruthy and
-- the collection of outputs in engine/orchestrator/orchestrator.go.
pub mod Priority
use brockleyai.Prelude.{
  Str, str_eq, codes, ℕ, ℤ, pos, is_zero, Bool, true, false, not, ◌||◌, ◌==◌, Option, none, some,
  List, [], ◌∷◌, if◌then◌else◌, update,
}
use brockleyai.Json.{Json}
use brockleyai.Model.{Port, StateBinding, StateField, GraphState, Node, Edge, Graph}
use brockleyai.Value.{
  Value, nil, bool, int, int64, float, str, arr, obj, no_items, item, no_entries, entry, Items,
  Entries, Table, append_item,
}

module _ {F : Type 0} where
  abbrev pub empty : Table F
  empty _ = none

  -- `m[k]`, where a missing key reads as nil.
  abbrev pub read : Table F → Str → Value F
  read t k = elim (t k) [ none ↦ nil | some v ↦ v ]

  -- `if v, ok := from[key]; ok { to[port] = v }`
  abbrev pub copy_if : Option (Value F) → Str → Table F → Table F
  copy_if none port to = to
  copy_if (some v) port to = update to port (some v)

  unfoldable pub apply_defaults : (Str → Value F) → List Port → Table F → Table F
  apply_defaults decode [] inputs = inputs
  apply_defaults decode (p ∷ ps) inputs = apply_defaults decode ps (elim p.default_value [
    | none ↦ inputs
    | some text ↦ update inputs p.name (some (decode text))
  ])

  unfoldable pub apply_reads : Table F → List StateBinding → Table F → Table F
  apply_reads state [] inputs = inputs
  apply_reads state (b ∷ bs) inputs =
      apply_reads state bs (copy_if (state b.state_field) b.port inputs)

  -- The value that an edge carries, if its source has produced one. Back-edges carry none here.
  unfoldable pub edge_value : (Str → Option (Table F)) → Edge → Option (Value F)
  edge_value outputs e =
      if e.back_edge
      then none
      else elim (outputs e.source_node_id) [ none ↦ none | some ports ↦ ports e.source_port ]

  unfoldable pub apply_edges : (Str → Option (Table F)) → List Edge → Table F → Table F
  unfolding edge_value
  apply_edges outputs [] inputs = inputs
  apply_edges outputs (e ∷ es) inputs =
      apply_edges outputs es (copy_if (edge_value outputs e) e.target_port inputs)

  -- Defaults first, then the state, then the edges, each over the one before.
  unfoldable pub resolve_inputs :
      (Str → Value F) → Node → (Str → Option (Table F)) → List Edge → Table F → Table F
  unfolding apply_defaults apply_reads apply_edges
  resolve_inputs decode node outputs incoming state =
      apply_edges outputs incoming
        (apply_reads state node.state_reads (apply_defaults decode node.input_ports empty))

  -- A field that holds an array is appended to; any other is replaced.
  abbrev pub write_value : Value F → Value F → Value F
  write_value (arr vs) v = arr (append_item vs v)
  write_value _ v = v

  unfoldable pub apply_state_writes : List StateBinding → Table F → Table F → Table F
  unfolding append_item
  apply_state_writes [] outputs state = state
  apply_state_writes (b ∷ bs) outputs state = apply_state_writes bs outputs (elim (outputs b.port) [
    | none ↦ state
    | some v ↦ update state b.state_field (some (write_value (read state b.state_field) v))
  ])

  -- The zero value for the type that a field's schema names.
  unfoldable pub zero_value : Str → Value F
  zero_value t =
      if str_eq t (codes "array")
      then arr no_items
      else if str_eq t (codes "object")
      then obj no_entries
      else if str_eq t (codes "string")
      then str []
      else if str_eq t (codes "integer") || str_eq t (codes "number")
      then int (pos 0)
      else if str_eq t (codes "boolean")
      then bool false
      else nil

  unfoldable pub init_fields : (Str → Value F) → (Str → Str) → List StateField → Table F → Table F
  unfolding zero_value
  init_fields decode schema_type [] state = state
  init_fields decode schema_type (f ∷ fs) state = init_fields decode schema_type fs (
      update state f.name (
        some
          (elim f.initial [ some text ↦ decode text | none ↦ zero_value (schema_type f.schema) ])))

  unfoldable pub init_state : (Str → Value F) → (Str → Str) → Graph → Table F
  unfolding init_fields
  init_state decode schema_type g = elim g.state [
    | none ↦ empty
    | some s ↦ init_fields decode schema_type s.fields empty
  ]

  -- In the case for the three number types Go compares an interface with the `int` 0: a value of another
  -- number type is never equal to it.
  unfoldable pub is_truthy : Value F → Bool
  is_truthy nil = false
  is_truthy (bool b) = b
  is_truthy (str []) = false
  is_truthy (str (_ ∷ _)) = true
  is_truthy (int n) = not (is_zero n)
  is_truthy (int64 n) = true
  is_truthy (float x) = true
  is_truthy (arr no_items) = false
  is_truthy (arr (item _ _)) = true
  is_truthy (obj no_entries) = false
  is_truthy (obj (entry _ _ _)) = true
  is_truthy (Value.lambda _ _) = true

  -- `for k, v := range out { outputs[k] = v }`
  abbrev pub merge : Table F → Table F → Table F
  merge out outputs k = elim (out k) [ none ↦ outputs k | some v ↦ some v ]

  unfoldable pub collect_outputs : List Node → (Str → Option (Table F)) → Table F → Table F
  collect_outputs [] node_outputs outputs = outputs
  collect_outputs (n ∷ ns) node_outputs outputs = collect_outputs ns node_outputs (
      if str_eq n.node_type (codes "output")
      then elim (node_outputs n.id) [ none ↦ outputs | some out ↦ merge out outputs ]
      else outputs)
