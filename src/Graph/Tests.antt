-- ===== src/Graph/Tests.antt =====
-- A graph with an input node, a node that loops to itself by a back-edge, and an output node, on which the
-- theorems about graphs apply.
use brockleyai.Prelude.{
  mem, Str, codes, ℕ, pos, ◌≡◌, ◌≢◌, ◌↔◌, refl, true, false, none, some, List, [], ◌∷◌, count,
}
use brockleyai.Prelude.Text.{str_eq}
use brockleyai.Json.{obj, str, no_members, member, get, has}
use brockleyai.Model.{Port, Node, Edge, Graph, is_required}
use brockleyai.Graph.Shape.{ids, index, IsWired, IsRanking}
use brockleyai.Graph.Topo.Sort.{
  topological_sort, sorted, cycle, add_edges, initial_queue, relax, kahn, check_order,
}
use brockleyai.Graph.Topo.Sort
use brockleyai.Graph.Topo.Fuel.{topological_sort-ne-out_of_fuel}
use brockleyai.Graph.Topo.Order.{topological_sort_sound, topological_sort_complete}
use brockleyai.Graph.Topo.Groups.{
  parallel_groups, grouped, add_dep, add_deps, add_keys, rounds, init_deps,
}
use brockleyai.Graph.Topo.Groups
use brockleyai.Graph.Topo.Levels.{IsShuffle, level, grouped_count}
use brockleyai.Graph.Topo.Waves.{
  parallel_groups_sound, parallel_groups_complete, parallel_groups-ne-out_of_fuel,
  parallel_groups-iff-topological_sort,
}
use brockleyai.Graph.Cycles.Search.{find_cycle}
use brockleyai.Graph.Cycles.Fuel.{find_cycle-total}
use brockleyai.Graph.Cycles.Ranking.{find_cycle_sound, find_cycle_complete}
use brockleyai.Graph.Validate.Report.{for_each, for_each_at, error_if, warn_if}
use brockleyai.Graph.Validate.Nodes.{is_input, validate_node, validate_has_input_node}
use brockleyai.Graph.Validate.Wiring.{
  validate_reachability, validate_exclusive_fan_in, reachable_from_inputs,
}
use brockleyai.Graph.Validate.Schema.{validate_strong_typing, kind_of, type_of}
use brockleyai.Graph.Validate.Reachable.{Reaches, reachable_from_inputs_lem}
use brockleyai.Graph.Validate.Run.{Library, validate}
use brockleyai.Graph.Validate.Sound.{
  validate-IsSound, IsSound-IsWired, validate-plans, find_cycle-iff-topological_sort,
}

abbrev port : Str → Port
port name = record { name = name; schema = codes "s"; required = none; default_value = none }

abbrev node : Str → Str → List Port → List Port → Node
node id kind ins outs = record {
  id = id;
  name = id;
  node_type = kind;
  input_ports = ins;
  output_ports = outs;
  state_reads = [];
  state_writes = [];
  config = [];
}

abbrev edge : Str → Str → Str → Str → Str → Edge
edge id source out target in_port = record {
  id = id;
  source_node_id = source;
  source_port = out;
  target_node_id = target;
  target_port = in_port;
  back_edge = false;
  condition = [];
  max_iterations = none;
}

abbrev loop_edge : Edge
loop_edge = record {
  id = codes "e3";
  source_node_id = codes "b";
  source_port = codes "y";
  target_node_id = codes "b";
  target_port = codes "x";
  back_edge = true;
  condition = codes "input.y";
  max_iterations = some (pos 3);
}

abbrev sample : Graph
sample = record {
  id = codes "g";
  name = codes "g";
  nodes =
      node (codes "c") (codes "output") (port (codes "z") ∷ []) []
      ∷ node (codes "a") (codes "input") [] (port (codes "x") ∷ [])
      ∷ node (codes "b") (codes "transform") (port (codes "x") ∷ []) (port (codes "y") ∷ [])
      ∷ [];
  edges =
      edge (codes "e1") (codes "a") (codes "x") (codes "b") (codes "x")
      ∷ edge (codes "e2") (codes "b") (codes "y") (codes "c") (codes "z")
      ∷ loop_edge
      ∷ [];
  state = none;
}

-- Each schema is taken for a string schema, and no node has a configuration.
abbrev library : Library
library = record {
  unmarshal = λ _. some (obj (member (codes "type") (str (codes "string")) no_members));
  decode_llm = λ _. none;
  decode_superagent = λ _. none;
  decode_api_tool = λ _. none;
  template_vars = λ _. [];
  to_upper = λ s. s;
}

abbrev order : List Str
order = codes "a" ∷ codes "b" ∷ codes "c" ∷ []

abbrev waves : List (List Str)
waves = (codes "a" ∷ []) ∷ (codes "b" ∷ []) ∷ (codes "c" ∷ []) ∷ []

abbrev in_place : ℕ → List Str → List Str
in_place k xs = xs

in_place-IsShuffle : IsShuffle in_place
in_place-IsShuffle k xs t = refl

sample-valid : (validate library sample).valid ≡ true
unfolding validate str_eq get has is_required for_each is_input error_if validate_reachability
    warn_if validate_exclusive_fan_in find_cycle validate_node for_each_at validate_strong_typing
    kind_of type_of validate_has_input_node
sample-valid = refl

sample-sorted : topological_sort sample ≡ sorted order
unfolding topological_sort str_eq
sample-sorted = refl

sample-grouped : parallel_groups in_place sample ≡ grouped waves
unfolding parallel_groups str_eq
sample-grouped = refl

sample-quiet : find_cycle sample ≡ some false
unfolding find_cycle str_eq
sample-quiet = refl

sample-IsWired : IsWired sample
sample-IsWired = IsSound-IsWired sample (validate-IsSound library sample sample-valid)

sample-IsRanking : IsRanking sample (λ t. index t order)
sample-IsRanking = (topological_sort_sound sample order sample-IsWired sample-sorted).1

validate-plans_example :
    ((found : List Str) × (topological_sort sample ≡ sorted found))
    × ((groups : List (List Str)) × (parallel_groups in_place sample ≡ grouped groups))
validate-plans_example = validate-plans library sample in_place in_place-IsShuffle sample-valid

topological_sort_sound_example :
    ((t : Str) → count t order ≡ count t (ids sample)) × IsRanking sample (λ t. index t order)
topological_sort_sound_example = topological_sort_sound sample order sample-IsWired sample-sorted

topological_sort_complete_example : (found : List Str) × (topological_sort sample ≡ sorted found)
topological_sort_complete_example =
    topological_sort_complete sample (λ t. index t order) sample-IsWired sample-IsRanking

topological_sort-ne-out_of_fuel_example : topological_sort sample ≢ Sort.out_of_fuel
topological_sort-ne-out_of_fuel_example = topological_sort-ne-out_of_fuel sample

parallel_groups_sound_example :
    ((t : Str) → grouped_count t waves ≡ count t (ids sample))
    × IsRanking sample (λ t. level t waves)
parallel_groups_sound_example =
    parallel_groups_sound in_place sample waves in_place-IsShuffle sample-IsWired sample-grouped

parallel_groups_complete_example :
    (groups : List (List Str)) × (parallel_groups in_place sample ≡ grouped groups)
parallel_groups_complete_example =
    parallel_groups_complete in_place sample (λ t. index t order) in_place-IsShuffle sample-IsWired
      sample-IsRanking

parallel_groups-ne-out_of_fuel_example : parallel_groups in_place sample ≢ Groups.out_of_fuel
parallel_groups-ne-out_of_fuel_example =
    parallel_groups-ne-out_of_fuel in_place in_place-IsShuffle sample

parallel_groups-iff-topological_sort_example :
    ((groups : List (List Str)) × (parallel_groups in_place sample ≡ grouped groups))
    ↔ ((found : List Str) × (topological_sort sample ≡ sorted found))
parallel_groups-iff-topological_sort_example =
    parallel_groups-iff-topological_sort in_place sample in_place-IsShuffle sample-IsWired

find_cycle-total_example : find_cycle sample ≢ none
find_cycle-total_example = find_cycle-total sample

find_cycle_sound_example : find_cycle sample ≡ some false
find_cycle_sound_example = find_cycle_sound sample (λ t. index t order) sample-IsRanking

find_cycle_complete_example : (rank : Str → ℕ) × IsRanking sample rank
find_cycle_complete_example = find_cycle_complete sample sample-IsWired sample-quiet

find_cycle-iff-topological_sort_example :
    (find_cycle sample ≡ some false)
    ↔ ((found : List Str) × (topological_sort sample ≡ sorted found))
find_cycle-iff-topological_sort_example = find_cycle-iff-topological_sort sample sample-IsWired

reachable_from_inputs_lem_example :
    (found : List Str) × (reachable_from_inputs sample ≡ some found)
    × ((t : Str) → (mem t found ≡ true) ↔ Reaches sample t)
reachable_from_inputs_lem_example = reachable_from_inputs_lem sample
