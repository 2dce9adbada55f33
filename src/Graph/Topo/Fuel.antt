-- ===== src/Graph/Topo/Fuel.antt =====
-- TopologicalSort ends on every graph: each round takes a node off the queue, and a node joins it
-- only when its count falls to 0.
use brockleyai.Prelude.{
  ℕ, zero, suc, ◌+◌, ◌<◌, ◌≤◌, ◌≡◌, ◌≢◌, true, false, List, [], ◌∷◌, ◌++◌, if◌then◌else◌, length,
  length-append, length-map, Str, update, some, none, Option-cases, inl, inr, ℤ, pred_ℤ, is_zero,
  is_positive, arith, count, str_eq, str_eq_refl, eq_of_str_eq, map, All, Bool-cases, str_eq_iff,
}
use brockleyai.Model.{Node, Edge, Graph}
use brockleyai.Graph.Shape.{targets}
use brockleyai.Graph.Topo.Sort.{relax, initial_queue, kahn, topological_sort, out_of_fuel}
use brockleyai.Graph.Topo.Degrees.{built, built-adj}

abbrev edge_targets : List Edge → List Str
edge_targets es = map (λ (e : Edge). e.target_node_id) es

-- The edges whose target still waits.
abbrev waiting : (Str → ℤ) → List Str → ℕ
waiting d [] = 0
waiting d (t ∷ ts) = if is_positive (d t) then suc (waiting d ts) else waiting d ts

waiting-le : (d : Str → ℤ) (ts : List Str) → waiting d ts ≤ length ts
waiting-le d [] = omega arith
waiting-le d (t ∷ ts) = ground (arith, waiting-le d ts)

-- A decrement raises no count, and takes a node off the waiting ones when it queues it.
waiting-update :
    (d : Str → ℤ) (n : Str) (ts : List Str)
    → (waiting (update d n (pred_ℤ (d n))) ts ≤ waiting d ts)
      × (is_zero (pred_ℤ (d n)) ≡ true
          → 0 < count n ts
          → waiting (update d n (pred_ℤ (d n))) ts + 1 ≤ waiting d ts)
waiting-update d n [] = ((omega arith), λ z h. absurd (omega arith))
waiting-update d n (t ∷ ts) =
    let (le, lt) = waiting-update d n ts in
    elim (Bool-cases (str_eq t n)) [
      | inl same ↦
          let e : t ≡ n = eq_of_str_eq t n same in
          rw e (ground (arith, le, lt, str_eq_refl n), λ z h. ground (arith, le, lt, str_eq_refl n))
      | inr other ↦
          (ground (arith, le), λ z h. ground (arith, lt z, str_eq_iff n t, str_eq_iff t n))
    ]

relax-waiting :
    (ts ns : List Str) (d : Str → ℤ) (queue : List Str)
    → All (λ n. 0 < count n ts) ns
    → length (relax ns d queue).1 + waiting (relax ns d queue).0 ts ≤ length queue + waiting d ts
unfolding relax
relax-waiting ts [] d queue h = omega arith
relax-waiting ts (n ∷ ns) d queue h =
    let queue' : List Str = if is_zero (pred_ℤ (d n)) then queue ++ n ∷ [] else queue in
    let rest = relax-waiting ts ns (update d n (pred_ℤ (d n))) queue' h.1 in
    let (le, lt) = waiting-update d n ts in
    elim (Bool-cases (is_zero (pred_ℤ (d n)))) [
      | inl z ↦ omega (arith, rest, le, lt z h.0, grown z)
      | inr p ↦ omega (arith, rest, le, same p)
    ]
  where
    grown :
        is_zero (pred_ℤ (d n)) ≡ true
        → length (if is_zero (pred_ℤ (d n)) then queue ++ n ∷ [] else queue) ≡ length queue + 1
    grown z = ground (arith, length-append queue (n ∷ []))

    same :
        is_zero (pred_ℤ (d n)) ≡ false
        → length (if is_zero (pred_ℤ (d n)) then queue ++ n ∷ [] else queue) ≡ length queue
    same z = ground arith

targets-counted :
    (s : Str) (es : List Edge) (t : Str)
    → 0 < count t (targets s es)
    → 0 < count t (edge_targets es)
targets-counted s [] t h = absurd (omega arith)
targets-counted s (e ∷ es) t h = ground (arith, targets-counted s es t)

All-of_count :
    (xs ts : List Str)
    → ((t : Str) → 0 < count t xs → 0 < count t ts)
    → All (λ n. 0 < count n ts) xs
All-of_count [] ts h = tt
All-of_count (x ∷ xs) ts h =
    (h x (ground (arith, str_eq_refl x)), All-of_count xs ts (λ t k. h t (ground arith)))

kahn-ends :
    (es : List Edge) (adj : Str → List Str)
    → ((s : Str) → adj s ≡ targets s es)
    → (fuel : ℕ) (d : Str → ℤ) (queue order : List Str)
    → length queue + waiting d (edge_targets es) ≤ fuel
    → kahn fuel adj d queue order ≢ none
unfolding kahn
kahn-ends es adj same zero d [] order h = cc
kahn-ends es adj same (suc fuel) d [] order h = cc
kahn-ends es adj same zero d (c ∷ queue) order h = absurd (omega arith)
kahn-ends es adj same (suc fuel) d (c ∷ queue) order h =
    let ts = edge_targets es in
    let drop =
      relax-waiting ts (adj c) d queue
        (rw (same c) (All-of_count (targets c es) ts (targets-counted c es))) in
    kahn-ends es adj same fuel (relax (adj c) d queue).0 (relax (adj c) d queue).1 (order ++ c ∷ [])
      (omega arith)

length-initial_queue : (ns : List Node) (d : Str → ℤ) → length (initial_queue ns d) ≤ length ns
unfolding initial_queue
length-initial_queue [] d = omega arith
length-initial_queue (n ∷ ns) d = ground (arith, length-initial_queue ns d)

pub kahn-total :
    (g : Graph)
    → (order : List Str) × (kahn
          (length g.nodes + length g.edges)
          (built g).adj
          (built g).in_degree
          (initial_queue g.nodes (built g).in_degree)
          []
        ≡ some order)
kahn-total g =
    let d = (built g).in_degree in
    let ends =
      kahn-ends g.edges (built g).adj (built-adj g) (length g.nodes + length g.edges) d
        (initial_queue g.nodes d) []
        (omega (
          arith,
          length-initial_queue g.nodes d,
          waiting-le d (edge_targets g.edges),
          length-map (λ (e : Edge). e.target_node_id) g.edges,
        )) in
    elim (Option-cases
      (kahn (length g.nodes + length g.edges) (built g).adj d (initial_queue g.nodes d) [])) [
        | inl stuck ↦ absurd (ends stuck)
        | inr found ↦ found
      ]

-- TopologicalSort returns on every graph, whether or not it has a cycle, duplicate identifiers or
-- dangling edges: as many rounds as the graph has nodes and edges are enough.
pub topological_sort-ne-out_of_fuel : (g : Graph) → topological_sort g ≢ out_of_fuel
unfolding topological_sort
topological_sort-ne-out_of_fuel g e = let (order, ran) = kahn-total g in ground (arith, ran)
