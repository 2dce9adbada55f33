-- ===== src/Graph/Topo/Order.antt =====
-- TopologicalSort against its specification: it succeeds exactly on the graphs whose forward edges
-- close no cycle, with each node once and each edge leading forward.
use brockleyai.Prelude.{
  ℕ, zero, suc, ◌<◌, ◌≤◌, ◌≡◌, List, [], ◌∷◌, ◌++◌, if◌then◌else◌, length, length-map, Str, some,
  inl, inr, ℤ, is_zero, arith, count, str_eq, str_eq_refl, eq_of_str_eq, map, Bool-cases,
  length-le_of_count, count-eq_of_length,
}
use brockleyai.Model.{Node, Graph}
use brockleyai.Graph.Shape.{ids, targets, index, IsForward, IsWired, IsRanking}
use brockleyai.Graph.Topo.Sort.{relax, initial_queue, kahn, topological_sort, sorted}
use brockleyai.Graph.Topo.Degrees.{built, built-adj, built-in_degree}
use brockleyai.Graph.Topo.Invariant.{IsRun, IsRun-step, remaining-eq_zero}
use brockleyai.Graph.Topo.Fuel.{kahn-total}

count-initial_queue :
    (ns : List Node) (d : Str → ℤ) (t : Str)
    → count t (initial_queue ns d)
      ≡ (if is_zero (d t) then count t (map (λ (n : Node). n.id) ns) else 0)
unfolding initial_queue
count-initial_queue [] d t = ground arith
count-initial_queue (n ∷ ns) d t = elim (Bool-cases (str_eq t n.id)) [
  | inl same ↦
      let e : t ≡ n.id = eq_of_str_eq t n.id same in
      let ih = count-initial_queue ns d n.id in rw e (ground (arith, ih, str_eq_refl n.id))
  | inr other ↦ ground (arith, count-initial_queue ns d t)
]

module _ (g : Graph) (w : IsWired g) where
  IsRun-init : IsRun g [] (initial_queue g.nodes (built g).in_degree) (built g).in_degree
  IsRun-init = record {
    once = λ t. ground (arith, queued t, w.distinct t);
    known = λ t h. ground (arith, queued t);
    degree = built-in_degree g;
    waits = λ t h. ground (arith, queued t, built-in_degree g t);
    ready = λ t k h. ground (arith, queued t, built-in_degree g t);
    ordered = λ e f h. absurd (omega arith);
  }
    where
      queued :
          (t : Str)
          → count t (initial_queue g.nodes (built g).in_degree)
            ≡ (if is_zero ((built g).in_degree t) then count t (ids g) else 0)
      queued t = count-initial_queue g.nodes (built g).in_degree t

  -- Where the loop ends, the invariant holds with nothing queued.
  kahn-IsRun :
      (adj : Str → List Str)
      → ((s : Str) → adj s ≡ targets s g.edges)
      → (fuel : ℕ) (d : Str → ℤ) (queue order final : List Str) → IsRun g order queue d
      → kahn fuel adj d queue order ≡ some final
      → (d' : Str → ℤ) × IsRun g final [] d'
  unfolding kahn
  kahn-IsRun adj same zero d [] order final r e = let o : order ≡ final = cc in (d, rw o at r)
  kahn-IsRun adj same (suc fuel) d [] order final r e = let o : order ≡ final = cc in (d, rw o at r)
  kahn-IsRun adj same zero d (c ∷ queue) order final r e = cc
  kahn-IsRun adj same (suc fuel) d (c ∷ queue) order final r e =
      kahn-IsRun adj same fuel (relax (adj c) d queue).0 (relax (adj c) d queue).1 (order ++ c ∷ [])
        final (rw (same c) (IsRun-step g w order c queue d r)) e

  final-IsRun :
      (order : List Str) → topological_sort g ≡ sorted order → (d : Str → ℤ) × IsRun g order [] d
  unfolding topological_sort
  final-IsRun order e =
      let (found, ran) = kahn-total g in
      let same : found ≡ order = ground (arith, ran) in
      let (d, r) = kahn-IsRun (built g).adj (built-adj g) _ _ _ [] found IsRun-init ran in
      (d, rw same at r)

  run_within :
      {order : List Str} {d : Str → ℤ}
      → IsRun g order [] d
      → (t : Str) → count t order ≤ count t (ids g)
  run_within {order} r t = ground (arith, r.once t, r.known t)

  -- Every node of an acyclic graph is placed: else one of least rank would wait for nothing.
  ranked_placed :
      {order : List Str} {d : Str → ℤ} (rank : Str → ℕ)
      → IsRanking g rank
      → IsRun g order [] d
      → (bound : ℕ) (t : Str) → rank t < bound
      → 0 < count t (ids g)
      → 0 < count t order
  ranked_placed rank ranked r zero t h k = absurd (omega arith)
  ranked_placed {order} rank ranked r (suc bound) t h k =
      let free = remaining-eq_zero order g.edges t λ e i f at_t.
        let edge : IsForward g e = record { listed = i; forward = f } in
        let below : rank e.source_node_id < rank t = rw at_t at (ranked e edge) in
        ranked_placed rank ranked r bound e.source_node_id (omega arith) (w.source_known e edge) in
      ground (arith, r.ready t k free)

  same_count :
      {order : List Str} {d : Str → ℤ} (rank : Str → ℕ)
      → IsRanking g rank
      → IsRun g order [] d
      → (t : Str) → count t (ids g) ≤ count t order
  same_count rank ranked r t =
      ground (arith, w.distinct t, ranked_placed rank ranked r (suc (rank t)) t (omega arith))

sorted_length :
    (g : Graph) (order : List Str)
    → topological_sort g ≡ sorted order
    → length (ids g) ≤ length order
unfolding topological_sort
sorted_length g order e =
    let (found, ran) = kahn-total g in ground (arith, ran, length-map (λ (n : Node). n.id) g.nodes)

-- A list that TopologicalSort returns holds every node as often as the graph does, and the source of
-- each forward edge stands before its target. The graph's identifiers are distinct and its forward
-- edges join its nodes.
pub topological_sort_sound :
    (g : Graph) (order : List Str)
    → IsWired g
    → topological_sort g ≡ sorted order
    → ((t : Str) → count t order ≡ count t (ids g)) × IsRanking g (λ t. index t order)
topological_sort_sound g order w e =
    let (d, r) = final-IsRun g w order e in
    let same = count-eq_of_length order (ids g) (run_within g w r) (sorted_length g order e) in
    (
      same,
      λ edge f.
          (r.ordered edge f (ground (arith, same edge.target_node_id, w.target_known edge f))).1,
    )

-- On a graph whose identifiers are distinct and whose forward edges join its nodes, TopologicalSort
-- returns an order whenever the nodes can be ranked so that every forward edge leads to a higher rank.
pub topological_sort_complete :
    (g : Graph) (rank : Str → ℕ)
    → IsWired g
    → IsRanking g rank
    → (order : List Str) × (topological_sort g ≡ sorted order)
unfolding topological_sort
topological_sort_complete g rank w ranked =
    let (found, ran) = kahn-total g in
    let (d, r) = kahn-IsRun g w (built g).adj (built-adj g) _ _ _ [] found (IsRun-init g w) ran in
    let all_placed = λ (t : Str). same_count g w rank ranked r t in
    (
      found,
      ground (
        arith,
        ran,
        length-le_of_count (ids g) found all_placed,
        length-le_of_count found (ids g) (run_within g w r),
        length-map (λ (n : Node). n.id) g.nodes,
      ),
    )
