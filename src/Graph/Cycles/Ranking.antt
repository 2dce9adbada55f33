-- ===== src/Graph/Cycles/Ranking.antt =====
-- The search reports a cycle exactly where the nodes cannot be ranked along the forward edges.
use brockleyai.Prelude.{
  ℕ, ◌+◌, ◌<◌, ◌≡◌, refl, Bool, false, List, [], ◌∷◌, length, Str, Option, some, none, Option-cases,
  inl, inr, arith, count, str_eq_refl, In, here, there,
}
use brockleyai.Model.{Edge, Graph}
use brockleyai.Graph.Shape.{targets, index, IsWired, IsRanking}
use brockleyai.Graph.Topo.Invariant.{targets-In}
use brockleyai.Graph.Cycles.Search.{forward_adj, Outcome, search_all, unvisited, find_cycle}
use brockleyai.Graph.Cycles.Fuel.{forward_adj_lem, find_cycle-total}
use brockleyai.Graph.Cycles.Gray.{search_all-false}
use brockleyai.Graph.Cycles.Finish.{Finished, search_all-Finished}

climbing :
    (g : Graph) (rank : Str → ℕ)
    → IsRanking g rank
    → (s t : Str) → 0 < count t (forward_adj g.edges (λ _. []) s)
    → rank s < rank t
climbing g rank ranked s t h =
    let (e, i, f, src, tgt) = targets-In s t g.edges (rw (forward_adj_lem g.edges s) at h) in
    rw (← src, ← tgt) (ranked e (record { listed = i; forward = f }))

targets_of_In :
    (es : List Edge) (e : Edge)
    → In e es
    → e.back_edge ≡ false
    → 0 < count e.target_node_id (targets e.source_node_id es)
targets_of_In [] e i f = elim i [ ]
targets_of_In (x ∷ es) e here f =
    ground (arith, f, str_eq_refl x.source_node_id, str_eq_refl x.target_node_id)
targets_of_In (x ∷ es) e (there i) f = ground (arith, targets_of_In es e i f)

-- On a graph that can be ranked so that every forward edge leads to a higher rank, the search reports no
-- cycle.
pub find_cycle_sound : (g : Graph) (rank : Str → ℕ) → IsRanking g rank → find_cycle g ≡ some false
unfolding find_cycle
find_cycle_sound g rank ranked = elim (Option-cases outcome) [
  | inl lost ↦ absurd (find_cycle-total g (rw (lost, find_cycle)))
  | inr ((b, s), e) ↦
      let none_found : b ≡ false =
        search_all-false adj rank (climbing g rank ranked) (length g.nodes + length g.edges) g.nodes
          unvisited s b (λ t. refl) e in
      rw (e, find_cycle, none_found)
]
  where
    adj : Str → List Str
    adj = forward_adj g.edges (λ _. [])

    outcome : Outcome
    outcome = search_all adj (length g.nodes + length g.edges) g.nodes false unvisited

-- Where the search reports no cycle, on a graph whose forward edges join its nodes, the nodes can be
-- ranked so that every forward edge leads to a higher rank.
pub find_cycle_complete :
    (g : Graph) → IsWired g → find_cycle g ≡ some false → (rank : Str → ℕ) × IsRanking g rank
unfolding find_cycle
find_cycle_complete g w e = elim (Option-cases outcome) [
  | inl lost ↦
      let bad : ◌≡◌ {A = Option Bool} none (some false) = rw (lost, find_cycle) at e in absurd (cc)
  | inr ((b, s), ran) ↦
      let result : some b ≡ some false = rw (ran, find_cycle) at e in
      let quiet : b ≡ false = cc in
      let (done, f, grows, all) =
        search_all-Finished adj (length g.nodes + length g.edges) g.nodes unvisited s [] (λ t. refl)
          (rw quiet at ran) start in
      (
        (λ t. index t done),
        λ edge fw.
            (f.closed edge.source_node_id edge.target_node_id
              (all edge.source_node_id (w.source_known edge fw))
              (rw (forward_adj_lem g.edges edge.source_node_id)
                (targets_of_In g.edges edge fw.listed fw.forward))).1,
      )
]
  where
    adj : Str → List Str
    adj = forward_adj g.edges (λ _. [])

    outcome : Outcome
    outcome = search_all adj (length g.nodes + length g.edges) g.nodes false unvisited

    start : Finished adj unvisited []
    start = record {
      blacks = λ t. ((λ h. absurd (cc)), λ h. absurd (omega arith));
      closed = λ u t h k. absurd (omega arith);
    }
