-- ===== src/Graph/Topo/Waves.antt =====
-- ParallelGroups against its specification: it groups exactly the graphs whose forward edges close
-- no cycle, each node once, and every forward edge leads to a later group.
use brockleyai.Prelude.{
  ℕ, zero, suc, ◌+◌, ◌<◌, ◌≤◌, ◌≡◌, ◌≢◌, refl, ap, Bool, false, List, [], ◌∷◌, ◌++◌, if◌then◌else◌,
  length, length-append, Str, some, Option-cases, inl, inr, arith, count, str_eq_refl, Bool-cases,
  str_eq_iff, ◌==◌, not, mem, select, ◌↔◌,
}
use brockleyai.Model.{Node, Graph}
use brockleyai.Graph.Shape.{ids, IsWired, IsRanking}
use brockleyai.Graph.Topo.Sort.{topological_sort, sorted}
use brockleyai.Graph.Topo.Order.{topological_sort_sound, topological_sort_complete}
use brockleyai.Graph.Topo.Groups.{
  Deps, no_deps, init_deps, add_deps, add_keys, is_ready, grouped, out_of_fuel, ready, rounds,
  parallel_groups,
}
use brockleyai.Graph.Topo.Entries.{sources, init_deps_lem, add_deps_lem, count-add_keys, HasEntries}
use brockleyai.Graph.Topo.Levels.{
  level, grouped_count, IsShuffle, IsPhase, IsPhase-step, rounds-IsPhase, some_ready, count-select,
}

length-select-le : (p : Str → Bool) (xs : List Str) → length (select p xs) ≤ length xs
length-select-le p [] = omega arith
length-select-le p (x ∷ xs) = ground (arith, length-select-le p xs)

length-select-lt :
    (p : Str → Bool) (xs : List Str) (t : Str)
    → p t ≡ false
    → 0 < count t xs
    → length (select p xs) < length xs
length-select-lt p [] t h k = absurd (omega arith)
length-select-lt p (x ∷ xs) t h k =
    ground (arith, length-select-lt p xs t h, length-select-le p xs, str_eq_iff t x)

not_zero : (n : ℕ) → 0 < n → (n == 0) ≡ false
not_zero n h = ground arith

length-add_keys :
    (ns : List Node) (keys : List Str) → length (add_keys ns keys) ≤ length keys + length ns
unfolding add_keys
length-add_keys [] keys = omega arith
length-add_keys (n ∷ ns) keys = ground (
  arith,
  length-add_keys ns (if mem n.id keys then keys else keys ++ n.id ∷ []),
  length-append keys (n.id ∷ []),
)

module _ (arrange : ℕ → List Str → List Str) (fair : IsShuffle arrange) where
  -- A round that is not stuck removes a node.
  shrinks :
      (k : ℕ) (d : Deps) (completed rest : List Str)
      → 0 < length (ready arrange k d completed rest)
      → length (select (λ id. not (mem id (ready arrange k d completed rest))) rest) < length rest
  shrinks k d completed rest h = first (ready arrange k d completed rest) refl h
    where
      first :
          (now : List Str)
          → ready arrange k d completed rest ≡ now
          → 0 < length now
          → length (select (λ id. not (mem id (ready arrange k d completed rest))) rest)
            < length rest
      first [] e h' = absurd (omega arith)
      first (t ∷ now) e h' = rw e (
          length-select-lt (λ id. not (mem id (t ∷ now))) rest t (ground (arith, str_eq_refl t))
            (ground (
              arith,
              count-select (is_ready d completed) (arrange k rest) t,
              fair k rest t,
              str_eq_refl t,
              ap (λ (l : List Str). count t l) e,
            )))

  rounds-ends :
      (fuel : ℕ) (d : Deps) (completed rest : List Str) (groups : List (List Str))
      → length rest ≤ fuel
      → rounds arrange fuel d completed rest groups ≢ out_of_fuel
  unfolding rounds
  rounds-ends zero d completed [] groups h = cc
  rounds-ends (suc fuel) d completed [] groups h = cc
  rounds-ends zero d completed (r ∷ rs) groups h = absurd (omega arith)
  rounds-ends (suc fuel) d completed (r ∷ rs) groups h =
      let now = ready arrange fuel d completed (r ∷ rs) in
      elim (Bool-cases (length now == 0)) [
        | inl none_ready ↦ rw none_ready (cc)
        | inr some_now ↦ rw some_now (
            rounds-ends fuel d (completed ++ now) (select (λ id. not (mem id now)) (r ∷ rs))
              (groups ++ now ∷ [])
              (omega (arith, h, shrinks fuel d completed (r ∷ rs) (ground arith))))
      ]

  -- ParallelGroups returns or panics on every graph, in as many rounds as the graph has nodes, in
  -- whatever order the maps are visited.
  pub parallel_groups-ne-out_of_fuel : (g : Graph) → parallel_groups arrange g ≢ out_of_fuel
  unfolding parallel_groups
  parallel_groups-ne-out_of_fuel g =
      elim (Option-cases (add_deps g.edges (init_deps g.nodes no_deps))) [
        | inl nil_map ↦ rw (nil_map, parallel_groups) (cc)
        | inr (d, made) ↦
            rw (made, parallel_groups)
              (rounds-ends (length g.nodes) d [] (add_keys g.nodes []) []
                (omega (arith, length-add_keys g.nodes [])))
      ]

  module _ (g : Graph) (w : IsWired g) where
    entries : HasEntries g.edges (init_deps g.nodes no_deps)
    entries e i f = (
      [],
      init_deps_lem g.nodes no_deps e.target_node_id
          (inl (w.target_known e (record { listed = i; forward = f }))),
    )

    IsPhase-init : IsPhase g [] (add_keys g.nodes []) []
    IsPhase-init = record {
      parted = λ t. omega (arith, count-add_keys g.nodes [] t (λ u. omega (arith, w.distinct u)));
      held = λ t. refl;
      levelled = λ e f h. absurd (omega arith);
    }

    start :
        (d : Deps) × (add_deps g.edges (init_deps g.nodes no_deps) ≡ some d)
        × ((t : Str) → 0 < count t (ids g) → d t ≡ some (sources t g.edges))
    start =
        let (d, made, ext) = add_deps_lem g.edges (init_deps g.nodes no_deps) entries in
        (d, made, λ t known. ext t [] (init_deps_lem g.nodes no_deps t (inl known)))

-- The groups that ParallelGroups returns hold every node as often as the graph does, and the source of
-- each forward edge stands in an earlier group than its target, in whatever order the maps are visited.
-- The graph's identifiers are distinct and its forward edges join its nodes.
pub parallel_groups_sound :
    (arrange : ℕ → List Str → List Str) (g : Graph) (groups : List (List Str))
    → IsShuffle arrange
    → IsWired g
    → parallel_groups arrange g ≡ grouped groups
    → ((t : Str) → grouped_count t groups ≡ count t (ids g)) × IsRanking g (λ t. level t groups)
unfolding parallel_groups
parallel_groups_sound arrange g groups fair w e =
    let (d, made, deps) = start arrange fair g w in
    let (completed, p) =
      rounds-IsPhase arrange fair g w d deps (length g.nodes) [] (add_keys g.nodes []) [] groups
        (IsPhase-init arrange fair g w) (rw (made, parallel_groups) at e) in
    let counts = λ (t : Str). all_grouped p t in
    (
      counts,
      λ edge f.
          (p.levelled edge f (omega (arith, counts edge.target_node_id, w.target_known edge f))).1,
    )
  where
    all_grouped :
        {completed : List Str}
        → IsPhase g completed [] groups
        → (t : Str) → grouped_count t groups ≡ count t (ids g)
    all_grouped p t = omega (arith, p.parted t, p.held t)

module _ (arrange : ℕ → List Str → List Str) (fair : IsShuffle arrange) (g : Graph) (w : IsWired g)
    (d : Deps) (deps : (t : Str) → 0 < count t (ids g) → d t ≡ some (sources t g.edges)) where
  rounds_complete :
      (rank : Str → ℕ)
      → IsRanking g rank
      → (fuel : ℕ) (completed rest : List Str) (groups : List (List Str)) → length rest ≤ fuel
      → IsPhase g completed rest groups
      → (final : List (List Str)) × (rounds arrange fuel d completed rest groups ≡ grouped final)
  unfolding rounds
  rounds_complete rank ranked zero completed [] groups h p = (groups, refl)
  rounds_complete rank ranked (suc fuel) completed [] groups h p = (groups, refl)
  rounds_complete rank ranked zero completed (r ∷ rs) groups h p = absurd (omega arith)
  rounds_complete rank ranked (suc fuel) completed (r ∷ rs) groups h p =
      let now = ready arrange fuel d completed (r ∷ rs) in
      let found =
        some_ready arrange fair g w d deps rank ranked fuel completed (r ∷ rs) p.parted
          (suc (rank r)) r (omega arith) (ground (arith, str_eq_refl r)) in
      let (final, done) =
        rounds_complete rank ranked fuel (completed ++ now)
          (select (λ id. not (mem id now)) (r ∷ rs)) (groups ++ now ∷ [])
          (omega (arith, h, shrinks arrange fair fuel d completed (r ∷ rs) found))
          (IsPhase-step arrange fair g w d deps fuel completed (r ∷ rs) groups p) in
      (final, rw (not_zero (length now) found) done)

-- On a graph whose identifiers are distinct and whose forward edges join its nodes, ParallelGroups
-- returns groups whenever the nodes can be ranked so that every forward edge leads to a higher rank.
pub parallel_groups_complete :
    (arrange : ℕ → List Str → List Str) (g : Graph) (rank : Str → ℕ)
    → IsShuffle arrange
    → IsWired g
    → IsRanking g rank
    → (groups : List (List Str)) × (parallel_groups arrange g ≡ grouped groups)
unfolding parallel_groups
parallel_groups_complete arrange g rank fair w ranked =
    let (d, made, deps) = start arrange fair g w in
    let (final, done) =
      rounds_complete arrange fair g w d deps rank ranked (length g.nodes) [] (add_keys g.nodes [])
        [] (omega (arith, length-add_keys g.nodes [])) (IsPhase-init arrange fair g w) in
    (final, rw (made, parallel_groups) done)

-- The two planners agree, on a graph whose identifiers are distinct and whose forward edges join its
-- nodes: ParallelGroups returns groups exactly when TopologicalSort returns an order, in whatever order
-- the maps are visited.
pub parallel_groups-iff-topological_sort :
    (arrange : ℕ → List Str → List Str) (g : Graph)
    → IsShuffle arrange
    → IsWired g
    → ((groups : List (List Str)) × (parallel_groups arrange g ≡ grouped groups))
      ↔ ((order : List Str) × (topological_sort g ≡ sorted order))
parallel_groups-iff-topological_sort arrange g fair w = (
  (λ (groups, e).
      topological_sort_complete g (λ t. level t groups) w
        (parallel_groups_sound arrange g groups fair w e).1),
  (λ (order, e).
      parallel_groups_complete arrange g _ fair w (topological_sort_sound g order w e).1),
)
