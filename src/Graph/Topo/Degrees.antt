-- ===== src/Graph/Topo/Degrees.antt =====
-- The maps that TopologicalSort builds, and one round of its inner loop, described by counting edges.
use brockleyai.Prelude.{
  ℕ, ◌+◌, ◌==◌, ◌≡◌, refl, sym, true, false, List, [], ◌∷◌, ◌++◌, if◌then◌else◌, Str, update, ℤ,
  pos, pred_ℤ, is_zero, arith, mem, count, count-append, str_eq_iff, str_eq, append-nil,
  append_assoc, ◌&&◌, count→mem, mem→count,
}
use brockleyai.Model.{Node, Edge, Graph}
use brockleyai.Graph.Shape.{targets, remaining}
use brockleyai.Graph.Topo.Sort.{Adjacency, no_edges, add_nodes, add_edge, add_edges, relax}

add_nodes_lem :
    (ns : List Node) (a : Adjacency)
    → ((t : Str) → a.in_degree t ≡ pos 0)
    → ((t : Str) → (add_nodes ns a).in_degree t ≡ pos 0)
      × ((t : Str) → (add_nodes ns a).adj t ≡ a.adj t)
add_nodes_lem [] a h = (h, λ t. refl)
add_nodes_lem (n ∷ ns) a h =
    add_nodes_lem ns (record a { in_degree = update a.in_degree n.id (pos 0) })
      (λ t. ground (arith, h t))

adj-add_edge :
    (e : Edge) (a : Adjacency) (s : Str) → (add_edge e a).adj s ≡ a.adj s ++ targets s (e ∷ [])
adj-add_edge e a s = ground (arith, str_eq_iff s e.source_node_id, append-nil (a.adj s))

targets-cons :
    (s : Str) (e : Edge) (es : List Edge) → targets s (e ∷ es) ≡ targets s (e ∷ []) ++ targets s es
targets-cons s e es = ground arith

adj-add_edges :
    (es : List Edge) (a : Adjacency) (s : Str) → (add_edges es a).adj s ≡ a.adj s ++ targets s es
unfolding add_edges
adj-add_edges [] a s = sym (append-nil (a.adj s))
adj-add_edges (e ∷ es) a s =
    rw (adj-add_edges es (add_edge e a) s, adj-add_edge e a s, targets-cons s e es)
      (append_assoc (a.adj s) (targets s (e ∷ [])) (targets s es))

in_degree-add_edge :
    (e : Edge) (a : Adjacency) (t : Str) (n : ℕ)
    → a.in_degree t ≡ pos n
    → (add_edge e a).in_degree t ≡ pos (n + remaining [] (e ∷ []) t)
in_degree-add_edge e a t n h = ground (arith, str_eq_iff t e.target_node_id)

remaining-cons :
    (order : List Str) (e : Edge) (es : List Edge) (t : Str)
    → remaining order (e ∷ es) t ≡ remaining order (e ∷ []) t + remaining order es t
remaining-cons order e es t = ground arith

in_degree-add_edges :
    (es : List Edge) (a : Adjacency) (t : Str) (n : ℕ)
    → a.in_degree t ≡ pos n
    → (add_edges es a).in_degree t ≡ pos (n + remaining [] es t)
unfolding add_edges
in_degree-add_edges [] a t n h = ground arith
in_degree-add_edges (e ∷ es) a t n h = ground (
  arith,
  remaining-cons [] e es t,
  in_degree-add_edges es (add_edge e a) t (n + remaining [] (e ∷ []) t)
      (in_degree-add_edge e a t n h),
)

module _ (g : Graph) where
  abbrev pub built : Adjacency
  built = add_edges g.edges (add_nodes g.nodes no_edges)

  pub built-adj : (s : Str) → built.adj s ≡ targets s g.edges
  built-adj s = rw (
    adj-add_edges g.edges (add_nodes g.nodes no_edges) s,
    (add_nodes_lem g.nodes no_edges (λ t. refl)).1 s,
  )

  pub built-in_degree : (t : Str) → built.in_degree t ≡ pos (remaining [] g.edges t)
  built-in_degree t = ground (
    arith,
    in_degree-add_edges g.edges (add_nodes g.nodes no_edges) t 0
        ((add_nodes_lem g.nodes no_edges (λ t. refl)).0 t),
  )

-- Placing a node takes its edges off the remaining ones.
pub remaining-snoc :
    (c : Str) (order : List Str) (es : List Edge) (t : Str)
    → count c order ≡ 0
    → remaining (order ++ c ∷ []) es t + count t (targets c es) ≡ remaining order es t
remaining-snoc c order [] t h = omega arith
remaining-snoc c order (e ∷ es) t h = ground (
  arith,
  remaining-snoc c order es t,
  mem-snoc e.source_node_id c order,
  str_eq_iff c e.source_node_id,
  str_eq_iff e.source_node_id c,
  str_eq_iff t e.target_node_id,
  count→mem c order,
  mem→count c order,
  absent,
)
  where
    absent : mem c order ≡ false
    absent = ground (arith, mem→count c order)

    mem-snoc :
        (a b : Str) (xs : List Str) → mem a (xs ++ b ∷ []) ≡ (if mem a xs then true else str_eq a b)
    mem-snoc a b [] = ground arith
    mem-snoc a b (x ∷ xs) = ground (arith, mem-snoc a b xs)

-- How often the inner loop puts a node into the queue.
abbrev pub newly : (Str → ℕ) → Str → List Str → ℕ
newly left t ns = if mem t ns && (left t == 0) then 1 else 0

-- The inner loop ends at the counts `left`, and queues each node whose count it brings to 0, once.
pub relax_lem :
    (left : Str → ℕ) (ns : List Str) (d : Str → ℤ) (queue : List Str)
    → ((t : Str) → d t ≡ pos (left t + count t ns))
    → ((t : Str) → (relax ns d queue).0 t ≡ pos (left t))
      × ((t : Str) → count t (relax ns d queue).1 ≡ count t queue + newly left t ns)
unfolding relax
relax_lem left [] d queue h = ((λ t. ground (arith, h t)), (λ t. ground arith))
relax_lem left (n ∷ ns) d queue h =
    let d' : Str → ℤ = update d n (pred_ℤ (d n)) in
    let queue' : List Str = if is_zero (pred_ℤ (d n)) then queue ++ n ∷ [] else queue in
    let (degrees, queued) = relax_lem left ns d' queue' (λ t. step t) in
    (
      degrees,
      λ t. ground (
        arith,
        queued t,
        h n,
        count-append t queue (n ∷ []),
        str_eq_iff t n,
        str_eq_iff n n,
        mem→count t ns,
        count→mem t ns,
        mem→count n ns,
        count→mem n ns,
      ),
    )
  where
    step : (t : Str) → update d n (pred_ℤ (d n)) t ≡ pos (left t + count t ns)
    step t = ground (arith, h t, h n, str_eq_iff t n, str_eq_iff n n)
