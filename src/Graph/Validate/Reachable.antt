-- ===== src/Graph/Validate/Reachable.antt =====
-- The breadth-first search of validateReachability against reachability along edges.
use brockleyai.Prelude.{
  ℕ, zero, suc, ◌+◌, ◌<◌, ◌≤◌, ◌≡◌, ◌↔◌, ◌⊎◌, inl, inr, refl, sym, ap, ◌∙◌, true, false, not, ◌&&◌,
  ◌||◌, some, List, [], ◌∷◌, ◌++◌, Str, str_eq, str_eq_iff, str_eq_refl, eq_of_str_eq,
  if◌then◌else◌, length, length-append, mem, update, map, length-map, In, here, there, arith,
  Bool-cases,
}
use brockleyai.Model.{Node, Edge, Graph}
use brockleyai.Graph.Validate.Nodes.{is_input}
use brockleyai.Graph.Validate.Wiring.{all_adj, input_ids, mark_new, reach, reachable_from_inputs}

-- A node identifier that an input node has, or that an edge leads to from such an identifier.
pub data Reaches (g : Graph) : Str → Type 0 where
  at_input : {t : Str} (n : Node) → In n g.nodes → is_input n ≡ true → n.id ≡ t → Reaches g t
  along :
      {t : Str} (e : Edge)
      → In e g.edges
      → Reaches g e.source_node_id
      → e.target_node_id ≡ t
      → Reaches g t

mem-append : (t : Str) (xs ys : List Str) → mem t (xs ++ ys) ≡ (mem t xs || mem t ys)
mem-append t [] ys = refl
mem-append t (x ∷ xs) ys = ground (arith, mem-append t xs ys)

mem-same : (t x : Str) (seen : List Str) → str_eq t x ≡ true → mem t seen ≡ mem x seen
mem-same t x seen h = ap (λ z. mem z seen) (eq_of_str_eq t x h)

mem-mark_new :
    (ts seen queue : List Str) (t : Str)
    → (mem t (mark_new ts seen queue).0 ≡ (mem t seen || mem t ts))
      × (mem t (mark_new ts seen queue).1 ≡ (mem t queue || (mem t ts && not (mem t seen))))
unfolding mark_new
mem-mark_new [] seen queue t = (ground arith, ground arith)
mem-mark_new (x ∷ ts) seen queue t =
    let same = mem-same t x seen in
    elim (Bool-cases (mem x seen)) [
      | inl old ↦
          let (a, b) = mem-mark_new ts seen queue t in
          rw (old, mark_new) (ground (arith, a, same, old), ground (arith, b, same, old))
      | inr fresh ↦
          let (a, b) = mem-mark_new ts (x ∷ seen) (queue ++ x ∷ []) t in
          rw (fresh, mark_new)
            (
              ground (arith, a, same, fresh),
              ground (arith, b, same, fresh, mem-append t queue (x ∷ [])),
            )
    ]

-- The listed nodes that are not yet seen.
abbrev pub unseen : List Str → List Str → ℕ
unseen seen [] = 0
unseen seen (u ∷ us) = if mem u seen then unseen seen us else suc (unseen seen us)

pub unseen-le : (seen us : List Str) → unseen seen us ≤ length us
unseen-le seen [] = omega arith
unseen-le seen (u ∷ us) = ground (arith, unseen-le seen us)

unseen-cons : (t : Str) (seen us : List Str) → unseen (t ∷ seen) us ≤ unseen seen us
unseen-cons t seen [] = omega arith
unseen-cons t seen (u ∷ us) = ground (arith, unseen-cons t seen us)

unseen-lt :
    (t : Str) (seen us : List Str)
    → mem t us ≡ true
    → mem t seen ≡ false
    → unseen (t ∷ seen) us < unseen seen us
unseen-lt t seen [] h k = absurd (cc h)
unseen-lt t seen (u ∷ us) h k = elim (Bool-cases (str_eq t u)) [
  | inl same ↦ ground (
    arith,
    unseen-cons t seen us,
    same,
    k,
    mem-same t u seen same,
    str_eq_refl u,
    str_eq_iff t u,
    str_eq_iff u t,
  )
  | inr other ↦ ground (arith, unseen-lt t seen us, h, k, other, str_eq_iff t u, str_eq_iff u t)
]

pub mark_new-shrinks :
    (us ts seen queue : List Str)
    → ((t : Str) → mem t ts ≡ true → mem t us ≡ true)
    → length (mark_new ts seen queue).1 + unseen (mark_new ts seen queue).0 us
      ≤ length queue + unseen seen us
unfolding mark_new
mark_new-shrinks us [] seen queue sub = omega arith
mark_new-shrinks us (t ∷ ts) seen queue sub = elim (Bool-cases (mem t seen)) [
  | inl old ↦ rw (old, mark_new) (mark_new-shrinks us ts seen queue (λ t' h. sub t' (ground arith)))
  | inr fresh ↦
      rw (fresh, mark_new)
        (omega (
          arith,
          mark_new-shrinks us ts (t ∷ seen) (queue ++ t ∷ []) (λ t' h. sub t' (ground arith)),
          length-append queue (t ∷ []),
          unseen-lt t seen us (sub t (ground (arith, str_eq_refl t))) fresh,
        ))
]

mem-update :
    (e : Edge) (adj : Str → List Str) (s u : Str)
    → mem u (update adj e.source_node_id (adj e.source_node_id ++ e.target_node_id ∷ []) s)
      ≡ (mem u (adj s) || (str_eq s e.source_node_id && str_eq u e.target_node_id))
mem-update e adj s u = elim (Bool-cases (str_eq s e.source_node_id)) [
  | inl same ↦
      rw (eq_of_str_eq s e.source_node_id same, str_eq_refl e.source_node_id)
        (mem-append u (adj e.source_node_id) (e.target_node_id ∷ []) ∙ ground arith)
  | inr other ↦ rw other (ground arith)
]

all_adj_keeps :
    (es : List Edge) (adj : Str → List Str) (s u : Str)
    → mem u (adj s) ≡ true
    → mem u (all_adj es adj s) ≡ true
unfolding all_adj
all_adj_keeps [] adj s u h = h
all_adj_keeps (e ∷ es) adj s u h = all_adj_keeps es _ s u (ground (arith, h, mem-update e adj s u))

all_adj_of_In :
    (es : List Edge) (adj : Str → List Str) (e : Edge)
    → In e es
    → mem e.target_node_id (all_adj es adj e.source_node_id) ≡ true
unfolding all_adj
all_adj_of_In [] adj e i = elim i [ ]
all_adj_of_In (x ∷ es) adj e here = all_adj_keeps es _ x.source_node_id x.target_node_id (
    ground (
      arith,
      mem-update x adj x.source_node_id x.target_node_id,
      str_eq_refl x.source_node_id,
      str_eq_refl x.target_node_id,
    ))
all_adj_of_In (x ∷ es) adj e (there i) = all_adj_of_In es _ e i

all_adj-In :
    (es : List Edge) (adj : Str → List Str) (s u : Str)
    → mem u (all_adj es adj s) ≡ true
    → (mem u (adj s) ≡ true)
      ⊎ ((e : Edge) × In e es × (e.source_node_id ≡ s) × (e.target_node_id ≡ u))
unfolding all_adj
all_adj-In [] adj s u h = inl h
all_adj-In (e ∷ es) adj s u h = elim (all_adj-In es _ s u h) [
  | inr (e', i, p, q) ↦ inr (e', there i, p, q)
  | inl found ↦ elim (Bool-cases (str_eq s e.source_node_id && str_eq u e.target_node_id)) [
    | inl new ↦ inr (
      e,
      here,
      sym (eq_of_str_eq s e.source_node_id (ground arith)),
      sym (eq_of_str_eq u e.target_node_id (ground arith)),
    )
    | inr old ↦ inl (ground (arith, found, old, mem-update e adj s u))
  ]
]

-- With an adjacency that stays in a list, the list bounds the rounds.
pub reach-total :
    (us : List Str) (adj : Str → List Str)
    → ((c t : Str) → mem t (adj c) ≡ true → mem t us ≡ true)
    → (fuel : ℕ) (seen queue : List Str) → length queue + unseen seen us ≤ fuel
    → (found : List Str) × (reach fuel adj seen queue ≡ some found)
unfolding reach
reach-total us adj sub fuel seen [] h = (seen, refl)
reach-total us adj sub zero seen (c ∷ queue) h = absurd (omega arith)
reach-total us adj sub (suc fuel) seen (c ∷ queue) h =
    reach-total us adj sub fuel (mark_new (adj c) seen queue).0 (mark_new (adj c) seen queue).1
      (omega (arith, h, mark_new-shrinks us (adj c) seen queue (sub c)))

mem-In :
    (t : Str) (es : List Edge) (s : Str)
    → mem t (all_adj es (λ _. []) s) ≡ true
    → mem t (map (λ (e : Edge). e.target_node_id) es) ≡ true
mem-In t es s h = elim (all_adj-In es (λ _. []) s t h) [
  | inl in_nil ↦ absurd (cc in_nil)
  | inr (e, i, p, q) ↦ rw (← q) (target-mem es e i)
]
  where
    target-mem :
        (es : List Edge) (e : Edge)
        → In e es
        → mem e.target_node_id (map (λ (e : Edge). e.target_node_id) es) ≡ true
    target-mem [] e i = elim i [ ]
    target-mem (x ∷ es) e here = ground (arith, str_eq_refl x.target_node_id)
    target-mem (x ∷ es) e (there i) = ground (arith, target-mem es e i)

module _ (g : Graph) where
  abbrev adj : Str → List Str
  adj = all_adj g.edges (λ _. [])

  -- Between two rounds: the nodes seen are reachable, the input nodes are seen, and what a seen node leads
  -- to is seen unless the node is queued.
  record IsSearch (seen queue : List Str) : Type 0 where
    reached : (t : Str) → mem t seen ≡ true → Reaches g t
    inputs : (t : Str) → mem t (input_ids g.nodes) ≡ true → mem t seen ≡ true
    queued : (t : Str) → mem t queue ≡ true → mem t seen ≡ true
    closed :
        (t u : Str)
        → mem t seen ≡ true
        → mem t queue ≡ false
        → mem u (adj t) ≡ true
        → mem u seen ≡ true

  step-Reaches : (s t : Str) → Reaches g s → mem t (adj s) ≡ true → Reaches g t
  step-Reaches s t r h = elim (all_adj-In g.edges (λ _. []) s t h) [
    | inl in_nil ↦ absurd (cc in_nil)
    | inr (e, i, p, q) ↦ along e i (rw p r) q
  ]

  IsSearch-step :
      (c : Str) (seen queue : List Str)
      → IsSearch seen (c ∷ queue)
      → IsSearch (mark_new (adj c) seen queue).0 (mark_new (adj c) seen queue).1
  IsSearch-step c seen queue s = record {
    reached = λ t h. elim (Bool-cases (mem t seen)) [
      | inl old ↦ s.reached t old
      | inr fresh ↦
          step-Reaches c t (s.reached c (s.queued c (ground (arith, str_eq_refl c))))
            (ground (arith, h, fresh, (mem-mark_new (adj c) seen queue t).0))
    ];
    inputs = λ t h. ground (arith, s.inputs t h, (mem-mark_new (adj c) seen queue t).0);
    queued = λ t h. ground (arith, h, s.queued t, mem-mark_new (adj c) seen queue t);
    closed = λ t u h k a. elim (Bool-cases (str_eq t c)) [
      | inl same ↦
          let e : t ≡ c = eq_of_str_eq t c same in
          ground (arith, (mem-mark_new (adj c) seen queue u).0, rw e at a)
      | inr other ↦ ground (
        arith,
        h,
        k,
        a,
        other,
        s.closed t u,
        mem-mark_new (adj c) seen queue t,
        mem-mark_new (adj c) seen queue u,
      )
    ];
  }

  reach_lem :
      (fuel : ℕ) (seen queue : List Str)
      → length queue + unseen seen (map (λ (e : Edge). e.target_node_id) g.edges) ≤ fuel
      → IsSearch seen queue
      → (found : List Str) × (reach fuel adj seen queue ≡ some found) × IsSearch found []
  unfolding reach
  reach_lem fuel seen [] h s = (seen, refl, s)
  reach_lem zero seen (c ∷ queue) h s = absurd (omega arith)
  reach_lem (suc fuel) seen (c ∷ queue) h s =
      let us = map (λ (e : Edge). e.target_node_id) g.edges in
      let fewer = mark_new-shrinks us (adj c) seen queue (λ t a. mem-In t g.edges c a) in
      reach_lem fuel (mark_new (adj c) seen queue).0 (mark_new (adj c) seen queue).1
        (omega (arith, h, fewer)) (IsSearch-step c seen queue s)

  input-mem :
      (ns : List Node) (n : Node) → In n ns → is_input n ≡ true → mem n.id (input_ids ns) ≡ true
  unfolding input_ids
  input-mem [] n i h = elim i [ ]
  input-mem (x ∷ ns) n here h = ground (arith, h, str_eq_refl x.id)
  input-mem (x ∷ ns) n (there i) h = ground (arith, input-mem ns n i h)

  input-In :
      (ns : List Node) (t : Str)
      → mem t (input_ids ns) ≡ true
      → (n : Node) × In n ns × (is_input n ≡ true) × (n.id ≡ t)
  unfolding input_ids
  input-In [] t h = absurd (cc h)
  input-In (x ∷ ns) t h = elim (Bool-cases (is_input x && str_eq t x.id)) [
    | inl found ↦ (x, here, ground arith, sym (eq_of_str_eq t x.id (ground arith)))
    | inr other ↦
        let (n, i, kind, same) = input-In ns t (ground (arith, h, other)) in
        (n, there i, kind, same)
  ]

  length-input_ids : (ns : List Node) → length (input_ids ns) ≤ length ns
  unfolding input_ids
  length-input_ids [] = omega arith
  length-input_ids (n ∷ ns) = ground (arith, length-input_ids ns)

  IsSearch-init : IsSearch (input_ids g.nodes) (input_ids g.nodes)
  IsSearch-init = record {
    reached = λ t h. let (n, i, kind, same) = input-In g.nodes t h in at_input n i kind same;
    inputs = λ t h. h;
    queued = λ t h. h;
    closed = λ t u h k a. absurd (cc (h, k));
  }

  found-all : (found : List Str) → IsSearch found [] → (t : Str) → Reaches g t → mem t found ≡ true
  found-all found s t (at_input n i kind same) =
      s.inputs t (rw (← same) (input-mem g.nodes n i kind))
  found-all found s t (along e i r same) =
      s.closed e.source_node_id t (found-all found s e.source_node_id r) refl
        (rw (← same) (all_adj_of_In g.edges (λ _. []) e i))

  -- The search of validateReachability ends, in as many rounds as the graph has nodes and edges, and finds
  -- exactly the identifiers of input nodes and what edges of either kind lead to from them.
  pub reachable_from_inputs_lem :
      (found : List Str) × (reachable_from_inputs g ≡ some found)
      × ((t : Str) → (mem t found ≡ true) ↔ Reaches g t)
  unfolding reachable_from_inputs
  reachable_from_inputs_lem =
      let us = map (λ (e : Edge). e.target_node_id) g.edges in
      let (found, ran, s) =
        reach_lem (length g.nodes + length g.edges) (input_ids g.nodes) (input_ids g.nodes)
          (omega (
            arith,
            length-input_ids g.nodes,
            unseen-le (input_ids g.nodes) us,
            length-map (λ (e : Edge). e.target_node_id) g.edges,
          ))
          IsSearch-init in
      (found, ran, λ t. (s.reached t, found-all found s t))
