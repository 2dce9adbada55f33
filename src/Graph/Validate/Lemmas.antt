-- ===== src/Graph/Validate/Lemmas.antt =====
-- What each check of a graph finds where its report stays valid.
use Prim.Native.String.{String}
use mathlib.Core.Path.{subst}
use brockleyai.Prelude.{
  ◌<◌, ◌≡◌, sym, Bool, true, false, Bool-cases, Option-cases, none, some, inl, inr, ◌⊎◌, List, [],
  ◌∷◌, map, Str, str_eq, str_eq_iff, eq_of_str_eq, not, ◌&&◌, arith, count, mem, IsDistinct, In,
  here, there, All, update,
}
use brockleyai.Model.{Port, StateBinding, Node, Edge, Graph, is_required}
use brockleyai.Graph.Cycles.Search.{find_cycle}
use brockleyai.Graph.Cycles.Fuel.{find_cycle-total}
use brockleyai.Graph.Validate.Report.{
  Report, Demands, add_error-IsStrict, error_if-Demands, for_each-Demands, add_error,
  add_error-invalid, text,
}
use brockleyai.Graph.Validate.Nodes.{NodeMap, register, is_empty, has_port, is_input}
use brockleyai.Graph.Validate.Edges.{
  validate_ends, validate_edge, is_unbounded, validate_back_edge, validate_no_cycles,
}
use brockleyai.Graph.Validate.States.{
  state_names, validate_binding, validate_bindings, validate_state_bindings,
}
use brockleyai.Graph.Validate.Wiring.{
  is_wired, has_default, validate_required_port, validate_required_ports,
}

abbrev node_ids : List Node → List Str
node_ids ns = map (λ (n : Node). n.id) ns

-- An entry of the map is a node of the list under its identifier.
abbrev pub IsEntry : List Node → Str → Node → Type 0
IsEntry ns t n = In n ns × (n.id ≡ t)

clash : {b : Bool} → b ≡ false → b ≡ true → ⊥
clash p q = cc

register-IsStrict :
    (ns : List Node) (m : NodeMap) (r : Report)
    → r.valid ≡ false
    → (register ns m r).1.valid ≡ false
unfolding register
register-IsStrict [] m r h = h
register-IsStrict (n ∷ ns) m r h = elim (Option-cases (m n.id)) [
  | inl free ↦ rw (free, register) (register-IsStrict ns _ r h)
  | inr (old, taken) ↦
      rw (taken, register) (register-IsStrict ns m _ (add_error-IsStrict _ _ _ _ r h))
]

-- Without a duplicate every identifier was free and is given once.
pub register_lem :
    (ns : List Node) (m : NodeMap) (r : Report)
    → (register ns m r).1.valid ≡ true
    → (r.valid ≡ true)
      × IsDistinct (node_ids ns)
      × ((t : Str) → 0 < count t (node_ids ns) → m t ≡ none)
unfolding register
register_lem [] m r h = (h, (λ t. omega arith), λ t k. absurd (omega arith))
register_lem (n ∷ ns) m r h = elim (Option-cases (m n.id)) [
  | inr (old, taken) ↦
      let valid : (register ns m (add_error "DUPLICATE_NODE_ID" n.id [] (text "id" ∷ []) r)).1.valid
          ≡ true =
        rw (taken, register) at h in
      absurd (
        clash
          (register-IsStrict ns m _
            (add_error-invalid "DUPLICATE_NODE_ID" n.id [] (text "id" ∷ []) r))
          valid)
  | inl free ↦
      let (valid, distinct, news) =
        register_lem ns (update m n.id (some n)) r (rw (free, register) at h) in
      (
        valid,
        (λ t. ground (arith, distinct t, news t, str_eq_iff t n.id)),
        λ t k. elim (Bool-cases (str_eq t n.id)) [
          | inl same ↦ rw (eq_of_str_eq t n.id same) free
          | inr other ↦ ground (arith, news t)
        ],
      )
]

-- What the map holds are nodes of the list, under their identifiers.
pub register_entries :
    (ns : List Node) (m : NodeMap) (r : Report) (t : Str) (n : Node)
    → (register ns m r).0 t ≡ some n
    → (m t ≡ some n) ⊎ IsEntry ns t n
unfolding register
register_entries [] m r t n e = inl e
register_entries (x ∷ ns) m r t n e = elim (Option-cases (m x.id)) [
  | inr (old, taken) ↦ elim (register_entries ns m _ t n (rw (taken, register) at e)) [
    | inl held ↦ inl held
    | inr (i, at_t) ↦ inr (there i, at_t)
  ]
  | inl free ↦
      elim (register_entries ns (update m x.id (some x)) r t n (rw (free, register) at e)) [
        | inr (i, at_t) ↦ inr (there i, at_t)
        | inl held ↦ elim (Bool-cases (str_eq t x.id)) [
          | inl same ↦
              let x_is_n : some x ≡ some n = rw same at held in
              let found : x ≡ n = cc in
              inr (
                subst (λ (y : Node). IsEntry (x ∷ ns) t y) found
                  (here, sym (eq_of_str_eq t x.id same)))
          | inr other ↦ inl (rw other at held)
        ]
      ]
]

-- The ends of an edge are nodes with the ports that it names, and it joins a node to itself only as a
-- back-edge.
pub record IsJoined (nodes : List Node) (e : Edge) : Type 0 where
  pub source : Node
  pub source_entry : IsEntry nodes e.source_node_id source
  pub source_has_port : has_port source.output_ports e.source_port ≡ true
  pub target : Node
  pub target_entry : IsEntry nodes e.target_node_id target
  pub target_has_port : has_port target.input_ports e.target_port ≡ true
  pub no_self_loop : (str_eq e.source_node_id e.target_node_id && not e.back_edge) ≡ false

module _ (nodes : List Node) (m : NodeMap)
    (entries : (t : Str) (n : Node) → m t ≡ some n → IsEntry nodes t n) where
  ends-Demands :
      (e : Edge) (src tgt : Node)
      → m e.source_node_id ≡ some src
      → m e.target_node_id ≡ some tgt
      → Demands (validate_ends e src tgt) (IsJoined nodes e)
  unfolding validate_ends
  ends-Demands e src tgt p q r h =
      let (h1, target_port) = error_if-Demands _ _ _ _ _ _ h in
      let (h2, source_port) = error_if-Demands _ _ _ _ _ _ h1 in
      let (h3, no_self) = error_if-Demands _ _ _ _ _ _ h2 in
      (
        h3,
        record {
          source = src;
          source_entry = entries e.source_node_id src p;
          source_has_port = ground arith;
          target = tgt;
          target_entry = entries e.target_node_id tgt q;
          target_has_port = ground arith;
          no_self_loop = no_self;
        },
      )

  pub edge-Demands : (e : Edge) → Demands (validate_edge m e) (IsJoined nodes e)
  unfolding validate_edge
  edge-Demands e r h = elim (Bool-cases (is_empty e.id)) [
    | inl empty ↦ absurd (clash (add_error-invalid _ _ _ _ r) (rw (empty, validate_edge) at h))
    | inr named ↦ elim (Option-cases (m e.source_node_id)) [
      | inl no_source ↦
          absurd (clash (add_error-invalid _ _ _ _ r) (rw (named, no_source, validate_edge) at h))
      | inr (src, p) ↦ elim (Option-cases (m e.target_node_id)) [
        | inl no_target ↦
            absurd
              (clash (add_error-invalid _ _ _ _ r) (rw (named, p, no_target, validate_edge) at h))
        | inr (tgt, q) ↦ ends-Demands e src tgt p q r (rw (named, p, q, validate_edge) at h)
      ]
    ]
  ]

-- A back-edge has a condition and a positive bound.
pub record IsGuarded (e : Edge) : Type 0 where
  pub conditional : (e.back_edge && is_empty e.condition) ≡ false
  pub bounded : (e.back_edge && is_unbounded e) ≡ false

pub back_edge-Demands : (e : Edge) → Demands (validate_back_edge e) (IsGuarded e)
unfolding validate_back_edge
back_edge-Demands e r h = elim (Bool-cases e.back_edge) [
  | inl back ↦
      let (h1, bounded) = error_if-Demands _ _ _ _ _ _ (rw (back, validate_back_edge) at h) in
      let (h2, conditional) = error_if-Demands _ _ _ _ _ _ h1 in
      (h2, record { conditional = rw back conditional; bounded = rw back bounded })
  | inr forward ↦ (
    rw (forward, validate_back_edge) at h,
    record { conditional = rw forward; bounded = rw forward },
  )
]

pub no_cycles-Demands : (g : Graph) → Demands (validate_no_cycles g) (find_cycle g ≡ some false)
unfolding validate_no_cycles
no_cycles-Demands g r h = elim (Option-cases (find_cycle g)) [
  | inl lost ↦ absurd (find_cycle-total g lost)
  | inr (true, reported) ↦
      absurd (clash (add_error-invalid _ _ _ _ r) (rw (reported, validate_no_cycles) at h))
  | inr (false, quiet) ↦ (rw (quiet, validate_no_cycles) at h, quiet)
]

-- Each state binding names a declared field and a port of the node.
pub record IsBound (declared : List Str) (ports : List Port) (b : StateBinding) : Type 0 where
  pub declares : mem b.state_field declared ≡ true
  pub has : has_port ports b.port ≡ true

binding-Demands :
    (declared : List Str) (ports : List Port) (id : Str) (where_from : String) (b : StateBinding)
    → Demands (validate_binding declared ports id where_from b) (IsBound declared ports b)
unfolding validate_binding
binding-Demands declared ports id where_from b r h =
    let (h1, port) = error_if-Demands _ _ _ _ _ _ h in
    let (h2, field) = error_if-Demands _ _ _ _ _ _ h1 in
    (h2, record { declares = ground arith; has = ground arith })

abbrev pub BindsState : List Str → Node → Type 0
BindsState declared n =
    All (IsBound declared n.input_ports) n.state_reads
    × All (IsBound declared n.output_ports) n.state_writes

pub state_bindings-Demands :
    (g : Graph) → Demands (validate_state_bindings g) (All (BindsState (state_names g)) g.nodes)
unfolding validate_state_bindings validate_bindings
state_bindings-Demands g = for_each-Demands (BindsState (state_names g)) _ g.nodes λ n r h.
    let (h1, writes) =
      for_each-Demands (IsBound (state_names g) n.output_ports) _ n.state_writes
        (λ b. binding-Demands (state_names g) n.output_ports n.id "state_writes" b) _ h in
    let (h2, reads) =
      for_each-Demands (IsBound (state_names g) n.input_ports) _ n.state_reads
        (λ b. binding-Demands (state_names g) n.input_ports n.id "state_reads" b) r h1 in
    (h2, (reads, writes))

-- A required port without a default is wired.
abbrev pub IsSupplied : Graph → Node → Port → Type 0
IsSupplied g n p =
    (is_required p
      && not (has_default p)
      && not (is_wired g (record { node_id = n.id; port = p.name })))
    ≡ false

abbrev pub PortsSupplied : Graph → Node → Type 0
PortsSupplied g n = is_input n ≡ false → All (IsSupplied g n) n.input_ports

required_port-Demands :
    (g : Graph) (n : Node) (p : Port) → Demands (validate_required_port g n p) (IsSupplied g n p)
unfolding validate_required_port
required_port-Demands g n p r h = elim (Bool-cases (is_required p)) [
  | inr optional ↦ (rw (optional, validate_required_port) at h, rw optional)
  | inl required ↦ elim (Bool-cases (has_default p)) [
    | inl given ↦ (rw (required, given, validate_required_port) at h, rw (required, given))
    | inr open_port ↦
        let (h1, wired) =
          error_if-Demands _ _ _ _ _ _ (rw (required, open_port, validate_required_port) at h) in
        (h1, rw (required, open_port) wired)
  ]
]

pub required_ports-Demands :
    (g : Graph) → Demands (validate_required_ports g) (All (PortsSupplied g) g.nodes)
unfolding validate_required_ports
required_ports-Demands g = for_each-Demands (PortsSupplied g) _ g.nodes λ n r h.
    elim (Bool-cases (is_input n)) [
      | inl input ↦ (rw input at h, λ not_input. absurd (clash not_input input))
      | inr inner ↦
          let (h1, supplied) =
            for_each-Demands (IsSupplied g n) _ n.input_ports (λ p. required_port-Demands g n p) r
              (rw inner at h) in
          (h1, λ _. supplied)
    ]
