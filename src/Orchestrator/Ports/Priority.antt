-- ===== src/Orchestrator/Ports/Priority.antt =====
-- What a port receives and what a field of the state holds, described without the order of the writes.
use brockleyai.Prelude.{
  Str, str_eq, ◌≡◌, refl, sym, ◌∙◌, ap, Option, none, some, List, [], ◌∷◌, if◌then◌else◌, update,
  arith, Bool-cases, Option-cases, inl, inr, eq_of_str_eq,
}
use brockleyai.Model.{Port, StateBinding, Node, Edge}
use brockleyai.Value.{Value, arr, Items, no_items, item, Table, append_item}
use brockleyai.Orchestrator.Ports.{
  empty, read, copy_if, apply_defaults, apply_reads, edge_value, apply_edges, resolve_inputs,
  write_value, apply_state_writes,
}

module _ {F : Type 0} where
  infixr 40 ◌orelse◌
  abbrev pub ◌orelse◌ : Option (Value F) → Option (Value F) → Option (Value F)
  none orelse b = b
  some v orelse b = some v

  -- The value of the last edge to the port whose source has produced one.
  abbrev pub from_edges : (Str → Option (Table F)) → Str → List Edge → Option (Value F)
  from_edges outputs port [] = none
  from_edges outputs port (e ∷ es) =
      from_edges outputs port es
      orelse (if str_eq port e.target_port then edge_value outputs e else none)

  -- The field that the last state read of the port with a field present names.
  abbrev pub from_reads : Table F → Str → List StateBinding → Option (Value F)
  from_reads state port [] = none
  from_reads state port (b ∷ bs) =
      from_reads state port bs orelse (if str_eq port b.port then state b.state_field else none)

  -- The default of the last port of the name that has one.
  abbrev pub from_defaults : (Str → Value F) → Str → List Port → Option (Value F)
  from_defaults decode port [] = none
  from_defaults decode port (p ∷ ps) =
      from_defaults decode port ps
      orelse (if str_eq port p.name
          then elim p.default_value [ none ↦ none | some text ↦ some (decode text) ]
          else none)

  orelse_assoc : (a b c : Option (Value F)) → ((a orelse b) orelse c) ≡ (a orelse (b orelse c))
  orelse_assoc none b c = refl
  orelse_assoc (some v) b c = refl

  orelse-none : (a : Option (Value F)) → (a orelse none) ≡ a
  orelse-none none = refl
  orelse-none (some v) = refl

  copy_if_lem :
      (v : Option (Value F)) (k port : Str) (t : Table F)
      → copy_if v k t port ≡ ((if str_eq port k then v else none) orelse t port)
  copy_if_lem none k port t = ground arith
  copy_if_lem (some v) k port t = ground arith

  apply_edges_lem :
      (outputs : Str → Option (Table F)) (es : List Edge) (t : Table F) (port : Str)
      → apply_edges outputs es t port ≡ (from_edges outputs port es orelse t port)
  unfolding apply_edges
  apply_edges_lem outputs [] t port = refl
  apply_edges_lem outputs (e ∷ es) t port =
      apply_edges_lem outputs es (copy_if (edge_value outputs e) e.target_port t) port
      ∙ ap (λ v. from_edges outputs port es orelse v)
          (copy_if_lem (edge_value outputs e) e.target_port port t)
      ∙ sym (orelse_assoc (from_edges outputs port es) _ (t port))

  apply_reads_lem :
      (state : Table F) (bs : List StateBinding) (t : Table F) (port : Str)
      → apply_reads state bs t port ≡ (from_reads state port bs orelse t port)
  unfolding apply_reads
  apply_reads_lem state [] t port = refl
  apply_reads_lem state (b ∷ bs) t port =
      apply_reads_lem state bs (copy_if (state b.state_field) b.port t) port
      ∙ ap (λ v. from_reads state port bs orelse v)
          (copy_if_lem (state b.state_field) b.port port t)
      ∙ sym (orelse_assoc (from_reads state port bs) _ (t port))

  apply_defaults_lem :
      (decode : Str → Value F) (ps : List Port) (t : Table F) (port : Str)
      → apply_defaults decode ps t port ≡ (from_defaults decode port ps orelse t port)
  unfolding apply_defaults
  apply_defaults_lem decode [] t port = refl
  apply_defaults_lem decode (p ∷ ps) t port = elim (Option-cases p.default_value) [
    | inl absent ↦ rw absent (
        ground
          (arith, apply_defaults_lem decode ps t port, orelse-none (from_defaults decode port ps)))
    | inr (text, given) ↦ rw given (
        apply_defaults_lem decode ps (copy_if (some (decode text)) p.name t) port
        ∙ ap (λ v. from_defaults decode port ps orelse v)
            (copy_if_lem (some (decode text)) p.name port t)
        ∙ sym (orelse_assoc (from_defaults decode port ps) _ (t port)))
  ]

  -- The inputs of a node follow a fixed priority at every port: the last forward edge whose source has
  -- produced a value wins, else the last state read of a field that is present, else the last default, and
  -- a port that none of them serves is absent.
  pub resolve_inputs_priority :
      (decode : Str → Value F) (node : Node) (outputs : Str → Option (Table F))
      (incoming : List Edge) (state : Table F) (port : Str)
      → resolve_inputs decode node outputs incoming state port ≡ (
          from_edges outputs port incoming
          orelse (from_reads state port node.state_reads
              orelse from_defaults decode port node.input_ports))
  unfolding resolve_inputs
  resolve_inputs_priority decode node outputs incoming state port =
      apply_edges_lem outputs incoming _ port
      ∙ ap (λ v. from_edges outputs port incoming orelse v)
          (apply_reads_lem state node.state_reads _ port
            ∙ ap (λ v. from_reads state port node.state_reads orelse v)
                (apply_defaults_lem decode node.input_ports empty port
                  ∙ orelse-none (from_defaults decode port node.input_ports)))

  abbrev pub append_items : Items F → Items F → Items F
  append_items no_items ws = ws
  append_items (item v vs) ws = item v (append_items vs ws)

  append_items-append_item :
      (vs ws : Items F) (v : Value F)
      → append_items (append_item vs v) ws ≡ append_items vs (item v ws)
  unfolding append_item
  append_items-append_item no_items ws v = refl
  append_items-append_item (item w vs) ws v = ap (item w) (append_items-append_item vs ws v)

  append_items-no_items : (vs : Items F) → append_items vs no_items ≡ vs
  append_items-no_items no_items = refl
  append_items-no_items (item v vs) = ap (item v) (append_items-no_items vs)

  -- The values that a node's outputs write to a field, in the order of the bindings.
  abbrev pub written : List StateBinding → Table F → Str → Items F
  written [] outputs field = no_items
  written (b ∷ bs) outputs field =
      if str_eq field b.state_field
      then elim (outputs b.port) [
        | none ↦ written bs outputs field
        | some v ↦ item v (written bs outputs field)
      ]
      else written bs outputs field

  some-read :
      (state : Table F) (field : Str) (vs : Items F) (v : Value F)
      → state field ≡ some (arr vs)
      → some (write_value (read state field) v) ≡ some (arr (append_item vs v))
  some-read state field vs v h = ground (arith, h)

  -- A state field that holds an array is never replaced, whatever its reducer: the values that the node writes
  -- to it are appended, in the order of its bindings, each as one item, also where it is an array.
  pub apply_state_writes_appends :
      (bs : List StateBinding) (outputs state : Table F) (field : Str) (vs : Items F)
      → state field ≡ some (arr vs)
      → apply_state_writes bs outputs state field
        ≡ some (arr (append_items vs (written bs outputs field)))
  unfolding apply_state_writes
  apply_state_writes_appends [] outputs state field vs h =
      h ∙ ap (λ ws. some (arr ws)) (sym (append_items-no_items vs))
  apply_state_writes_appends (b ∷ bs) outputs state field vs h =
      elim (Option-cases (outputs b.port)) [
        | inl silent ↦
            rw silent (ground (arith, apply_state_writes_appends bs outputs state field vs h))
        | inr (v, found) ↦
            let state' : Table F =
              update state b.state_field (some (write_value (read state b.state_field) v)) in
            elim (Bool-cases (str_eq field b.state_field)) [
              | inl same ↦
                  let e : field ≡ b.state_field = eq_of_str_eq field b.state_field same in
                  let now : state' field ≡ some (arr (append_item vs v)) =
                    rw same (rw (← e) (some-read state field vs v h)) in
                  rw (found, same)
                    (apply_state_writes_appends bs outputs state' field (append_item vs v) now
                      ∙ ap (λ ws. some (arr ws))
                          (append_items-append_item vs (written bs outputs field) v))
              | inr other ↦
                  let kept : state' field ≡ some (arr vs) = rw other h in
                  rw (found, other) (apply_state_writes_appends bs outputs state' field vs kept)
            ]
      ]

  -- A state field to which the node writes nothing keeps its value.
  pub apply_state_writes_frame :
      (bs : List StateBinding) (outputs state : Table F) (field : Str)
      → written bs outputs field ≡ no_items
      → apply_state_writes bs outputs state field ≡ state field
  unfolding apply_state_writes
  apply_state_writes_frame [] outputs state field h = refl
  apply_state_writes_frame (b ∷ bs) outputs state field h = elim (Option-cases (outputs b.port)) [
    | inl silent ↦ rw silent (apply_state_writes_frame bs outputs state field (ground (arith, h)))
    | inr (v, found) ↦
        let state' : Table F =
          update state b.state_field (some (write_value (read state b.state_field) v)) in
        elim (Bool-cases (str_eq field b.state_field)) [
          | inl same ↦ absurd (
              let wrote : item v (written bs outputs field) ≡ no_items = rw (found, same) at h in
              cc)
          | inr other ↦
              let kept : state' field ≡ state field = rw other in
              rw found
                (apply_state_writes_frame bs outputs state' field (rw (found, other) at h) ∙ kept)
        ]
  ]
