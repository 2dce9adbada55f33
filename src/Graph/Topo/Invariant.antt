-- ===== src/Graph/Topo/Invariant.antt =====
-- What the outer loop of TopologicalSort keeps, on a graph whose edges join its nodes.
use brockleyai.Prelude.{
  ℕ, suc, ◌+◌, ◌<◌, ◌≤◌, ◌≡◌, refl, true, false, Bool-cases, inl, inr, eq_of_str_eq, str_eq_refl,
  List, [], ◌∷◌, ◌++◌, if◌then◌else◌, Str, ℤ, pos, arith, mem, count, count-append, str_eq_iff,
  str_eq, ◌&&◌, not, count→mem, mem→count, In, here, there,
}
use brockleyai.Model.{Edge, Graph}
use brockleyai.Graph.Shape.{
  ids, targets, remaining, index, index-append_mem, index-append_new, index-lt_length, IsForward,
  IsWired,
}
use brockleyai.Graph.Topo.Sort.{relax}
use brockleyai.Graph.Topo.Degrees.{relax_lem, remaining-snoc, newly}

-- A placed node stands behind the sources of its edges.
abbrev pub IsOrdered : Graph → List Str → Type 0
IsOrdered g order =
    (e : Edge)
    → IsForward g e
    → 0 < count e.target_node_id order
    → (0 < count e.source_node_id order)
      × (index e.source_node_id order < index e.target_node_id order)

pub record IsRun (g : Graph) (order queue : List Str) (d : Str → ℤ) : Type 0 where
  pub once : (t : Str) → count t order + count t queue ≤ 1
  pub known : (t : Str) → 0 < count t order + count t queue → 0 < count t (ids g)
  pub degree : (t : Str) → d t ≡ pos (remaining order g.edges t)
  -- A node is queued or placed as soon as all sources of its edges are placed, and no earlier.
  pub waits : (t : Str) → 0 < count t order + count t queue → remaining order g.edges t ≡ 0
  pub ready :
      (t : Str)
      → 0 < count t (ids g)
      → remaining order g.edges t ≡ 0
      → 0 < count t order + count t queue
  pub ordered : IsOrdered g order

-- Nothing remains for a node: the sources of its edges are placed.
pub source_placed :
    (order : List Str) (es : List Edge) (e : Edge)
    → In e es
    → e.back_edge ≡ false
    → remaining order es e.target_node_id ≡ 0
    → 0 < count e.source_node_id order
source_placed order [] e i f h = elim i [ ]
source_placed order (x ∷ es) e here f h =
    ground (arith, mem→count e.source_node_id order, str_eq_iff e.target_node_id e.target_node_id)
source_placed order (x ∷ es) e (there i) f h = source_placed order es e i f (ground arith)

-- The other way round.
pub remaining-eq_zero :
    (order : List Str) (es : List Edge) (t : Str)
    → ((e : Edge)
        → In e es
        → e.back_edge ≡ false
        → e.target_node_id ≡ t
        → 0 < count e.source_node_id order)
    → remaining order es t ≡ 0
remaining-eq_zero order [] t h = refl
remaining-eq_zero order (e ∷ es) t h = ground (
  arith,
  remaining-eq_zero order es t (λ e' i. h e' (there i)),
  h e here,
  str_eq_iff t e.target_node_id,
  count→mem e.source_node_id order,
)

pub targets-In :
    (s t : Str) (es : List Edge)
    → 0 < count t (targets s es)
    → (e : Edge) × In e es × (e.back_edge ≡ false) × (e.source_node_id ≡ s) × (e.target_node_id ≡ t)
targets-In s t [] h = absurd (omega arith)
targets-In s t (e ∷ es) h = elim (Bool-cases (not e.back_edge && str_eq s e.source_node_id)) [
  | inl leaves ↦ elim (Bool-cases (str_eq t e.target_node_id)) [
    | inl hit ↦ (
      e,
      here,
      ground arith,
      ground (arith, str_eq_iff s e.source_node_id),
      ground (arith, str_eq_iff t e.target_node_id),
    )
    | inr miss ↦ later (targets-In s t es (ground arith))
  ]
  | inr stays ↦ later (targets-In s t es (ground arith))
]
  where
    later :
        (e' : Edge) × In e' es
          × (e'.back_edge ≡ false)
          × (e'.source_node_id ≡ s)
          × (e'.target_node_id ≡ t)
        → (e' : Edge) × In e' (e ∷ es)
          × (e'.back_edge ≡ false)
          × (e'.source_node_id ≡ s)
          × (e'.target_node_id ≡ t)
    later (e', i, f, src, tgt) = (e', there i, f, src, tgt)

-- The counts after placing `c`.
snoc_count :
    (t c : Str) (order : List Str)
    → count t (order ++ c ∷ []) ≡ (if str_eq t c then suc (count t order) else count t order)
snoc_count t c order = ground (arith, count-append t order (c ∷ []))

IsOrdered-snoc :
    (g : Graph) (order : List Str) (c : Str)
    → count c order ≡ 0
    → remaining order g.edges c ≡ 0
    → IsOrdered g order
    → IsOrdered g (order ++ c ∷ [])
IsOrdered-snoc g order c new free o e f h = elim (Bool-cases (str_eq e.target_node_id c)) [
  | inl last ↦
      let target : e.target_node_id ≡ c = eq_of_str_eq e.target_node_id c last in
      let placed : 0 < count e.source_node_id order =
        source_placed order g.edges e f.listed f.forward (rw target free) in
      ground (
        arith,
        snoc_count e.source_node_id c order,
        index-append_mem e.source_node_id order (c ∷ []),
        index-lt_length e.source_node_id order,
        rw (← target) at (index-append_new c order (c ∷ []) new),
        str_eq_refl c,
      )
  | inr other ↦
      let target : 0 < count e.target_node_id order =
        ground (arith, snoc_count e.target_node_id c order) in
      let (placed, before) = o e f target in
      ground (
        arith,
        snoc_count e.source_node_id c order,
        index-append_mem e.source_node_id order (c ∷ []),
        index-append_mem e.target_node_id order (c ∷ []),
      )
]

module _ (g : Graph) (w : IsWired g) where
  pub IsRun-step :
      (order : List Str) (c : Str) (queue : List Str) (d : Str → ℤ)
      → IsRun g order (c ∷ queue) d
      → IsRun g
          (order ++ c ∷ [])
          (relax (targets c g.edges) d queue).1
          (relax (targets c g.edges) d queue).0
  IsRun-step order c queue d r = record {
    once = λ t. ground (arith, total t, fewer t, hit t, r.waits t, r.once t);
    known = λ t h. elim (Bool-cases (mem t (targets c g.edges))) [
      | inl target ↦
          let (e, i, f, src, tgt) =
            targets-In c t g.edges (mem→count t (targets c g.edges) target) in
          rw (← tgt) (w.target_known e (record { listed = i; forward = f }))
      | inr not_target ↦ r.known t (ground (arith, total t))
    ];
    degree = round.0;
    waits = λ t h. ground (arith, total t, fewer t, r.waits t);
    ready = λ t k h. ground (arith, total t, fewer t, miss t, r.ready t k);
    ordered = IsOrdered-snoc g order c new free r.ordered;
  }
    where
      self : str_eq c c ≡ true
      self = str_eq_refl c

      new : count c order ≡ 0
      new = ground (arith, r.once c, self)

      free : remaining order g.edges c ≡ 0
      free = r.waits c (ground (arith, self))

      left : Str → ℕ
      left = remaining (order ++ c ∷ []) g.edges

      round :
          ((t : Str) → (relax (targets c g.edges) d queue).0 t ≡ pos (left t))
          × ((t : Str)
              → count t (relax (targets c g.edges) d queue).1
                ≡ count t queue + newly left t (targets c g.edges))
      round =
          relax_lem left (targets c g.edges) d queue
            λ t. ground (arith, r.degree t, remaining-snoc c order g.edges t new)

      fewer : (t : Str) → left t + count t (targets c g.edges) ≡ remaining order g.edges t
      fewer t = remaining-snoc c order g.edges t new

      total :
          (t : Str)
          → count t (order ++ c ∷ []) + count t (relax (targets c g.edges) d queue).1
            ≡ count t order + count t (c ∷ queue) + newly left t (targets c g.edges)
      total t = ground (arith, snoc_count t c order, round.1 t)

      hit : (t : Str) → mem t (targets c g.edges) ≡ true → 0 < count t (targets c g.edges)
      hit t = mem→count t (targets c g.edges)

      miss : (t : Str) → 0 < count t (targets c g.edges) → mem t (targets c g.edges) ≡ true
      miss t = count→mem t (targets c g.edges)
