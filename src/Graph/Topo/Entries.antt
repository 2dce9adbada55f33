-- ===== src/Graph/Topo/Entries.antt =====
-- The dependency map and the key set that ParallelGroups builds, described by counting edges and nodes.
use brockleyai.Prelude.{
  ◌+◌, ◌<◌, ◌≤◌, ◌≡◌, refl, ap, sym, ◌∙◌, true, false, List, [], ◌∷◌, ◌++◌, if◌then◌else◌, Str,
  some, inl, inr, ◌⊎◌, arith, count, count-append, str_eq, str_eq_refl, map, In, here, there,
  Bool-cases, str_eq_iff, ◌&&◌, not, mem, mem→count, ◌↔◌, all, update, append-nil, append_assoc,
}
use brockleyai.Model.{Node, Edge}
use brockleyai.Graph.Shape.{remaining}
use brockleyai.Graph.Topo.Groups.{Deps, init_deps, add_dep, add_deps, add_keys}

-- The sources of the forward edges to a node.
abbrev pub sources : Str → List Edge → List Str
sources t [] = []
sources t (e ∷ es) =
    if not e.back_edge && str_eq t e.target_node_id
    then e.source_node_id ∷ sources t es
    else sources t es

pub init_deps_lem :
    (ns : List Node) (d : Deps) (t : Str)
    → (0 < count t (map (λ (n : Node). n.id) ns)) ⊎ (d t ≡ some [])
    → init_deps ns d t ≡ some []
unfolding init_deps
init_deps_lem [] d t (inl h) = absurd (omega arith)
init_deps_lem [] d t (inr h) = h
init_deps_lem (n ∷ ns) d t h = init_deps_lem ns (update d n.id (some [])) t (ground arith)

-- Every node has an entry, so no write meets a nil map.
abbrev pub HasEntries : List Edge → Deps → Type 0
HasEntries es d =
    (e : Edge) → In e es → e.back_edge ≡ false → (ds : List Str) × (d e.target_node_id ≡ some ds)

abbrev pub Extends : List Edge → Deps → Deps → Type 0
Extends es d d' = (t : Str) (ds : List Str) → d t ≡ some ds → d' t ≡ some (ds ++ sources t es)

add_dep_lem :
    (e : Edge) (d : Deps)
    → (e.back_edge ≡ false → (ds : List Str) × (d e.target_node_id ≡ some ds))
    → (d' : Deps) × (add_dep e d ≡ some d') × Extends (e ∷ []) d d'
unfolding add_dep
add_dep_lem e d h = elim (Bool-cases e.back_edge) [
  | inl back ↦ (d, rw back, λ t ds k. ground (arith, append-nil ds))
  | inr forward ↦
      let (old, found) = h forward in
      (
        update d e.target_node_id (some (old ++ e.source_node_id ∷ [])),
        ground arith,
        λ t ds k. ground (arith, str_eq_iff t e.target_node_id, append-nil ds),
      )
]

sources-cons :
    (t : Str) (e : Edge) (es : List Edge) → sources t (e ∷ es) ≡ sources t (e ∷ []) ++ sources t es
sources-cons t e es = ground arith

pub add_deps_lem :
    (es : List Edge) (d : Deps)
    → HasEntries es d
    → (d' : Deps) × (add_deps es d ≡ some d') × Extends es d d'
unfolding add_deps
add_deps_lem [] d h = (d, refl, λ t ds k. rw append-nil k)
add_deps_lem (e ∷ es) d h =
    let (d1, made, ext) = add_dep_lem e d (h e here) in
    let (d2, rest, ext2) = add_deps_lem es d1 (λ e' i f.
      let (ds, k) = h e' (there i) f in
      (ds ++ sources e'.target_node_id (e ∷ []), ext e'.target_node_id ds k)) in
    (
      d2,
      rw (made, add_deps) rest,
      λ t ds k.
          ext2 t (ds ++ sources t (e ∷ [])) (ext t ds k)
          ∙ ap some (
              append_assoc ds (sources t (e ∷ [])) (sources t es)
              ∙ ap (λ l. ds ++ l) (sym (sources-cons t e es))),
    )

pub count-add_keys :
    (ns : List Node) (keys : List Str) (t : Str)
    → ((t : Str) → count t keys + count t (map (λ (n : Node). n.id) ns) ≤ 1)
    → count t (add_keys ns keys) ≡ count t keys + count t (map (λ (n : Node). n.id) ns)
unfolding add_keys
count-add_keys [] keys t h = omega arith
count-add_keys (n ∷ ns) keys t h = rw absent (
    omega (
      arith,
      count-add_keys ns (keys ++ n.id ∷ []) t (λ u. fits u),
      count-append t keys (n.id ∷ []),
      shape t,
    ))
  where
    absent : mem n.id keys ≡ false
    absent = ground (arith, mem→count n.id keys, h n.id, str_eq_refl n.id)

    fits : (u : Str) → count u (keys ++ n.id ∷ []) + count u (map (λ (n : Node). n.id) ns) ≤ 1
    fits u = ground (arith, h u, count-append u keys (n.id ∷ []))

    shape :
        (u : Str)
        → count u (map (λ (n : Node). n.id) (n ∷ ns))
          ≡ count u (n.id ∷ []) + count u (map (λ (n : Node). n.id) ns)
    shape u = ground arith

-- A node is ready exactly when no edge from outside the completed nodes leads to it.
pub ready-remaining :
    (completed : List Str) (t : Str) (es : List Edge)
    → (all (λ dep. mem dep completed) (sources t es) ≡ true) ↔ (remaining completed es t ≡ 0)
ready-remaining completed t [] = ((λ h. refl), λ h. refl)
ready-remaining completed t (e ∷ es) =
    let ih = ready-remaining completed t es in
    ((λ h. ground (arith, ih.0)), λ h. ground (arith, ih.1))
