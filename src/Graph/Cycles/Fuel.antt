-- ===== src/Graph/Cycles/Fuel.antt =====
-- The search ends on every graph: each call colours a white node, and no node becomes white again.
use brockleyai.Prelude.{
  ℕ, zero, suc, ◌+◌, ◌<◌, ◌≤◌, ◌≡◌, ◌≢◌, sym, ◌∙◌, ap, Bool, true, false, List, [], ◌∷◌, ◌++◌,
  if◌then◌else◌, length, length-append, length-map, Str, update, some, none, Option-cases, inl, inr,
  arith, count, count-append, str_eq_refl, str_eq_iff, map, append_assoc, append-nil,
}
use brockleyai.Model.{Node, Edge, Graph}
use brockleyai.Graph.Shape.{ids, targets}
use brockleyai.Graph.Cycles.Cases.{
  Color-cases, closes, found, descends, skips, visit_all-Visit, aborts, finishes, dfs-Call,
}
use brockleyai.Graph.Cycles.Search.{
  Color, white, DfsState, forward_adj, enter, leave, Outcome, visit_all, dfs, search_all, unvisited,
  find_cycle,
}

targets-cons :
    (s : Str) (e : Edge) (es : List Edge) → targets s (e ∷ es) ≡ targets s (e ∷ []) ++ targets s es
targets-cons s e es = ground arith

forward_adj-append :
    (es : List Edge) (adj : Str → List Str) (s : Str) → forward_adj es adj s ≡ adj s ++ targets s es
unfolding forward_adj
forward_adj-append [] adj s = sym (append-nil (adj s))
forward_adj-append (e ∷ es) adj s =
    forward_adj-append es _ s
    ∙ ap (λ l. l ++ targets s es) one
    ∙ append_assoc (adj s) (targets s (e ∷ [])) (targets s es)
    ∙ ap (λ l. adj s ++ l) (sym (targets-cons s e es))
  where
    one :
        (if e.back_edge
            then adj
            else update adj e.source_node_id (adj e.source_node_id ++ e.target_node_id ∷ []))
          s
        ≡ adj s ++ targets s (e ∷ [])
    one = ground (arith, str_eq_iff s e.source_node_id, append-nil (adj s))

pub forward_adj_lem : (es : List Edge) (s : Str) → forward_adj es (λ _. []) s ≡ targets s es
forward_adj_lem es s = forward_adj-append es (λ _. []) s

abbrev pub is_white : Color → Bool
is_white white = true
is_white _ = false

-- Nodes only lose the colour white.
abbrev pub Darkens : DfsState → DfsState → Type 0
Darkens s s' = (t : Str) → is_white (s.colors t) ≡ false → is_white (s'.colors t) ≡ false

abbrev Darkening : (Str → DfsState → Outcome) → Type 0
Darkening go =
    (n : Str) (s : DfsState) (b : Bool) (s' : DfsState) → go n s ≡ some (b, s') → Darkens s s'

visit_all-Darkens :
    (go : Str → DfsState → Outcome) (ns : List Str) (s : DfsState) (b : Bool) (s' : DfsState)
    → Darkening go
    → visit_all go ns s ≡ some (b, s')
    → Darkens s s'
unfolding visit_all
visit_all-Darkens go [] s b s' k e t h = let same : s ≡ s' = cc in rw same at h
visit_all-Darkens go (n ∷ ns) s b s' k e t h = elim (visit_all-Visit go n ns s b s' e) [
  | closes _ _ same ↦ rw same at h
  | found _ call _ ↦ k n s true s' call t h
  | descends s1 _ call rest ↦ visit_all-Darkens go ns s1 b s' k rest t (k n s false s1 call t h)
  | skips _ rest ↦ visit_all-Darkens go ns s b s' k rest t h
]

leave-Darkens : (n : Str) (s : DfsState) → Darkens s (leave n s)
unfolding leave
leave-Darkens n s t h = ground arith

enter-Darkens : (n : Str) (s : DfsState) → Darkens s (enter n s)
enter-Darkens n s t h = ground arith

pub dfs-Darkens :
    (adj : Str → List Str) (fuel : ℕ) (n : Str) (s : DfsState) (b : Bool) (s' : DfsState)
    → dfs adj fuel n s ≡ some (b, s')
    → Darkens (enter n s) s'
unfolding dfs
dfs-Darkens adj zero n s b s' e t h = cc
dfs-Darkens adj (suc fuel) n s b s' e t h =
    let inner =
      λ (m : Str) (s1 : DfsState) (b1 : Bool) (s2 : DfsState)
          (c : dfs adj fuel m s1 ≡ some (b1, s2)) (u : Str) (k : is_white (s1.colors u) ≡ false).
        dfs-Darkens adj fuel m s1 b1 s2 c u (enter-Darkens m s1 u k) in
    elim (dfs-Call adj fuel n s b s' e) [
      | aborts loop _ ↦ visit_all-Darkens (dfs adj fuel) (adj n) (enter n s) true s' inner loop t h
      | finishes s1 loop _ out ↦ rw out (
          leave-Darkens n s1 t
            (visit_all-Darkens (dfs adj fuel) (adj n) (enter n s) false s1 inner loop t h))
    ]

white_count : DfsState → List Str → ℕ
white_count s [] = 0
white_count s (t ∷ ts) = if is_white (s.colors t) then suc (white_count s ts) else white_count s ts

white_count-le :
    (s s' : DfsState) (ts : List Str) → Darkens s s' → white_count s' ts ≤ white_count s ts
unfolding white_count
white_count-le s s' [] k = omega arith
white_count-le s s' (t ∷ ts) k = ground (arith, k t, white_count-le s s' ts k)

white_count-enter :
    (n : Str) (s : DfsState) (ts : List Str)
    → s.colors n ≡ white
    → 0 < count n ts
    → white_count (enter n s) ts < white_count s ts
unfolding white_count
white_count-enter n s [] w h = absurd (omega arith)
white_count-enter n s (t ∷ ts) w h = ground (
  arith,
  white_count-enter n s ts w,
  white_count-le s (enter n s) ts (enter-Darkens n s),
  str_eq_iff t n,
  str_eq_iff n t,
)

length-white_count : (s : DfsState) (ts : List Str) → white_count s ts ≤ length ts
unfolding white_count
length-white_count s [] = omega arith
length-white_count s (t ∷ ts) = ground (arith, length-white_count s ts)

module _ (adj : Str → List Str) (universe : List Str)
    (closed : (s t : Str) → 0 < count t (adj s) → 0 < count t universe) where
  abbrev Enough : ℕ → Type 0
  Enough fuel =
      (n : Str) (s : DfsState)
      → s.colors n ≡ white
      → 0 < count n universe
      → white_count s universe ≤ fuel
      → dfs adj fuel n s ≢ none

  visit_all-ends :
      (fuel : ℕ) (ns : List Str) (s : DfsState)
      → Enough fuel
      → ((t : Str) → 0 < count t ns → 0 < count t universe)
      → white_count s universe ≤ fuel
      → visit_all (dfs adj fuel) ns s ≢ none
  unfolding visit_all
  visit_all-ends fuel [] s k inside h = cc
  visit_all-ends fuel (n ∷ ns) s k inside h = elim (Color-cases (s.colors n)) [
    | inl w ↦ elim (Option-cases (dfs adj fuel n s)) [
      | inl lost ↦ absurd (k n s w (inside n (ground (arith, str_eq_refl n))) h lost)
      | inr ((true, s1), e) ↦ rw (w, e, visit_all) (cc)
      | inr ((false, s1), e) ↦
          rw (w, e, visit_all)
            (visit_all-ends fuel ns s1 k later (
              omega (
                arith,
                h,
                white_count-le s s1 universe
                    (λ t d. dfs-Darkens adj fuel n s false s1 e t (enter-Darkens n s t d)),
              )))
    ]
    | inr (inl g) ↦ rw (g, visit_all) (cc)
    | inr (inr b) ↦ rw (b, visit_all) (visit_all-ends fuel ns s k later h)
  ]
    where
      later : (t : Str) → 0 < count t ns → 0 < count t universe
      later t c = inside t (ground arith)

  dfs-ends : (fuel : ℕ) → Enough fuel
  unfolding dfs
  dfs-ends zero n s w inside h = absurd (omega (arith, h, white_count-enter n s universe w inside))
  dfs-ends (suc fuel) n s w inside h =
      elim (Option-cases (visit_all (dfs adj fuel) (adj n) (enter n s))) [
        | inl lost ↦ absurd (
            visit_all-ends fuel (adj n) (enter n s) (dfs-ends fuel) (λ t. closed n t)
              (omega (arith, h, white_count-enter n s universe w inside)) lost)
        | inr ((true, s1), e) ↦ rw (e, dfs) (cc)
        | inr ((false, s1), e) ↦ rw (e, dfs) (cc)
      ]

  search_all-ends :
      (fuel : ℕ) (ns : List Node) (b : Bool) (s : DfsState)
      → ((t : Str) → 0 < count t (map (λ (n : Node). n.id) ns) → 0 < count t universe)
      → white_count s universe ≤ fuel
      → search_all adj fuel ns b s ≢ none
  unfolding search_all
  search_all-ends fuel [] b s inside h = cc
  search_all-ends fuel (n ∷ ns) b s inside h = elim (Color-cases (s.colors n.id)) [
    | inl w ↦ elim (Option-cases (dfs adj fuel n.id s)) [
      | inl lost ↦
          absurd (dfs-ends fuel n.id s w (inside n.id (ground (arith, str_eq_refl n.id))) h lost)
      | inr ((true, s1), e) ↦
          rw (w, e, search_all)
            (search_all-ends fuel ns true s1 later (
              omega (
                arith,
                h,
                white_count-le s s1 universe
                    (λ t d. dfs-Darkens adj fuel n.id s true s1 e t (enter-Darkens n.id s t d)),
              )))
      | inr ((false, s1), e) ↦
          rw (w, e, search_all)
            (search_all-ends fuel ns b s1 later (
              omega (
                arith,
                h,
                white_count-le s s1 universe
                    (λ t d. dfs-Darkens adj fuel n.id s false s1 e t (enter-Darkens n.id s t d)),
              )))
    ]
    | inr (inl g) ↦ rw (g, search_all) (search_all-ends fuel ns b s later h)
    | inr (inr k) ↦ rw (k, search_all) (search_all-ends fuel ns b s later h)
  ]
    where
      later : (t : Str) → 0 < count t (map (λ (n : Node). n.id) ns) → 0 < count t universe
      later t c = inside t (ground arith)

targets-counted :
    (s : Str) (es : List Edge) (t : Str)
    → 0 < count t (targets s es)
    → 0 < count t (map (λ (e : Edge). e.target_node_id) es)
targets-counted s [] t h = absurd (omega arith)
targets-counted s (e ∷ es) t h = ground (arith, targets-counted s es t)

-- The search of validateNoCycles returns on every graph, with as many nested calls at most as the graph
-- has nodes and edges.
pub find_cycle-total : (g : Graph) → find_cycle g ≢ none
unfolding find_cycle
find_cycle-total g = elim (Option-cases outcome) [
  | inl lost ↦ absurd (
      search_all-ends adj universe closed (length g.nodes + length g.edges) g.nodes false unvisited
        (λ t h.
          omega (arith, h, count-append t (ids g) (map (λ (e : Edge). e.target_node_id) g.edges)))
        (omega (
          arith,
          length-white_count unvisited universe,
          length-append (ids g) (map (λ (e : Edge). e.target_node_id) g.edges),
          length-map (λ (n : Node). n.id) g.nodes,
          length-map (λ (e : Edge). e.target_node_id) g.edges,
        ))
        lost)
  | inr (r, e) ↦ rw (e, find_cycle) (cc)
]
  where
    adj : Str → List Str
    adj = forward_adj g.edges (λ _. [])

    universe : List Str
    universe = ids g ++ map (λ (e : Edge). e.target_node_id) g.edges

    outcome : Outcome
    outcome = search_all adj (length g.nodes + length g.edges) g.nodes false unvisited

    closed : (s t : Str) → 0 < count t (adj s) → 0 < count t universe
    closed s t h = omega (
      arith,
      targets-counted s g.edges t (rw (forward_adj_lem g.edges s) at h),
      count-append t (ids g) (map (λ (e : Edge). e.target_node_id) g.edges),
    )
