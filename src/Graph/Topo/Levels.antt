-- ===== src/Graph/Topo/Levels.antt =====
-- What the rounds of ParallelGroups keep: each node is grouped once, behind the sources of its edges.
use brockleyai.Prelude.{
  ℕ, zero, suc, ◌+◌, ◌<◌, ◌≤◌, ◌≡◌, Bool, List, [], ◌∷◌, ◌++◌, if◌then◌else◌, length, Str, some,
  inl, inr, arith, count, count-append, str_eq, str_eq_refl, eq_of_str_eq, Bool-cases, ◌==◌, not,
  mem, mem→count, count→mem, select,
}
use native.Mathlib.Decide.{dec_lt}
use brockleyai.Model.{Edge, Graph}
use brockleyai.Graph.Shape.{ids, remaining, IsForward, IsWired, IsRanking}
use brockleyai.Graph.Topo.Invariant.{source_placed, remaining-eq_zero}
use brockleyai.Graph.Topo.Groups.{Deps, is_ready, grouped, ready, rounds}
use brockleyai.Graph.Topo.Entries.{sources, ready-remaining}

-- The group that holds a node, counted from 0.
abbrev pub level : Str → List (List Str) → ℕ
level t [] = 0
level t (g ∷ gs) = if mem t g then 0 else suc (level t gs)

abbrev pub grouped_count : Str → List (List Str) → ℕ
grouped_count t [] = 0
grouped_count t (g ∷ gs) = count t g + grouped_count t gs

-- An order of visits that leaves nothing out and visits nothing twice.
abbrev pub IsShuffle : (ℕ → List Str → List Str) → Type 0
IsShuffle arrange = (k : ℕ) (xs : List Str) (t : Str) → count t (arrange k xs) ≡ count t xs

grouped_count-snoc :
    (t : Str) (gs : List (List Str)) (g : List Str)
    → grouped_count t (gs ++ g ∷ []) ≡ grouped_count t gs + count t g
grouped_count-snoc t [] g = omega arith
grouped_count-snoc t (h ∷ gs) g = omega (arith, grouped_count-snoc t gs g)

level-lt : (t : Str) (gs : List (List Str)) → 0 < grouped_count t gs → level t gs < length gs
level-lt t [] h = absurd (omega arith)
level-lt t (g ∷ gs) h = ground (arith, level-lt t gs, count→mem t g)

level-snoc_mem :
    (t : Str) (gs : List (List Str)) (g : List Str)
    → 0 < grouped_count t gs
    → level t (gs ++ g ∷ []) ≡ level t gs
level-snoc_mem t [] g h = absurd (omega arith)
level-snoc_mem t (x ∷ gs) g h = ground (arith, level-snoc_mem t gs g, count→mem t x)

level-snoc_new :
    (t : Str) (gs : List (List Str)) (g : List Str)
    → grouped_count t gs ≡ 0
    → 0 < count t g
    → level t (gs ++ g ∷ []) ≡ length gs
level-snoc_new t [] g h k = ground (arith, count→mem t g)
level-snoc_new t (x ∷ gs) g h k = ground (arith, level-snoc_new t gs g, mem→count t x)

pub count-select :
    (p : Str → Bool) (xs : List Str) (t : Str)
    → count t (select p xs) ≡ (if p t then count t xs else 0)
count-select p [] t = ground arith
count-select p (x ∷ xs) t = elim (Bool-cases (str_eq t x)) [
  | inl same ↦
      let e : t ≡ x = eq_of_str_eq t x same in
      rw e (ground (arith, count-select p xs x, str_eq_refl x))
  | inr other ↦ ground (arith, count-select p xs t)
]

abbrev pub IsLevelled : Graph → List (List Str) → Type 0
IsLevelled g gs =
    (e : Edge)
    → IsForward g e
    → 0 < grouped_count e.target_node_id gs
    → (0 < grouped_count e.source_node_id gs)
      × (level e.source_node_id gs < level e.target_node_id gs)

pub record IsPhase (g : Graph) (completed remaining : List Str) (groups : List (List Str))
    : Type 0 where
  pub parted : (t : Str) → count t completed + count t remaining ≡ count t (ids g)
  pub held : (t : Str) → grouped_count t groups ≡ count t completed
  pub levelled : IsLevelled g groups

length-pos : (t : Str) (xs : List Str) → 0 < count t xs → 0 < length xs
length-pos t [] h = absurd (omega arith)
length-pos t (x ∷ xs) h = omega arith

module _ (arrange : ℕ → List Str → List Str) (fair : IsShuffle arrange) (g : Graph) (w : IsWired g)
    (d : Deps) (deps : (t : Str) → 0 < count t (ids g) → d t ≡ some (sources t g.edges)) where
  count-ready :
      (k : ℕ) (completed rest : List Str) (t : Str)
      → 0 < count t (ids g)
      → count t (ready arrange k d completed rest)
        ≡ (if remaining completed g.edges t == 0 then count t rest else 0)
  count-ready k completed rest t known = ground (
    arith,
    count-select (is_ready d completed) (arrange k rest) t,
    fair k rest t,
    deps t known,
    ready-remaining completed t g.edges,
  )

  pub IsPhase-step :
      (k : ℕ) (completed rest : List Str) (groups : List (List Str))
      → IsPhase g completed rest groups
      → let now = ready arrange k d completed rest in
        IsPhase g (completed ++ now) (select (λ id. not (mem id now)) rest) (groups ++ now ∷ [])
  IsPhase-step k completed rest groups p = record {
    parted = λ t. ground (
      arith,
      count-append t completed now,
      count-select (λ id. not (mem id now)) rest t,
      within t,
      mem→count t now,
      count→mem t now,
      count-ready k completed rest t,
      p.parted t,
      w.distinct t,
    );
    held =
        λ t. omega (arith, grouped_count-snoc t groups now, count-append t completed now, p.held t);
    levelled =
        λ e f h. climb e f (omega (arith, h, grouped_count-snoc e.target_node_id groups now));
  }
    where
      now : List Str
      now = ready arrange k d completed rest

      within : (t : Str) → count t now ≤ count t rest
      within t =
          ground (arith, count-select (is_ready d completed) (arrange k rest) t, fair k rest t)

      climb :
          (e : Edge)
          → IsForward g e
          → 0 < grouped_count e.target_node_id groups + count e.target_node_id now
          → (0 < grouped_count e.source_node_id (groups ++ now ∷ []))
            × (level e.source_node_id (groups ++ now ∷ [])
                < level e.target_node_id (groups ++ now ∷ []))
      climb e f h = elim (dec_lt 0 (grouped_count e.target_node_id groups)) [
        | yes old ↦
            let (placed, before) = p.levelled e f old in
            omega (
              arith,
              grouped_count-snoc e.source_node_id groups now,
              placed,
              before,
              level-snoc_mem e.source_node_id groups now placed,
              level-snoc_mem e.target_node_id groups now old,
            )
        | no new ↦
            let fresh : grouped_count e.target_node_id groups ≡ 0 = omega arith in
            let chosen : 0 < count e.target_node_id now = omega (arith, h, fresh) in
            let placed : 0 < count e.source_node_id completed =
              source_placed completed g.edges e f.listed f.forward (
                ground (
                  arith,
                  chosen,
                  count-ready k completed rest e.target_node_id (w.target_known e f),
                )) in
            let held : 0 < grouped_count e.source_node_id groups =
              omega (arith, placed, p.held e.source_node_id) in
            omega (
              arith,
              grouped_count-snoc e.source_node_id groups now,
              held,
              level-lt e.source_node_id groups held,
              level-snoc_mem e.source_node_id groups now held,
              level-snoc_new e.target_node_id groups now fresh chosen,
            )
      ]

  pub rounds-IsPhase :
      (fuel : ℕ) (completed rest : List Str) (groups final : List (List Str))
      → IsPhase g completed rest groups
      → rounds arrange fuel d completed rest groups ≡ grouped final
      → (all_completed : List Str) × IsPhase g all_completed [] final
  unfolding rounds
  rounds-IsPhase zero completed [] groups final p e =
      let o : groups ≡ final = cc in (completed, rw o at p)
  rounds-IsPhase (suc fuel) completed [] groups final p e =
      let o : groups ≡ final = cc in (completed, rw o at p)
  rounds-IsPhase zero completed (r ∷ rs) groups final p e = cc
  rounds-IsPhase (suc fuel) completed (r ∷ rs) groups final p e =
      rounds-IsPhase fuel _ _ _ final (IsPhase-step fuel completed (r ∷ rs) groups p) (ground arith)

  -- Some node of an acyclic graph that is left is ready: one of least rank.
  pub some_ready :
      (rank : Str → ℕ)
      → IsRanking g rank
      → (k : ℕ) (completed rest : List Str)
      → ((t : Str) → count t completed + count t rest ≡ count t (ids g))
      → (bound : ℕ) (t : Str) → rank t < bound
      → 0 < count t rest
      → 0 < length (ready arrange k d completed rest)
  some_ready rank ranked k completed rest parted zero t h left = absurd (omega arith)
  some_ready rank ranked k completed rest parted (suc bound) t h left =
      elim (dec_lt 0 (length (ready arrange k d completed rest))) [
        | yes found ↦ found
        | no none_ready ↦
            let free = remaining-eq_zero completed g.edges t λ e i f at_t.
              let edge : IsForward g e = record { listed = i; forward = f } in
              let below : rank e.source_node_id < rank t = rw at_t at (ranked e edge) in
              elim (dec_lt 0 (count e.source_node_id rest)) [
                | yes waits ↦ absurd (
                    none_ready (
                      some_ready rank ranked k completed rest parted bound e.source_node_id
                        (omega arith) waits))
                | no gone ↦ omega (arith, parted e.source_node_id, w.source_known e edge)
              ] in
            absurd (
              none_ready (
                length-pos t (ready arrange k d completed rest)
                  (ground (arith, free, left, parted t, count-ready k completed rest t))))
      ]
