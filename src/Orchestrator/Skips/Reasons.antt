-- ===== src/Orchestrator/Skips/Reasons.antt =====
-- Why an edge is dead: it was dead before, it leaves a skipped node, or its port has no value.
use brockleyai.Prelude.{
  Str, str_eq, eq_of_str_eq, str_eq_refl, str_eq_iff, ℕ, zero, suc, ◌≡◌, refl, sym, ◌⊎◌, inl, inr,
  Bool, true, false, not, ◌||◌, Option, none, some, List, [], ◌∷◌, if◌then◌else◌, all, select,
  arith, In, here, there, Bool-cases,
}
use brockleyai.Model.{Edge}
use brockleyai.Value.{Table, is_nil}
use brockleyai.Orchestrator.Ports.{read}
use brockleyai.Orchestrator.Skips.{
  Skips, out_edges, in_edges, kill, skip, is_spent, kill_all, mark_skipped, propagate_skips,
}

In-select-both :
    (x e : Edge) (es kept : List Edge) (p : Edge → Bool) (b : Bool)
    → p x ≡ b
    → (In e kept → In e es × (p e ≡ true))
    → In e (if b then x ∷ kept else kept)
    → In e (x ∷ es) × (p e ≡ true)
In-select-both x e es kept p true holds rest here = (here, holds)
In-select-both x e es kept p true holds rest (there i) = let (j, b) = rest i in (there j, b)
In-select-both x e es kept p false fails rest i = let (j, b) = rest i in (there j, b)

pub In-selected :
    (p : Edge → Bool) (es : List Edge) (e : Edge) → In e (select p es) → In e es × (p e ≡ true)
In-selected p [] e i = elim i [ ]
In-selected p (x ∷ es) e i =
    In-select-both x e es (select p es) p (p x) refl (λ j. In-selected p es e j) i

module _ (edges : List Edge) where
  -- Every identifier that is dead in `s'` was dead in `s`, or is that of an edge of the graph that leaves a node
  -- skipped in `s'` or has the property.
  abbrev pub IsExplained : (Edge → Type 0) → Skips → Skips → Type 0
  IsExplained P s s' =
      (id : Str)
      → s'.dead id ≡ true
      → (s.dead id ≡ true)
        ⊎ ((e : Edge) × In e edges × (e.id ≡ id) × ((s'.skipped e.source_node_id ≡ true) ⊎ P e))

  abbrev Never : Edge → Type 0
  Never e = ⊥

  abbrev StaysSkipped : Skips → Skips → Type 0
  StaysSkipped s s' = (n : Str) → s.skipped n ≡ true → s'.skipped n ≡ true

  -- What a successful call of markSkipped does.
  abbrev IsCall : (Str → Skips → Option Skips) → Type 0
  IsCall go =
      (id : Str) (s s' : Skips) → go id s ≡ some s' → StaysSkipped s s' × IsExplained Never s s'

  explain_then :
      (P : Edge → Type 0) (s t u : Skips)
      → StaysSkipped t u
      → IsExplained P s t
      → IsExplained P t u
      → IsExplained P s u
  explain_then P s t u stays first second id dead = by_second (second id dead)
    where
      by_first :
          (s.dead id ≡ true)
            ⊎ ((e : Edge) × In e edges × (e.id ≡ id) × ((t.skipped e.source_node_id ≡ true) ⊎ P e))
          → (s.dead id ≡ true)
            ⊎ ((e : Edge) × In e edges × (e.id ≡ id) × ((u.skipped e.source_node_id ≡ true) ⊎ P e))
      by_first (inl before) = inl before
      by_first (inr (e, i, same, inl skipped)) =
          inr (e, i, same, inl (stays e.source_node_id skipped))
      by_first (inr (e, i, same, inr holds)) = inr (e, i, same, inr holds)

      by_second :
          (t.dead id ≡ true)
            ⊎ ((e : Edge) × In e edges × (e.id ≡ id) × ((u.skipped e.source_node_id ≡ true) ⊎ P e))
          → (s.dead id ≡ true)
            ⊎ ((e : Edge) × In e edges × (e.id ≡ id) × ((u.skipped e.source_node_id ≡ true) ⊎ P e))
      by_second (inl before) = by_first (first id before)
      by_second (inr reason) = inr reason

  explain_kill :
      (P : Edge → Type 0) (e : Edge) (s : Skips)
      → In e edges
      → (s.skipped e.source_node_id ≡ true) ⊎ P e
      → IsExplained P s (kill e s)
  explain_kill P e s i reason id dead = elim (Bool-cases (str_eq e.id id)) [
    | inl same ↦ inr (e, i, eq_of_str_eq e.id id same, reason)
    | inr other ↦ inl (ground (arith, dead, other, str_eq_iff e.id id, str_eq_iff id e.id))
  ]

  kill_all-IsExplained :
      (go : Str → Skips → Option Skips) (es : List Edge) (s s' : Skips)
      → IsCall go
      → ((e : Edge) → In e es → In e edges × (s.skipped e.source_node_id ≡ true))
      → kill_all go es s ≡ some s'
      → StaysSkipped s s' × IsExplained Never s s'
  unfolding kill_all
  kill_all-IsExplained go [] s s' call sub h =
      let same : s ≡ s' = cc h in rw (sym same) (λ n k. k, λ id k. inl k)
  kill_all-IsExplained go (e ∷ es) s s' call sub h =
      by_call (go e.target_node_id (kill e s)) refl h (λ t first rest.
        kill_all-IsExplained go es t s' call
          (λ e' i. let (j, k) = sub e' (there i) in (j, first e'.source_node_id k)) rest)
    where
      by_call :
          (r : Option Skips)
          → go e.target_node_id (kill e s) ≡ r
          → elim r [ none ↦ none | some t ↦ kill_all go es t ] ≡ some s'
          → ((t : Skips)
              → StaysSkipped (kill e s) t
              → kill_all go es t ≡ some s'
              → StaysSkipped t s' × IsExplained Never t s')
          → StaysSkipped s s' × IsExplained Never s s'
      by_call none k h rest = absurd (cc h)
      by_call (some t) k h rest =
          let (stays, explained) = call e.target_node_id (kill e s) t k in
          let (stays', explained') = rest t stays h in
          let (i, skipped) = sub e here in
          (
            λ n d. stays' n (stays n d),
            explain_then Never s t s' stays'
                (explain_then Never s (kill e s) t stays (explain_kill Never e s i (inl skipped))
                  explained)
                explained',
          )

  mark_skipped-IsCall : (fuel : ℕ) → IsCall (mark_skipped edges fuel)
  unfolding mark_skipped
  mark_skipped-IsCall zero id s s' h = absurd (cc h)
  mark_skipped-IsCall (suc fuel) id s s' h =
      by_test (s.skipped id || not (all (is_spent s) (in_edges edges id))) h
        (mark_skipped-IsCall fuel)
    where
      skipping : StaysSkipped s (skip id s)
      skipping n k = ground (arith, k)

      by_test :
          (b : Bool)
          → elim b [
            | true ↦ some s
            | false ↦ kill_all (mark_skipped edges fuel) (out_edges edges id) (skip id s)
          ]
            ≡ some s'
          → IsCall (mark_skipped edges fuel)
          → StaysSkipped s s' × IsExplained Never s s'
      by_test true h call = let same : s ≡ s' = cc h in rw (sym same) (λ n k. k, λ id k. inl k)
      by_test false h call =
          let (stays, explained) =
            kill_all-IsExplained (mark_skipped edges fuel) (out_edges edges id) (skip id s) s' call
              (λ e i.
                let (j, leaves) = In-selected (λ e. str_eq e.source_node_id id) edges e i in
                (
                  j,
                  ground (arith, leaves, eq_of_str_eq e.source_node_id id leaves, str_eq_refl id),
                ))
              h in
          (λ n k. stays n (skipping n k), λ i d. explained i d)

  of_Never : (P : Edge → Type 0) (s s' : Skips) → IsExplained Never s s' → IsExplained P s s'
  of_Never P s s' h id dead = by_reason (h id dead)
    where
      by_reason :
          (s.dead id ≡ true)
            ⊎ ((e : Edge) × In e edges × (e.id ≡ id) × ((s'.skipped e.source_node_id ≡ true) ⊎ ⊥))
          → (s.dead id ≡ true)
            ⊎ ((e : Edge) × In e edges × (e.id ≡ id) × ((s'.skipped e.source_node_id ≡ true) ⊎ P e))
      by_reason (inl before) = inl before
      by_reason (inr (e, i, same, inl skipped)) = inr (e, i, same, inl skipped)
      by_reason (inr (e, i, same, inr never)) = elim never [ ]

  -- Skip propagation over the edges `es`, those of which without a value have the property.
  pub propagate_skips-IsExplained :
      {F : Type 0} (P : Edge → Type 0) (outputs : Table F) (fuel : ℕ) (es : List Edge)
      (s s' : Skips)
      → ((e : Edge) → In e es → In e edges)
      → ((e : Edge) → In e es → is_nil (read outputs e.source_port) ≡ true → P e)
      → propagate_skips edges fuel outputs es s ≡ some s'
      → StaysSkipped s s' × IsExplained P s s'
  unfolding propagate_skips
  propagate_skips-IsExplained P outputs fuel [] s s' sub holds h =
      let same : s ≡ s' = cc h in rw (sym same) (λ n k. k, λ id k. inl k)
  propagate_skips-IsExplained P outputs fuel (e ∷ es) s s' sub holds h =
      by_value (is_nil (read outputs e.source_port)) refl h (λ t.
        propagate_skips-IsExplained P outputs fuel es t s' (λ e' i. sub e' (there i))
          (λ e' i. holds e' (there i)))
    where
      Rest : Type 0
      Rest =
          (t : Skips)
          → propagate_skips edges fuel outputs es t ≡ some s'
          → StaysSkipped t s' × IsExplained P t s'

      by_call :
          is_nil (read outputs e.source_port) ≡ true
          → (r : Option Skips) → mark_skipped edges fuel e.target_node_id (kill e s) ≡ r
          → elim r [ none ↦ none | some t ↦ propagate_skips edges fuel outputs es t ] ≡ some s'
          → Rest
          → StaysSkipped s s' × IsExplained P s s'
      by_call absent none k h rest = absurd (cc h)
      by_call absent (some t) k h rest =
          let (stays, explained) = mark_skipped-IsCall fuel e.target_node_id (kill e s) t k in
          let (stays', explained') = rest t h in
          (
            λ n d. stays' n (stays n d),
            explain_then P s t s' stays'
                (explain_then P s (kill e s) t stays
                  (explain_kill P e s (sub e here) (inr (holds e here absent)))
                  (of_Never P (kill e s) t explained))
                explained',
          )

      by_value :
          (b : Bool)
          → is_nil (read outputs e.source_port) ≡ b
          → elim b [
            | false ↦ propagate_skips edges fuel outputs es s
            | true ↦ elim (mark_skipped edges fuel e.target_node_id (kill e s)) [
              | none ↦ none
              | some t ↦ propagate_skips edges fuel outputs es t
            ]
          ]
            ≡ some s'
          → Rest
          → StaysSkipped s s' × IsExplained P s s'
      by_value false k h rest = rest s h
      by_value true k h rest =
          by_call k (mark_skipped edges fuel e.target_node_id (kill e s)) refl h rest
