-- ===== src/Orchestrator/Skips/Justified.antt =====
-- Skip propagation ends, and skips a node only for a reason.
use brockleyai.Prelude.{
  Str, str_eq, str_eq_iff, str_eq_refl, ℕ, zero, suc, ◌<◌, ◌≤◌, ◌≡◌, refl, Bool, true, false, not,
  ◌||◌, Option, some, List, [], ◌∷◌, if◌then◌else◌, all, select, arith, In, here, there, Bool-cases,
  inl, inr, length,
}
use brockleyai.Model.{Edge}
use brockleyai.Value.{Table, is_nil}
use brockleyai.Orchestrator.Ports.{read}
use brockleyai.Orchestrator.Skips.Reasons.{In-selected, IsExplained, propagate_skips-IsExplained}
use brockleyai.Orchestrator.Skips.{
  Skips, out_edges, in_edges, kill, skip, is_spent, kill_all, mark_skipped, propagate_skips,
}

-- Edges stay dead and nodes stay skipped.
pub record Grows (s s' : Skips) : Type 0 where
  pub dead : (id : Str) → s.dead id ≡ true → s'.dead id ≡ true
  pub skipped : (id : Str) → s.skipped id ≡ true → s'.skipped id ≡ true

Grows-refl : (s : Skips) → Grows s s
Grows-refl s = record { dead = λ id h. h; skipped = λ id h. h }

Grows-trans : {s t u : Skips} → Grows s t → Grows t u → Grows s u
Grows-trans a b = record {
  dead = λ id h. b.dead id (a.dead id h);
  skipped = λ id h. b.skipped id (a.skipped id h);
}

Grows-kill : (e : Edge) (s : Skips) → Grows s (kill e s)
Grows-kill e s = record { dead = λ id h. ground arith; skipped = λ id h. h }

Grows-skip : (id : Str) (s : Skips) → Grows s (skip id s)
Grows-skip id s = record { dead = λ i h. h; skipped = λ i h. ground arith }

is_spent-Grows :
    {s s' : Skips} → Grows s s' → (e : Edge) → is_spent s e ≡ true → is_spent s' e ≡ true
is_spent-Grows g e h = ground (arith, g.dead e.id, g.skipped e.source_node_id)

-- Every edge into a skipped node is a back-edge, dead, or leaves a skipped node.
abbrev pub IsJustified : List Edge → Skips → Type 0
IsJustified edges s =
    (e : Edge) → In e edges → s.skipped e.target_node_id ≡ true → is_spent s e ≡ true

-- Nodes that edges lead to and that are not skipped.
abbrev unskipped : Skips → List Edge → ℕ
unskipped s [] = 0
unskipped s (e ∷ es) = if s.skipped e.target_node_id then unskipped s es else suc (unskipped s es)

unskipped-le : {s s' : Skips} → Grows s s' → (es : List Edge) → unskipped s' es ≤ unskipped s es
unskipped-le g [] = omega arith
unskipped-le g (e ∷ es) = ground (arith, unskipped-le g es, g.skipped e.target_node_id)

unskipped-length : (s : Skips) (es : List Edge) → unskipped s es ≤ length es
unskipped-length s [] = omega arith
unskipped-length s (e ∷ es) = ground (arith, unskipped-length s es)

unskipped-skip :
    (id : Str) (s : Skips) (es : List Edge) (e : Edge)
    → In e es
    → e.target_node_id ≡ id
    → s.skipped id ≡ false
    → unskipped (skip id s) es < unskipped s es
unskipped-skip id s [] e i t h = elim i [ ]
unskipped-skip id s (x ∷ es) e here t h =
    ground (arith, unskipped-le (Grows-skip id s) es, str_eq_iff x.target_node_id id)
unskipped-skip id s (x ∷ es) e (there i) t h =
    ground (arith, unskipped-skip id s es e i t h, Grows-skip id s)

-- The edges whose ports have no value are dead.
abbrev pub AreKilled : {F : Type 0} → Table F → List Edge → Skips → Type 0
AreKilled outputs es s =
    (e : Edge) → In e es → is_nil (read outputs e.source_port) ≡ true → s.dead e.id ≡ true

abbrev pub IsValueless : {F : Type 0} → Table F → List Edge → Edge → Type 0
IsValueless outputs es e = In e es × (is_nil (read outputs e.source_port) ≡ true)

AreKilled-cons :
    {F : Type 0} (outputs : Table F) (x : Edge) (es : List Edge) (s : Skips)
    → (is_nil (read outputs x.source_port) ≡ true → s.dead x.id ≡ true)
    → AreKilled outputs es s
    → AreKilled outputs (x ∷ es) s
AreKilled-cons outputs x es s h k e here = h
AreKilled-cons outputs x es s h k e (there i) = k e i

module _ (edges : List Edge) where
  -- With fuel above the number of nodes that can still be skipped, the call returns, and its result is
  -- justified if it was given a justified state.
  abbrev Returns : (Str → Skips → Option Skips) → ℕ → Type 0
  Returns go bound =
      (id : Str) (s : Skips)
      → unskipped s edges < bound
      → (e : Edge) × In e edges × (e.target_node_id ≡ id)
      → (s' : Skips) × (go id s ≡ some s')
        × Grows s s'
        × (IsJustified edges s → IsJustified edges s')

  kill_all-Returns :
      (go : Str → Skips → Option Skips) (bound : ℕ) (es : List Edge) (s : Skips)
      → Returns go bound
      → ((e : Edge) → In e es → In e edges)
      → unskipped s edges < bound
      → (s' : Skips) × (kill_all go es s ≡ some s')
        × Grows s s'
        × (IsJustified edges s → IsJustified edges s')
  unfolding kill_all
  kill_all-Returns go bound [] s k sub h = (s, refl, Grows-refl s, λ j. j)
  kill_all-Returns go bound (e ∷ es) s k sub h =
      let killed = Grows-kill e s in
      let (s1, call, grows, just) =
        k e.target_node_id (kill e s) (omega (arith, h, unskipped-le killed edges))
          (e, sub e here, refl) in
      let (s2, rest, grows2, just2) =
        kill_all-Returns go bound es s1 k (λ e' i. sub e' (there i))
          (omega (arith, h, unskipped-le (Grows-trans killed grows) edges)) in
      (
        s2,
        rw (call, kill_all) rest,
        Grows-trans killed (Grows-trans grows grows2),
        λ j. just2 (just (λ e' i h'. is_spent-Grows killed e' (j e' i h'))),
      )

  IsJustified-skip :
      (id : Str) (s : Skips)
      → all (is_spent s) (in_edges edges id) ≡ true
      → IsJustified edges s
      → IsJustified edges (skip id s)
  IsJustified-skip id s spent j e i h = elim (Bool-cases (str_eq e.target_node_id id)) [
    | inl same ↦
        is_spent-Grows (Grows-skip id s) e
          (all-In (is_spent s) (λ e. str_eq e.target_node_id id) edges e i same spent)
    | inr other ↦ is_spent-Grows (Grows-skip id s) e (j e i (ground arith))
  ]
    where
      all-In :
          (p q : Edge → Bool) (es : List Edge) (e : Edge)
          → In e es
          → q e ≡ true
          → all p (select q es) ≡ true
          → p e ≡ true
      all-In p q [] e i h k = elim i [ ]
      all-In p q (x ∷ es) e here h k = ground arith
      all-In p q (x ∷ es) e (there i) h k = all-In p q es e i h (ground arith)

  mark_skipped-Returns : (fuel : ℕ) → Returns (mark_skipped edges fuel) fuel
  unfolding mark_skipped
  mark_skipped-Returns zero id s h target = absurd (omega arith)
  mark_skipped-Returns (suc fuel) id s h (e, i, t) =
      elim (Bool-cases (s.skipped id || not (all (is_spent s) (in_edges edges id)))) [
        | inl stays ↦ (s, rw (stays, mark_skipped), Grows-refl s, λ j. j)
        | inr goes ↦
            let fresh : s.skipped id ≡ false = ground arith in
            let spent : all (is_spent s) (in_edges edges id) ≡ true = ground arith in
            let (s', ran, grows, just) =
              kill_all-Returns (mark_skipped edges fuel) fuel (out_edges edges id) (skip id s)
                (mark_skipped-Returns fuel)
                (λ e i. (In-selected (λ e. str_eq e.source_node_id id) edges e i).0)
                (omega (arith, h, unskipped-skip id s edges e i t fresh)) in
            (
              s',
              rw (goes, mark_skipped) ran,
              Grows-trans (Grows-skip id s) grows,
              λ j. just (IsJustified-skip id s spent j),
            )
      ]

  propagate_skips-Returns :
      {F : Type 0} (outputs : Table F) (es : List Edge) (s : Skips)
      → ((e : Edge) → In e es → In e edges)
      → (s' : Skips) × (propagate_skips edges (suc (length edges)) outputs es s ≡ some s')
        × Grows s s'
        × AreKilled outputs es s'
        × (IsJustified edges s → IsJustified edges s')
  unfolding propagate_skips
  propagate_skips-Returns outputs [] s sub = (s, refl, Grows-refl s, (λ e i. elim i [ ]), λ j. j)
  propagate_skips-Returns outputs (e ∷ es) s sub =
      elim (Bool-cases (is_nil (read outputs e.source_port))) [
        | inr carries ↦
            let (s', ran, grows, killed, just) =
              propagate_skips-Returns outputs es s (λ e' i. sub e' (there i)) in
            (
              s',
              rw (carries, propagate_skips) ran,
              grows,
              AreKilled-cons outputs e es s' (λ h. absurd (cc (carries, h))) killed,
              just,
            )
        | inl absent ↦
            let kills = Grows-kill e s in
            let (s1, call, grows, just) =
              mark_skipped-Returns (suc (length edges)) e.target_node_id (kill e s)
                (omega (arith, unskipped-length (kill e s) edges)) (e, sub e here, refl) in
            let (s2, rest, grows2, killed, just2) =
              propagate_skips-Returns outputs es s1 (λ e' i. sub e' (there i)) in
            (
              s2,
              rw (absent, call, propagate_skips) rest,
              Grows-trans kills (Grows-trans grows grows2),
              AreKilled-cons outputs e es s2
                  (λ _. (Grows-trans grows grows2).dead e.id (ground (arith, str_eq_refl e.id)))
                  killed,
              λ j. just2 (just (λ e' i h'. is_spent-Grows kills e' (j e' i h'))),
            )
      ]

  -- For edges of the graph, with one unit of fuel more than the graph has edges, skip propagation from a
  -- node returns; it takes back no dead edge and no skipped node; the edges whose ports have no value, or nil,
  -- are dead after it, and otherwise only what was dead before and edges that leave skipped nodes; and where every
  -- edge into a skipped node was a back-edge, dead, or from a skipped node before, this is so after it, whether
  -- the port of the edge is required or not.
  pub propagate_skips-IsJustified :
      {F : Type 0} (outputs : Table F) (es : List Edge) (s : Skips)
      → ((e : Edge) → In e es → In e edges)
      → (s' : Skips) × (propagate_skips edges (suc (length edges)) outputs es s ≡ some s')
        × Grows s s'
        × AreKilled outputs es s'
        × IsExplained edges (IsValueless outputs es) s s'
        × (IsJustified edges s → IsJustified edges s')
  propagate_skips-IsJustified outputs es s sub =
      let (s', ran, grows, killed, just) = propagate_skips-Returns outputs es s sub in
      let explained =
        propagate_skips-IsExplained edges (IsValueless outputs es) outputs (suc (length edges)) es s
          s' sub (λ e i absent. (i, absent)) ran in
      (s', ran, grows, killed, explained.1, just)
