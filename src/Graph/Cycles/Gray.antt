-- ===== src/Graph/Cycles/Gray.antt =====
-- The nodes in progress: a call that finds no cycle restores them, and on a ranked graph none is met.
use brockleyai.Prelude.{
  ℕ, zero, suc, ◌<◌, ◌≡◌, ◌≢◌, sym, ◌∙◌, Bool, true, false, List, [], ◌∷◌, Str, some, none,
  Option-cases, inl, inr, arith, count, str_eq_refl, str_eq_iff,
}
use brockleyai.Model.{Node}
use brockleyai.Graph.Cycles.Cases.{
  Color-cases, closes, found, descends, skips, visit_all-Visit, aborts, finishes, dfs-Call,
}
use brockleyai.Graph.Cycles.Search.{
  Color, white, gray, DfsState, enter, leave, Outcome, visit_all, dfs, search_all,
}

abbrev pub is_gray : Color → Bool
is_gray gray = true
is_gray _ = false

-- A call that finds no cycle leaves the nodes in progress as they were.
abbrev pub SameGray : DfsState → DfsState → Type 0
SameGray s s' = (t : Str) → is_gray (s'.colors t) ≡ is_gray (s.colors t)

abbrev pub KeepsGray : (Str → DfsState → Outcome) → Type 0
KeepsGray go =
    (n : Str) (s s' : DfsState) → s.colors n ≡ white → go n s ≡ some (false, s') → SameGray s s'

pub visit_all-SameGray :
    (go : Str → DfsState → Outcome) (ns : List Str) (s s' : DfsState)
    → KeepsGray go
    → visit_all go ns s ≡ some (false, s')
    → SameGray s s'
unfolding visit_all
visit_all-SameGray go [] s s' k e t = let same : s ≡ s' = cc in rw same
visit_all-SameGray go (n ∷ ns) s s' k e t = elim (visit_all-Visit go n ns s false s' e) [
  | closes _ wrong _ ↦ cc
  | found _ _ wrong ↦ cc
  | descends s1 w call rest ↦ visit_all-SameGray go ns s1 s' k rest t ∙ k n s s1 w call t
  | skips _ rest ↦ visit_all-SameGray go ns s s' k rest t
]

module _ (adj : Str → List Str) where
  pub dfs-SameGray : (fuel : ℕ) → KeepsGray (dfs adj fuel)
  unfolding dfs leave
  dfs-SameGray zero n s s' w e t = cc
  dfs-SameGray (suc fuel) n s s' w e t = elim (dfs-Call adj fuel n s false s' e) [
    | aborts _ wrong ↦ cc
    | finishes s1 loop _ out ↦
        let inner =
          visit_all-SameGray (dfs adj fuel) (adj n) (enter n s) s1 (dfs-SameGray fuel) loop t in
        rw out (ground (arith, inner, str_eq_iff t n))
  ]

  -- With a ranking, every node in progress ranks below the node that is entered, so no edge meets one.
  module _ (rank : Str → ℕ) (climbs : (s t : Str) → 0 < count t (adj s) → rank s < rank t) where
    abbrev Below : DfsState → ℕ → Type 0
    Below s bound = (t : Str) → is_gray (s.colors t) ≡ true → rank t < bound

    abbrev NeverTrue : ℕ → Type 0
    NeverTrue fuel =
        (n : Str) (s s' : DfsState)
        → s.colors n ≡ white
        → Below s (rank n)
        → dfs adj fuel n s ≢ some (true, s')

    visit_all-false :
        (fuel : ℕ) (c : Str) (ns : List Str) (s s' : DfsState)
        → NeverTrue fuel
        → ((t : Str) → 0 < count t ns → rank c < rank t)
        → Below s (suc (rank c))
        → visit_all (dfs adj fuel) ns s ≢ some (true, s')
    unfolding visit_all
    visit_all-false fuel c [] s s' k up below e = cc
    visit_all-false fuel c (n ∷ ns) s s' k up below e =
        let higher : rank c < rank n = up n (ground (arith, str_eq_refl n)) in
        let later = λ (t : Str) (h : 0 < count t ns). up t (ground arith) in
        elim (visit_all-Visit (dfs adj fuel) n ns s true s' e) [
          | closes g _ _ ↦ omega (arith, higher, below n (rw g))
          | found w call _ ↦ k n s s' w (λ t g. omega (arith, higher, below t g)) call
          | descends s1 w call rest ↦
              visit_all-false fuel c ns s1 s' k later
                (λ t g. below t (sym (dfs-SameGray fuel n s s1 w call t) ∙ g)) rest
          | skips _ rest ↦ visit_all-false fuel c ns s s' k later below rest
        ]

    dfs-false : (fuel : ℕ) → NeverTrue fuel
    unfolding dfs
    dfs-false zero n s s' w below e = cc
    dfs-false (suc fuel) n s s' w below e = elim (dfs-Call adj fuel n s true s' e) [
      | aborts loop _ ↦
          visit_all-false fuel n (adj n) (enter n s) s' (dfs-false fuel) (climbs n)
            (λ t g. ground (arith, below t, str_eq_iff t n)) loop
      | finishes _ _ wrong _ ↦ cc
    ]

    pub search_all-false :
        (fuel : ℕ) (ns : List Node) (s s' : DfsState) (b : Bool)
        → ((t : Str) → is_gray (s.colors t) ≡ false)
        → search_all adj fuel ns false s ≡ some (b, s')
        → b ≡ false
    unfolding search_all
    search_all-false fuel [] s s' b calm e = cc
    search_all-false fuel (n ∷ ns) s s' b calm e = elim (Color-cases (s.colors n.id)) [
      | inl w ↦ elim (Option-cases (dfs adj fuel n.id s)) [
        | inl lost ↦
            let bad : ◌≡◌ {A = Outcome} none (some (b, s')) = rw (w, lost, search_all) at e in cc
        | inr ((true, s1), call) ↦
            absurd (dfs-false fuel n.id s s1 w (λ t g. absurd (clash (calm t) g)) call)
        | inr ((false, s1), call) ↦
            search_all-false fuel ns s1 s' b (λ t. dfs-SameGray fuel n.id s s1 w call t ∙ calm t)
              (rw (w, call, search_all) at e)
      ]
      | inr (inl g) ↦ search_all-false fuel ns s s' b calm (rw (g, search_all) at e)
      | inr (inr k) ↦ search_all-false fuel ns s s' b calm (rw (k, search_all) at e)
    ]
      where
        clash : {x : Bool} → x ≡ false → x ≡ true → ⊥
        clash p q = cc
