-- ===== src/Graph/Cycles/Cases.antt =====
-- How a finished call of the search came about.
use brockleyai.Prelude.{
  ℕ, suc, ◌≡◌, refl, Bool, true, false, List, ◌∷◌, Str, some, none, inl, inr, ◌⊎◌, Option-cases,
}
use brockleyai.Graph.Cycles.Search.{
  Color, white, gray, black, DfsState, enter, leave, Outcome, visit_all, dfs,
}

-- The four ways through one round of the loop over the neighbours.
pub data Visit (go : Str → DfsState → Outcome) (n : Str) (ns : List Str) (s : DfsState) (b : Bool)
    (s' : DfsState) : Type 0 where
  closes : s.colors n ≡ gray → b ≡ true → s ≡ s' → Visit go n ns s b s'
  found : s.colors n ≡ white → go n s ≡ some (true, s') → b ≡ true → Visit go n ns s b s'
  descends :
      (s1 : DfsState)
      → s.colors n ≡ white
      → go n s ≡ some (false, s1)
      → visit_all go ns s1 ≡ some (b, s')
      → Visit go n ns s b s'
  skips : s.colors n ≡ black → visit_all go ns s ≡ some (b, s') → Visit go n ns s b s'

pub Color-cases : (c : Color) → (c ≡ white) ⊎ (c ≡ gray) ⊎ (c ≡ black)
Color-cases white = inl refl
Color-cases gray = inr (inl refl)
Color-cases black = inr (inr refl)

pub visit_all-Visit :
    (go : Str → DfsState → Outcome) (n : Str) (ns : List Str) (s : DfsState) (b : Bool)
    (s' : DfsState)
    → visit_all go (n ∷ ns) s ≡ some (b, s')
    → Visit go n ns s b s'
unfolding visit_all
visit_all-Visit go n ns s b s' e = elim (Color-cases (s.colors n)) [
  | inl w ↦ elim (Option-cases (go n s)) [
    | inl lost ↦ let bad : none ≡ some (b, s') = rw (w, lost, visit_all) at e in cc
    | inr ((true, s1), h) ↦
        let done : some (true, s1) ≡ some (b, s') = rw (w, h, visit_all) at e in found w (cc) (cc)
    | inr ((false, s1), h) ↦ descends s1 w h (rw (w, h, visit_all) at e)
  ]
  | inr (inl g) ↦
      let done : some (true, s) ≡ some (b, s') = rw (g, visit_all) at e in closes g (cc) (cc)
  | inr (inr k) ↦ skips k (rw (k, visit_all) at e)
]

-- The two ways through a call.
pub data Call (adj : Str → List Str) (fuel : ℕ) (n : Str) (s : DfsState) (b : Bool) (s' : DfsState)
    : Type 0 where
  aborts :
      visit_all (dfs adj fuel) (adj n) (enter n s) ≡ some (true, s')
      → b ≡ true
      → Call adj fuel n s b s'
  finishes :
      (s1 : DfsState)
      → visit_all (dfs adj fuel) (adj n) (enter n s) ≡ some (false, s1)
      → b ≡ false
      → s' ≡ leave n s1
      → Call adj fuel n s b s'

pub dfs-Call :
    (adj : Str → List Str) (fuel : ℕ) (n : Str) (s : DfsState) (b : Bool) (s' : DfsState)
    → dfs adj (suc fuel) n s ≡ some (b, s')
    → Call adj fuel n s b s'
unfolding dfs
dfs-Call adj fuel n s b s' e = elim (Option-cases (visit_all (dfs adj fuel) (adj n) (enter n s))) [
  | inl lost ↦ let bad : none ≡ some (b, s') = rw (lost, dfs) at e in cc
  | inr ((true, s1), h) ↦
      let done : some (true, s1) ≡ some (b, s') = rw (h, dfs) at e in aborts (cc) (cc)
  | inr ((false, s1), h) ↦
      let done : some (false, leave n s1) ≡ some (b, s') = rw (h, dfs) at e in
      finishes s1 h (cc) (cc)
]
