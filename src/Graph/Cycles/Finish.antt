-- ===== src/Graph/Cycles/Finish.antt =====
-- The finished nodes: without a report every node is finished, before the sources of its edges.
use brockleyai.Prelude.{
  ℕ, zero, suc, ◌<◌, ◌≡◌, ◌∙◌, Bool, true, false, List, [], ◌∷◌, Str, some, none, Option-cases, inl,
  inr, arith, count, str_eq, str_eq_refl, str_eq_iff, eq_of_str_eq, map, Bool-cases, ◌↔◌,
}
use mathlib.Core.Bool.{false≢true}
use brockleyai.Model.{Node}
use brockleyai.Graph.Shape.{index}
use brockleyai.Graph.Cycles.Cases.{
  Color-cases, closes, found, descends, skips, visit_all-Visit, aborts, finishes, dfs-Call,
}
use brockleyai.Graph.Cycles.Search.{
  Color, white, black, DfsState, enter, leave, Outcome, visit_all, dfs, search_all,
}
use brockleyai.Graph.Cycles.Gray.{is_gray, visit_all-SameGray, dfs-SameGray}

abbrev pub is_black : Color → Bool
is_black black = true
is_black _ = false

module _ (adj : Str → List Str) where
  -- The black nodes, latest first: each stands before the targets of its edges.
  abbrev pub IsClosed : List Str → Type 0
  IsClosed done =
      (s t : Str)
      → 0 < count s done
      → 0 < count t (adj s)
      → (0 < count t done) × (index s done < index t done)

  pub record Finished (s : DfsState) (done : List Str) : Type 0 where
    pub blacks : (t : Str) → (is_black (s.colors t) ≡ true) ↔ (0 < count t done)
    pub closed : IsClosed done

  abbrev pub Grows : List Str → List Str → Type 0
  Grows done done' = (t : Str) → 0 < count t done → 0 < count t done'

  abbrev KeepsDone : (Str → DfsState → Outcome) → Type 0
  KeepsDone go =
      (n : Str) (s s' : DfsState) (done : List Str)
      → s.colors n ≡ white
      → go n s ≡ some (false, s')
      → Finished s done
      → (done' : List Str) × Finished s' done' × Grows done done' × (0 < count n done')

  either : (n : Str) (ns done : List Str) → 0 < count n done → Grows ns done → Grows (n ∷ ns) done
  either n ns done first later t h = elim (Bool-cases (str_eq t n)) [
    | inl same ↦ rw (eq_of_str_eq t n same) first
    | inr other ↦ later t (ground arith)
  ]

  visit_all-Finished :
      (go : Str → DfsState → Outcome) (ns : List Str) (s s' : DfsState) (done : List Str)
      → KeepsDone go
      → visit_all go ns s ≡ some (false, s')
      → Finished s done
      → (done' : List Str) × Finished s' done' × Grows done done' × Grows ns done'
  unfolding visit_all
  visit_all-Finished go [] s s' done k e f =
      let same : s ≡ s' = cc in (done, rw same at f, (λ t h. h), λ t h. absurd (omega arith))
  visit_all-Finished go (n ∷ ns) s s' done k e f = elim (visit_all-Visit go n ns s false s' e) [
    | closes _ wrong _ ↦ absurd (cc)
    | found _ _ wrong ↦ absurd (cc)
    | descends s1 w call rest ↦
        let (done1, f1, grows1, now) = k n s s1 done w call f in
        let (done2, f2, grows2, all) = visit_all-Finished go ns s1 s' done1 k rest f1 in
        (done2, f2, (λ t h. grows2 t (grows1 t h)), either n ns done2 (grows2 n now) all)
    | skips b rest ↦
        let (done2, f2, grows2, all) = visit_all-Finished go ns s s' done k rest f in
        (done2, f2, grows2, either n ns done2 (grows2 n ((f.blacks n).0 (rw b))) all)
  ]

  Finished-enter :
      (n : Str) (s : DfsState) (done : List Str)
      → s.colors n ≡ white
      → Finished s done
      → Finished (enter n s) done
  Finished-enter n s done w f = record {
    blacks = λ t. elim (Bool-cases (str_eq t n)) [
      | inl same ↦
          let e : t ≡ n = eq_of_str_eq t n same in
          ((λ b. ground arith), λ h. ground (arith, (f.blacks n).1 (rw e at h)))
      | inr other ↦ ((λ b. (f.blacks t).0 (ground arith)), λ h. ground (arith, (f.blacks t).1 h))
    ];
    closed = f.closed;
  }

  Finished-leave :
      (n : Str) (s : DfsState) (done : List Str)
      → count n done ≡ 0
      → Grows (adj n) done
      → Finished s done
      → Finished (leave n s) (n ∷ done)
  unfolding leave
  Finished-leave n s done new all f = record {
    blacks = λ t. ((λ b. ground (arith, (f.blacks t).0)), λ h. ground (arith, (f.blacks t).1));
    closed = λ u t h k. elim (Bool-cases (str_eq u n)) [
      | inl same ↦
          let e : u ≡ n = eq_of_str_eq u n same in
          let there_t : 0 < count t done = all t (rw e at k) in
          ground (arith, there_t, str_eq_iff t n)
      | inr other ↦
          let (there_t, before) = f.closed u t (ground arith) k in
          ground (arith, there_t, before, str_eq_iff t n)
    ];
  }

  dfs-Finished : (fuel : ℕ) → KeepsDone (dfs adj fuel)
  unfolding dfs
  dfs-Finished zero n s s' done w e f = absurd (cc)
  dfs-Finished (suc fuel) n s s' done w e f = elim (dfs-Call adj fuel n s false s' e) [
    | aborts _ wrong ↦ absurd (cc)
    | finishes s1 loop _ out ↦
        let (done1, f1, grows, all) =
          visit_all-Finished (dfs adj fuel) (adj n) (enter n s) s1 done (dfs-Finished fuel) loop
            (Finished-enter n s done w f) in
        let new : count n done1 ≡ 0 = ground (
          arith,
          visit_all-SameGray (dfs adj fuel) (adj n) (enter n s) s1 (dfs-SameGray adj fuel) loop n,
          (f1.blacks n).1,
          str_eq_refl n,
        ) in
        (
          n ∷ done1,
          rw out (Finished-leave n s1 done1 new all f1),
          (λ t h. ground (arith, grows t h)),
          ground (arith, str_eq_refl n),
        )
  ]

  -- A report is not withdrawn.
  search_all-true :
      (fuel : ℕ) (ns : List Node) (s s' : DfsState) (b : Bool)
      → search_all adj fuel ns true s ≡ some (b, s')
      → b ≡ true
  unfolding search_all
  search_all-true fuel [] s s' b e = cc
  search_all-true fuel (n ∷ ns) s s' b e = elim (Color-cases (s.colors n.id)) [
    | inl w ↦ elim (Option-cases (dfs adj fuel n.id s)) [
      | inl lost ↦
          let bad : ◌≡◌ {A = Outcome} none (some (b, s')) = rw (w, lost, search_all) at e in cc
      | inr ((true, s1), call) ↦ search_all-true fuel ns s1 s' b (rw (w, call, search_all) at e)
      | inr ((false, s1), call) ↦ search_all-true fuel ns s1 s' b (rw (w, call, search_all) at e)
    ]
    | inr (inl g) ↦ search_all-true fuel ns s s' b (rw (g, search_all) at e)
    | inr (inr k) ↦ search_all-true fuel ns s s' b (rw (k, search_all) at e)
  ]

  -- Without a report every node is black at the end.
  pub search_all-Finished :
      (fuel : ℕ) (ns : List Node) (s s' : DfsState) (done : List Str)
      → ((t : Str) → is_gray (s.colors t) ≡ false)
      → search_all adj fuel ns false s ≡ some (false, s')
      → Finished s done
      → (done' : List Str) × Finished s' done'
        × Grows done done'
        × Grows (map (λ (n : Node). n.id) ns) done'
  unfolding search_all
  search_all-Finished fuel [] s s' done calm e f =
      let same : s ≡ s' = cc in (done, rw same at f, (λ t h. h), λ t h. absurd (omega arith))
  search_all-Finished fuel (n ∷ ns) s s' done calm e f = elim (Color-cases (s.colors n.id)) [
    | inl w ↦ elim (Option-cases (dfs adj fuel n.id s)) [
      | inl lost ↦
          let bad : ◌≡◌ {A = Outcome} none (some (false, s')) = rw (w, lost, search_all) at e in
          absurd (cc)
      | inr ((true, s1), call) ↦
          absurd (false≢true (search_all-true fuel ns s1 s' false (rw (w, call, search_all) at e)))
      | inr ((false, s1), call) ↦
          let (done1, f1, grows1, now) = dfs-Finished fuel n.id s s1 done w call f in
          let (done2, f2, grows2, all) =
            search_all-Finished fuel ns s1 s' done1
              (λ t. dfs-SameGray adj fuel n.id s s1 w call t ∙ calm t)
              (rw (w, call, search_all) at e) f1 in
          (
            done2,
            f2,
            (λ t h. grows2 t (grows1 t h)),
            either n.id (map (λ (n : Node). n.id) ns) done2 (grows2 n.id now) all,
          )
    ]
    | inr (inl g) ↦ let bad : true ≡ false = rw g at (calm n.id) in absurd (cc)
    | inr (inr b) ↦
        let (done2, f2, grows2, all) =
          search_all-Finished fuel ns s s' done calm (rw (b, search_all) at e) f in
        (
          done2,
          f2,
          grows2,
          either n.id (map (λ (n : Node). n.id) ns) done2 (grows2 n.id ((f.blacks n.id).0 (rw b)))
              all,
        )
  ]
