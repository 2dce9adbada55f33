-- ===== src/Executors/ForEach/Results.antt =====
-- What foreach returns when it continues on errors does not depend on the order of the steps.
use brockleyai.Prelude.{
  Str, ℕ, suc, ◌+◌, ◌≤◌, ◌<◌, ◌==◌, ltb, ◌≡◌, ◌≢◌, refl, sym, ap, ◌∙◌, Bool, true, false, Option,
  none, some, List, [], ◌∷◌, ◌++◌, Result, ok, err, if◌then◌else◌, arith, Bool-cases, inl, inr,
}
use brockleyai.Prelude.Tests.{==_iff}
use brockleyai.Value.{Items, Entries, obj, no_items, item, items_length}
use brockleyai.Expression.Values.{item_at, or_nil}
use brockleyai.Executors.ForEach.{
  ItemError, Phase, unstarted, waiting, holding, executing, over, Loop, ForEach, set_phase, Step,
  spawn, acquire, give_up, begin, complete, finish, Reach, begun, after, count_items, item_of,
  collect, conclude, is_aborted,
}

abbrev is_over : Phase → Bool
is_over over = true
is_over _ = false

abbrev pub is_unstarted : Phase → Bool
is_unstarted unstarted = true
is_unstarted _ = false

-- How many errors an item has.
unfoldable pub count_errors : {F : Type 0} → ℕ → List (ItemError F) → ℕ
count_errors i [] = 0
count_errors i (e ∷ es) = if e.index == i then suc (count_errors i es) else count_errors i es

no_errors : (F : Type 0) (i : ℕ) → count_errors {F = F} i [] ≡ 0
unfolding count_errors
no_errors F i = refl

count_errors_append :
    {F : Type 0} (i : ℕ) (es : List (ItemError F)) (e : ItemError F)
    → count_errors i (es ++ e ∷ []) ≡ count_errors i es + (if e.index == i then 1 else 0)
unfolding count_errors
count_errors_append i [] e = ground arith
count_errors_append i (d ∷ es) e = ground (arith, count_errors_append i es e)

abbrev pub output_of : {F : Type 0} → Result Str (Entries F) → Option (Entries F)
output_of (ok output) = some output
output_of (err e) = none

abbrev pub failures : {F : Type 0} → Result Str (Entries F) → ℕ
failures (ok output) = 0
failures (err e) = 1

module _ {F : Type 0} (each : ForEach F) where
  -- The items run one after the other, from index `i` on.
  unfoldable pub in_order : Items F → ℕ → Items F
  in_order no_items i = no_items
  in_order (item v vs) i = elim (each.run i v) [
    | err e ↦ in_order vs (suc i)
    | ok output ↦ item (obj output) (in_order vs (suc i))
  ]

  abbrev result_of : ℕ → Result Str (Entries F)
  result_of i = each.run i (item_of each i)

  pub record IsSettled (s : Loop F) : Type 0 where
    pub open_items :
        (i : ℕ) → is_over (s.phase i) ≡ false → (s.results i ≡ none) × (count_errors i s.errors ≡ 0)
    pub closed_items :
        each.abort ≡ false
        → (i : ℕ) → is_over (s.phase i) ≡ true
        → (s.results i ≡ output_of (result_of i))
          × (count_errors i s.errors ≡ failures (result_of i))
    pub fresh : (i : ℕ) → s.next ≤ i → s.phase i ≡ unstarted
    pub started : (i : ℕ) → i < s.next → is_unstarted (s.phase i) ≡ false

  -- A step that neither ends a goroutine nor touches the results.
  moved :
      (s : Loop F) (i : ℕ) (p : Phase) (next : ℕ)
      → s.next ≤ next
      → i < next
      → is_over (s.phase i) ≡ false
      → is_over p ≡ false
      → is_unstarted p ≡ false
      → ((j : ℕ) → j < next → (j == i) ≡ false → j < s.next)
      → IsSettled s
      → IsSettled (set_phase i p (record s { next = next }))
  moved s i p next later below w q nu grows h = record {
    open_items = λ j o. h.open_items j (ground (arith, o, w, ==_iff j i));
    closed_items = λ c j o. h.closed_items c j (ground (arith, o, q, ==_iff j i));
    fresh = λ j l. ground (arith, below, l, h.fresh j (omega (arith, l, later)));
    started = λ j l. elim (Bool-cases (j == i)) [
      | inl same ↦ rw same nu
      | inr other ↦ rw other (h.started j (grows j l other))
    ];
  }

  -- A goroutine gives up only after an abort.
  dropped :
      (s : Loop F) (i : ℕ)
      → is_aborted each s ≡ true
      → s.phase i ≡ holding
      → i < s.next
      → IsSettled s
      → IsSettled (set_phase i over s)
  dropped s i stop w below h = record {
    open_items = λ j o. h.open_items j (ground (arith, o));
    closed_items = λ c j o. absurd (ground (arith, c, stop));
    fresh = λ j l. ground (arith, h.fresh j l, below, l);
    started = λ j l. ground (arith, h.started j l);
  }

  abbrev failed_item : ℕ → Str → ItemError F
  failed_item i d = record { index = i; error = d; item = item_of each i }

  finished :
      (s : Loop F) (i : ℕ) (r : Result Str (Entries F))
      → r ≡ result_of i
      → is_over (s.phase i) ≡ false
      → i < s.next
      → IsSettled s
      → IsSettled (finish each i r s)
  unfolding finish
  finished s i (ok output) e w below h = record {
    open_items =
        λ j o. let old = h.open_items j (ground (arith, o)) in (ground (arith, o, old.0), old.1);
    closed_items = λ c j o. elim (Bool-cases (j == i)) [
      | inl same ↦
          let k : j ≡ i = (==_iff j i).0 same in
          let running : is_over (s.phase j) ≡ false = ap (λ m. is_over (s.phase m)) k ∙ w in
          let r : ok output ≡ result_of j = e ∙ ap result_of (sym k) in
          (rw same (ap output_of r), (h.open_items j running).1 ∙ ap failures r)
      | inr other ↦
          let old = h.closed_items c j (ground (arith, o, other)) in (rw other old.0, old.1)
    ];
    fresh = λ j l. ground (arith, h.fresh j l, below, l);
    started = λ j l. ground (arith, h.started j l);
  }
  finished s i (err d) e w below h = record {
    open_items = λ j o.
        let old = h.open_items j (ground (arith, o)) in
        (
          old.0,
          ground (
            arith,
            o,
            old.1,
            count_errors_append j s.errors (failed_item i d),
            ==_iff i j,
            ==_iff j i,
          ),
        );
    closed_items = λ c j o. elim (Bool-cases (j == i)) [
      | inl same ↦
          let k : j ≡ i = (==_iff j i).0 same in
          let running : is_over (s.phase j) ≡ false = ap (λ m. is_over (s.phase m)) k ∙ w in
          let r : err d ≡ result_of j = e ∙ ap result_of (sym k) in
          let old = h.open_items j running in
          let one : count_errors j (s.errors ++ failed_item i d ∷ []) ≡ 1 = ground (
            arith,
            old.1,
            same,
            count_errors_append j s.errors (failed_item i d),
            ==_iff i j,
            ==_iff j i,
          ) in
          (old.0 ∙ ap output_of r, one ∙ ap failures r)
      | inr other ↦
          let old = h.closed_items c j (ground (arith, o, other)) in
          (
            old.0,
            ground (
              arith,
              old.1,
              other,
              count_errors_append j s.errors (failed_item i d),
              ==_iff i j,
              ==_iff j i,
            ),
          )
    ];
    fresh = λ j l. ground (arith, h.fresh j l, below, l);
    started = λ j l. ground (arith, h.started j l);
  }

  started_before :
      (s : Loop F) (i : ℕ) (p : Phase) → IsSettled s → s.phase i ≡ p → p ≢ unstarted → i < s.next
  started_before s i p h e q = elim (Bool-cases (ltb i s.next)) [
    | inl below ↦ ground arith
    | inr above ↦ absurd (q (sym e ∙ h.fresh i (ground arith)))
  ]

  Step-IsSettled : {s t : Loop F} → Step each s t → IsSettled s → IsSettled t
  Step-IsSettled (spawn s h live) k =
      let here : is_over (s.phase s.next) ≡ false = ap is_over (k.fresh s.next (omega arith)) in
      moved s s.next waiting (suc s.next) (omega arith) (omega arith) here refl refl
        (λ j l other. ground arith) k
  Step-IsSettled (acquire s i h w room) k =
      moved s i holding s.next (omega arith) (started_before s i waiting k w (λ e. cc))
        (ap is_over w) refl refl (λ j l other. l) k
  Step-IsSettled (give_up s i h w stop) k =
      dropped s i stop w (started_before s i holding k w (λ e. cc)) k
  Step-IsSettled (begin s i h w live) k =
      moved s i executing s.next (omega arith) (started_before s i holding k w (λ e. cc))
        (ap is_over w) refl refl (λ j l other. l) k
  Step-IsSettled (complete s i h w) k =
      finished s i (result_of i) refl (ap is_over w) (started_before s i executing k w (λ e. cc)) k

  pub Reach-IsSettled : {s : Loop F} → Reach each s → IsSettled s
  Reach-IsSettled begun = record {
    open_items = λ i o. (refl, no_errors F i);
    closed_items = λ c i o. absurd (cc o);
    fresh = λ i l. refl;
    started = λ i l. absurd (omega (arith, l));
  }
  Reach-IsSettled (after r step) = Step-IsSettled step (Reach-IsSettled r)

  collect-in_order :
      (results : ℕ → Option (Entries F)) (vs : Items F) (i : ℕ)
      → ((j : ℕ)
          → j < items_length vs
          → results (i + j) ≡ output_of (each.run (i + j) (or_nil (item_at vs j))))
      → collect each results i (items_length vs) ≡ in_order vs i
  unfolding collect in_order item_at
  collect-in_order results no_items i h = refl
  collect-in_order results (item v vs) i h =
      let first : results (i + 0) ≡ output_of (each.run (i + 0) v) = h 0 (omega arith) in
      let at : i + 0 ≡ i = omega arith in
      let first_here : results i ≡ output_of (each.run i v) = rw at at first in
      let rest : collect each results (suc i) (items_length vs) ≡ in_order vs (suc i) =
        collect-in_order results vs (suc i) (λ j l.
          let next : i + suc j ≡ suc i + j = omega arith in
          let k : results (i + suc j) ≡ output_of (each.run (i + suc j) (or_nil (item_at vs j))) =
            h (suc j) (omega (arith, l)) in
          rw next at k) in
      by_result (each.run i v) first_here rest
    where
      by_result :
          (r : Result Str (Entries F))
          → results i ≡ output_of r
          → collect each results (suc i) (items_length vs) ≡ in_order vs (suc i)
          → elim (results i) [
            | none ↦ collect each results (suc i) (items_length vs)
            | some output ↦ item (obj output) (collect each results (suc i) (items_length vs))
          ]
            ≡ elim r [
              | err e ↦ in_order vs (suc i)
              | ok output ↦ item (obj output) (in_order vs (suc i))
            ]
      by_result (ok output) e rest = rw (e, rest) refl
      by_result (err d) e rest = rw (e, rest) refl

if_false : {A : Type 0} (x y : A) (b : Bool) → b ≡ false → (if b then x else y) ≡ y
if_false x y true h = absurd (cc h)
if_false x y false h = refl

-- With errors not aborting the loop, whatever the order of the steps: when every goroutine is over, the results
-- are the outputs of the items that succeed, in the order of the items, and an item has one error if it fails
-- and none if it succeeds.
pub conclude_lem :
    {F : Type 0} (each : ForEach F) (s : Loop F)
    → each.abort ≡ false
    → Reach each s
    → ((i : ℕ) → i < count_items each → s.phase i ≡ over)
    → (conclude each s ≡ ok (in_order each each.items 0, s.errors))
      × ((i : ℕ)
          → i < count_items each
          → count_errors i s.errors ≡ failures (each.run i (item_of each i)))
unfolding conclude
conclude_lem each s continues r all_over =
    let settled = Reach-IsSettled each r in
    let outputs : collect each s.results 0 (count_items each) ≡ in_order each each.items 0 =
      collect-in_order each s.results each.items 0 (λ j l.
        let at : 0 + j ≡ j = omega arith in
        let done = settled.closed_items continues j (ap is_over (all_over j l)) in rw at done.0) in
    (
      if_false _ _ each.abort continues ∙ ap (λ vs. ok (vs, s.errors)) outputs,
      λ i l. (settled.closed_items continues i (ap is_over (all_over i l))).1,
    )
