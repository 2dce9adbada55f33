-- ===== src/Expression/Filters/Positions.antt =====
-- Where slice and reverse put the items of a list, and what an index from the end reads.
use brockleyai.Prelude.{
  ℕ, zero, suc, ◌+◌, ◌-◌, ◌≡◌, refl, ap, ◌∙◌, true, false, none, ltb, leb, if◌then◌else◌, arith,
  pos, negsuc, Bool-cases, inl, inr,
}
use brockleyai.Value.{Items, no_items, item, items_length}
use brockleyai.Expression.Values.{item_at, index_items}
use brockleyai.Expression.Filters.{take_items, drop_items, slice_items, reverse_onto}

item_at-take_items :
    {F : Type 0} (n : ℕ) (vs : Items F) (i : ℕ)
    → item_at (take_items n vs) i ≡ (if ltb i n then item_at vs i else none)
unfolding item_at
item_at-take_items zero vs i = ground arith
item_at-take_items (suc n) no_items i = ground arith
item_at-take_items (suc n) (item v vs) zero = ground arith
item_at-take_items (suc n) (item v vs) (suc i) = ground (arith, item_at-take_items n vs i)

item_at-drop_items :
    {F : Type 0} (n : ℕ) (vs : Items F) (i : ℕ) → item_at (drop_items n vs) i ≡ item_at vs (n + i)
unfolding item_at
item_at-drop_items zero vs i = let e : i ≡ 0 + i = omega arith in ap (item_at vs) e
item_at-drop_items (suc n) no_items i = refl
item_at-drop_items (suc n) (item v vs) i =
    let e : suc (n + i) ≡ suc n + i = omega arith in
    item_at-drop_items n vs i ∙ ap (item_at (item v vs)) e

-- Item `i` of a slice is item `start + i` of the list if that lies before the end; further items there are none.
pub item_at-slice_items :
    {F : Type 0} (start end : ℕ) (vs : Items F) (i : ℕ)
    → item_at (slice_items start end vs) i
      ≡ (if ltb (start + i) end then item_at vs (start + i) else none)
unfolding slice_items item_at
item_at-slice_items start end vs i = elim (Bool-cases (leb end start)) [
  | inl empty ↦ let past : ltb (start + i) end ≡ false = ground arith in rw (empty, past) refl
  | inr some_items ↦
      rw some_items
        (item_at-drop_items start (take_items end vs) i ∙ item_at-take_items end vs (start + i))
]

item_at-reverse_onto :
    {F : Type 0} (vs ws : Items F) (i : ℕ)
    → item_at (reverse_onto vs ws) i ≡ (
        if ltb i (items_length vs)
        then item_at vs (items_length vs - suc i)
        else item_at ws (i - items_length vs))
unfolding reverse_onto item_at
item_at-reverse_onto no_items ws i =
    let e : ltb i 0 ≡ false = ground arith in
    let f : i ≡ i - 0 = omega arith in rw e (ap (item_at ws) f)
item_at-reverse_onto (item v vs) ws i =
    item_at-reverse_onto vs (item v ws) i ∙ elim (Bool-cases (ltb i (items_length vs))) [
      | inl inside ↦
          let more : ltb i (suc (items_length vs)) ≡ true = ground arith in
          let e : suc (items_length vs - suc i) ≡ suc (items_length vs) - suc i = ground arith in
          rw (inside, more) (ap (item_at (item v vs)) e)
      | inr outside ↦ elim (Bool-cases (ltb i (suc (items_length vs)))) [
        | inl last ↦
            let e : i - items_length vs ≡ 0 = ground arith in
            let f : suc (items_length vs) - suc i ≡ 0 = ground arith in
            rw (outside, last, e, f) refl
        | inr past ↦
            let e : i - items_length vs ≡ suc (i - suc (items_length vs)) = ground arith in
            rw (outside, past, e) refl
      ]
    ]

-- An index below 0 reads the reversed list from its start.
pub index_items-reverse_onto :
    {F : Type 0} (vs : Items F) (n : ℕ)
    → index_items vs (negsuc n) ≡ index_items (reverse_onto vs no_items) (pos n)
unfolding index_items item_at
index_items-reverse_onto vs n = elim (Bool-cases (ltb n (items_length vs))) [
  | inl inside ↦
      let e : item_at (reverse_onto vs no_items) n ≡ item_at vs (items_length vs - suc n) =
        item_at-reverse_onto vs no_items n ∙ rw inside refl in
      rw (inside, e) refl
  | inr outside ↦
      let e : item_at (reverse_onto vs no_items) n ≡ none =
        item_at-reverse_onto vs no_items n ∙ rw outside refl in
      rw (outside, e) refl
]
