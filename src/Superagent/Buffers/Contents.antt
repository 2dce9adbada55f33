-- ===== src/Superagent/Buffers/Contents.antt =====
-- What an edit of a buffer does to its content, said by concatenation: without positions, searches and slices.
use brockleyai.Prelude.{
  Str, ℤ, pos, negsuc, ℕ, zero, suc, ◌+◌, ◌≤◌, leb, ◌&&◌, ◌++◌, ◌≡◌, ◌≢◌, refl, sym, ap, ◌∙◌, true,
  false, Option, none, some, [], ◌∷◌, append_assoc, length, length-append, take, drop, starts_with,
  index_of, arith, Result, ok, err, Bool-cases, inl, inr,
}
use brockleyai.Superagent.Buffers.{
  BufferError, marker_not_found, out_of_bounds, insert_after, range_within, delete_range,
  replace_count,
}

pub data EditOp : Type 0 where
  append : Str → EditOp
  prepend : Str → EditOp
  insert : Str → Str → EditOp
  replace : Str → Str → ℤ → EditOp
  delete : ℤ → ℤ → EditOp

-- `i` is where the marker first occurs.
abbrev pub Occurs : Str → Str → ℕ → Type 0
Occurs s marker i =
    (before : Str) × (rest : Str) × (s ≡ before ++ (marker ++ rest))
    × (length before ≡ i)
    × ((before' rest' : Str) → s ≡ before' ++ (marker ++ rest') → i ≤ length before')

abbrev pub Absent : Str → Str → Type 0
Absent s marker = (before rest : Str) → s ≢ before ++ (marker ++ rest)

-- An insertion behind the first occurrence of the marker, a deletion of the part between two lengths, and
-- their errors where there is no such place; a replacement of so many occurrences, or of all for 0.
abbrev pub Edits : (Str → Str → Str → ℤ → Str) → EditOp → Str → Result BufferError Str → Type 0
Edits replace_text (append content) s r = r ≡ ok (s ++ content)
Edits replace_text (prepend content) s r = r ≡ ok (content ++ s)
Edits replace_text (insert marker content) s (ok t) =
    (before : Str) × (rest : Str) × (s ≡ before ++ (marker ++ rest))
    × ((before' rest' : Str) → s ≡ before' ++ (marker ++ rest') → length before ≤ length before')
    × (t ≡ before ++ (marker ++ (content ++ rest)))
Edits replace_text (insert marker content) s (err e) = (e ≡ marker_not_found) × Absent s marker
Edits replace_text (replace old new (pos zero)) s r = r ≡ ok (replace_text s old new (negsuc 0))
Edits replace_text (replace old new (pos (suc n))) s r =
    r ≡ ok (replace_text s old new (pos (suc n)))
Edits replace_text (replace old new (negsuc n)) s r = r ≡ ok (replace_text s old new (negsuc n))
Edits replace_text (delete start end) s (ok t) =
    (a : Str) × (d : Str) × (b : Str) × (s ≡ a ++ (d ++ b))
    × (start ≡ pos (length a))
    × (end ≡ pos (length a + length d))
    × (t ≡ a ++ b)
Edits replace_text (delete start end) s (err e) =
    (e ≡ out_of_bounds)
    × ((a d b : Str) → s ≡ a ++ (d ++ b) → start ≡ pos (length a) → end ≢ pos (length a + length d))

take-length : (a b : Str) (n : ℕ) → n ≡ length a → take n (a ++ b) ≡ a
take-length [] b zero h = refl
take-length [] b (suc n) h = absurd (omega (arith, h))
take-length (c ∷ a) b zero h = absurd (omega (arith, h))
take-length (c ∷ a) b (suc n) h = ap (λ t. c ∷ t) (take-length a b n (omega (arith, h)))

drop-length : (a b : Str) (n : ℕ) → n ≡ length a → drop n (a ++ b) ≡ b
drop-length [] b zero h = refl
drop-length [] b (suc n) h = absurd (omega (arith, h))
drop-length (c ∷ a) b zero h = absurd (omega (arith, h))
drop-length (c ∷ a) b (suc n) h = drop-length a b n (omega (arith, h))

split_at : (n : ℕ) (s : Str) → n ≤ length s → (a : Str) × (b : Str) × (s ≡ a ++ b) × (length a ≡ n)
split_at zero s h = ([], s, refl, refl)
split_at (suc n) [] h = absurd (omega (arith, h))
split_at (suc n) (c ∷ s) h =
    let (a, b, e, l) = split_at n s (omega (arith, h)) in (c ∷ a, b, ap (λ t. c ∷ t) e, ap suc l)

starts_with-append : (p rest : Str) → starts_with (p ++ rest) p ≡ true
unfolding starts_with
starts_with-append [] [] = refl
starts_with-append [] (c ∷ rest) = refl
starts_with-append (c ∷ p) rest = ground (arith, starts_with-append p rest)

rest_of_starts_with : (s p : Str) → starts_with s p ≡ true → (rest : Str) × (s ≡ p ++ rest)
unfolding starts_with
rest_of_starts_with s [] h = (s, refl)
rest_of_starts_with [] (c ∷ p) h = absurd (cc h)
rest_of_starts_with (d ∷ s) (c ∷ p) h =
    let (rest, e) = rest_of_starts_with s p (ground (arith, h)) in
    let same : d ≡ c = ground (arith, h) in (rest, cc (e, same))

-- What a search finds.
abbrev Finds : Str → Str → Option ℕ → Type 0
Finds s p none = Absent s p
Finds s p (some i) = Occurs s p i

Occurs-here : (s p : Str) → starts_with s p ≡ true → Occurs s p 0
Occurs-here s p h =
    let (rest, e) = rest_of_starts_with s p h in ([], rest, e, refl, λ before' rest' k. omega arith)

not_here : (s p rest : Str) → starts_with s p ≡ false → s ≢ p ++ rest
not_here s p rest h e = absurd (cc (starts_with-append p rest, e, h))

tail_of : {c d : ℕ} {s t : Str} → c ∷ s ≡ d ∷ t → s ≡ t
tail_of h = cc h

Finds-cons :
    (c : ℕ) (s p : Str) (r : Option ℕ)
    → starts_with (c ∷ s) p ≡ false
    → Finds s p r
    → Finds (c ∷ s) p (elim r [ none ↦ none | some i ↦ some (suc i) ])
Finds-cons c s p none h absent = no_place
  where
    no_place : Absent (c ∷ s) p
    no_place [] rest e = not_here (c ∷ s) p rest h e
    no_place (d ∷ before) rest e = absent before rest (tail_of e)
Finds-cons c s p (some i) h (before, rest, e, l, first) =
    (c ∷ before, rest, ap (λ t. c ∷ t) e, ap suc l, first_place)
  where
    first_place : (before' rest' : Str) → c ∷ s ≡ before' ++ (p ++ rest') → suc i ≤ length before'
    first_place [] rest' k = absurd (not_here (c ∷ s) p rest' h k)
    first_place (d ∷ before') rest' k = omega (arith, first before' rest' (tail_of k))

index_of-Finds : (s p : Str) → Finds s p (index_of s p)
unfolding index_of
index_of-Finds [] p = elim (Bool-cases (starts_with [] p)) [
  | inl now ↦ rw (now, index_of) (Occurs-here [] p now)
  | inr never ↦ rw (never, index_of) (λ before rest. no_place before rest never)
]
  where
    no_place : (before rest : Str) → starts_with [] p ≡ false → [] ≢ before ++ (p ++ rest)
    no_place [] rest h e = not_here [] p rest h e
    no_place (d ∷ before) rest h e = absurd (cc e)
index_of-Finds (c ∷ s) p = elim (Bool-cases (starts_with (c ∷ s) p)) [
  | inl now ↦ rw (now, index_of) (Occurs-here (c ∷ s) p now)
  | inr later ↦ rw (later, index_of) (Finds-cons c s p (index_of s p) later (index_of-Finds s p))
]

module _ (replace_text : Str → Str → Str → ℤ → Str) where
  pub insert_after-Edits :
      (marker content s : Str)
      → Edits replace_text (insert marker content) s (insert_after marker content s)
  unfolding insert_after
  insert_after-Edits marker content s = by_place (index_of s marker) (index_of-Finds s marker)
    where
      by_place :
          (r : Option ℕ)
          → Finds s marker r
          → Edits replace_text (insert marker content) s (elim r as (λ _. Result BufferError Str) [
            | none ↦ err marker_not_found
            | some i ↦ ok (take (i + length marker) s ++ (content ++ drop (i + length marker) s))
          ])
      by_place none absent = (refl, absent)
      by_place (some i) (before, rest, e, l, first) =
          let split : s ≡ (before ++ marker) ++ rest = e ∙ sym (append_assoc before marker rest) in
          let place : i + length marker ≡ length (before ++ marker) =
            omega (arith, l, length-append before marker) in
          (
            before,
            rest,
            e,
            λ before' rest' k. omega (arith, l, first before' rest' k),
            ap (λ t. take (i + length marker) t ++ (content ++ drop (i + length marker) t)) split
                ∙ (rw
                    (
                      take-length (before ++ marker) rest (i + length marker) place,
                      drop-length (before ++ marker) rest (i + length marker) place,
                    )
                    (append_assoc before marker (content ++ rest))),
          )

  -- The places of a range that lies within the content.
  pub delete_range-Edits :
      (start end : ℤ) (s : Str) → Edits replace_text (delete start end) s (delete_range start end s)
  unfolding delete_range range_within
  delete_range-Edits (negsuc m) end s = (refl, λ a d b e h k. absurd (cc h))
  delete_range-Edits (pos m) (negsuc n) s = (refl, λ a d b e h k. absurd (cc k))
  delete_range-Edits (pos m) (pos n) s = elim (Bool-cases (leb n (length s) && leb m n)) [
    | inr outside ↦
        rw (outside, delete_range, range_within)
          (refl, λ a d b e h k. not_outside a d b e (cc h) (cc k) outside)
    | inl within ↦ rw (within, delete_range, range_within) (deleted within)
  ]
    where
      not_outside :
          (a d b : Str)
          → s ≡ a ++ (d ++ b)
          → m ≡ length a
          → n ≡ length a + length d
          → (leb n (length s) && leb m n) ≡ false
          → ⊥
      not_outside a d b e h k outside =
          let size : length s ≡ length a + (length d + length b) =
            ap length e ∙ (length-append a (d ++ b) ∙ ap (λ n. length a + n) (length-append d b)) in
          absurd (ground (arith, size, h, k, outside))

      deleted :
          (leb n (length s) && leb m n) ≡ true
          → Edits replace_text (delete (pos m) (pos n)) s (ok (take m s ++ drop n s))
      deleted within =
          let (p, b, e, lp) = split_at n s (ground (arith, within)) in
          let (a, d, e', la) = split_at m p (ground (arith, within, lp)) in
          let whole : s ≡ (a ++ d) ++ b = e ∙ ap (λ t. t ++ b) e' in
          let parts : s ≡ a ++ (d ++ b) = whole ∙ append_assoc a d b in
          let size : length p ≡ length (a ++ d) = ap length e' in
          let ends : n ≡ length a + length d = omega (arith, lp, la, size, length-append a d) in
          (
            a,
            d,
            b,
            parts,
            ap pos (sym la),
            ap pos ends,
            ap (λ t. t ++ drop n s) (ap (take m) parts ∙ take-length a (d ++ b) m (sym la))
                ∙ ap (λ t. a ++ t)
                    (ap (drop n) whole
                      ∙ drop-length (a ++ d) b n (omega (arith, ends, length-append a d))),
          )

  pub replace_count-Edits :
      (old new s : Str) (n : ℤ)
      → Edits replace_text (replace old new n) s (ok (replace_text s old new (replace_count n)))
  replace_count-Edits old new s (pos zero) = refl
  replace_count-Edits old new s (pos (suc n)) = refl
  replace_count-Edits old new s (negsuc n) = refl
