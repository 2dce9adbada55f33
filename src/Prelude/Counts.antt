-- ===== src/Prelude/Counts.antt =====
-- How often a string stands in a list. Membership, distinctness and equality up to order are
-- statements about these numbers, which the arithmetic tactics read.
use Prim.Native.Nat.{ℕ, suc, ◌+◌, ◌≤◌, ◌<◌}
use mathlib.Core.Path.{◌≡◌, refl}
use mathlib.Core.Logic.{inl, inr}
use mathlib.Core.Bool.{Bool, true, false, ◌||◌}
use mathlib.Core.List.{List, [], ◌∷◌, ◌++◌}
use native.Mathlib.Omega.{arith}
use brockleyai.Prelude.Tests.{if◌then◌else◌, Bool-cases}
use brockleyai.Prelude.Lists.{length}
use brockleyai.Prelude.Text.{Str, str_eq, str_eq_refl, eq_of_str_eq}

abbrev pub count : Str → List Str → ℕ
count a [] = 0
count a (x ∷ xs) = if str_eq a x then suc (count a xs) else count a xs

abbrev pub mem : Str → List Str → Bool
mem a [] = false
mem a (x ∷ xs) = str_eq a x || mem a xs

-- No string stands there twice.
abbrev pub IsDistinct : List Str → Type 0
IsDistinct xs = (a : Str) → count a xs ≤ 1

pub count-append : (a : Str) (xs ys : List Str) → count a (xs ++ ys) ≡ count a xs + count a ys
count-append a [] ys = omega arith
count-append a (x ∷ xs) ys = ground (arith, count-append a xs ys)

pub mem→count : (a : Str) (xs : List Str) → mem a xs ≡ true → 0 < count a xs
mem→count a [] h = cc
mem→count a (x ∷ xs) h = ground (arith, mem→count a xs)

pub count→mem : (a : Str) (xs : List Str) → 0 < count a xs → mem a xs ≡ true
count→mem a [] h = absurd (omega arith)
count→mem a (x ∷ xs) h = ground (arith, count→mem a xs)

-- One occurrence taken out, with the counts and the length that are left.

pub remove_one :
    (a : Str) (xs : List Str)
    → 0 < count a xs
    → (ys : List Str) × ((b : Str) → count b xs ≡ count b (a ∷ ys)) × (length xs ≡ suc (length ys))
remove_one a [] h = absurd (omega arith)
remove_one a (x ∷ xs) h = elim (Bool-cases (str_eq a x)) [
  | inl same ↦ (xs, (λ b. rw (eq_of_str_eq a x same)), refl)
  | inr other ↦
      let (ys, counts, len) = remove_one a xs (ground arith) in
      (x ∷ ys, (λ b. ground (arith, counts b)), omega arith)
]

-- A list whose counts lie below those of another is a part of it, up to order.
pub complement :
    (xs ys : List Str)
    → ((a : Str) → count a xs ≤ count a ys)
    → (zs : List Str) × ((a : Str) → count a ys ≡ count a xs + count a zs)
      × (length ys ≡ length xs + length zs)
complement [] ys h = (ys, (λ a. omega arith), omega arith)
complement (x ∷ xs) ys h =
    let (ys', counts, len) = remove_one x ys (ground (arith, h x, str_eq_refl x)) in
    let (zs, rest, len') = complement xs ys' (λ a. ground (arith, h a, counts a)) in
    (zs, (λ a. ground (arith, counts a, rest a)), omega arith)

pub length-le_of_count :
    (xs ys : List Str) → ((a : Str) → count a xs ≤ count a ys) → length xs ≤ length ys
length-le_of_count xs ys h = let (zs, counts, len) = complement xs ys h in omega arith

-- Counts below and no shorter: the same elements.
pub count-eq_of_length :
    (xs ys : List Str)
    → ((a : Str) → count a xs ≤ count a ys)
    → length ys ≤ length xs
    → (a : Str) → count a xs ≡ count a ys
count-eq_of_length xs ys h short a =
    let (zs, counts, len) = complement xs ys h in
    elim zs
        as (λ zs.
          count a ys ≡ count a xs + count a zs
          → length ys ≡ length xs + length zs
          → count a xs ≡ count a ys) [
            | [] ↦ λ c l. omega arith
            | z ∷ zs ↦ λ c l. absurd (omega arith)
          ]
      (counts a) len
