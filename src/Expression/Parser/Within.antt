-- ===== src/Expression/Parser/Within.antt =====
-- How much the parser's arguments, fields and operands consume: each loop that is given enough fuel ends.
use brockleyai.Prelude.{
  ℕ, zero, suc, ◌<◌, ◌≤◌, ◌≡◌, refl, true, false, ◌||◌, List, [], ◌∷◌, length, arith, Bool-cases,
  inl, inr,
}
use brockleyai.Expression.Token.{TokenType, Token, ident, string_token, comma, colon, r_brace}
use brockleyai.Expression.Syntax
use brockleyai.Expression.Syntax.{Expr, Exprs, Fields, no_exprs, no_fields}
use brockleyai.Expression.Parser.{
  ParseResult, parsed, failed, unfinished, then_parse, advance, at, expect, Level, parse_arg_list,
  parse_args, parse_fields, parse_object_literal,
}

-- An error, or fewer tokens than `n` left.
abbrev pub IsWithin {ℓ} : {A : Type ℓ} → ℕ → ParseResult A → Type 0
IsWithin n (parsed a ts) = length ts < n
IsWithin n failed = Unit
IsWithin n unfinished = ⊥

pub then_parse-IsWithin {ℓ κ} :
    {A : Type ℓ} {B : Type κ} {n : ℕ} (m : ℕ) (r : ParseResult A)
    (k : A → List Token → ParseResult B)
    → IsWithin n r
    → ((a : A) (rest : List Token) → length rest < n → IsWithin m (k a rest))
    → IsWithin m (then_parse r k)
unfolding then_parse
then_parse-IsWithin m (parsed a ts) k h next = next a ts h
then_parse-IsWithin m failed k h next = tt
then_parse-IsWithin m unfinished k h next = elim h [ ]

pub IsWithin-mono {ℓ} :
    {A : Type ℓ} {n m : ℕ} (r : ParseResult A) → n ≤ m → IsWithin n r → IsWithin m r
IsWithin-mono (parsed a ts) h k = omega arith
IsWithin-mono failed h k = tt
IsWithin-mono unfinished h k = elim k [ ]

-- A token that is not the EOF is there to be consumed.
pub advance-lt :
    (kind : TokenType) (ts : List Token)
    → at kind [] ≡ false
    → at kind ts ≡ true
    → length (advance ts) < length ts
advance-lt kind [] h k = absurd (ground arith)
advance-lt kind (t ∷ ts) h k = omega arith

pub expect-IsWithin :
    (kind : TokenType) (ts : List Token)
    → at kind [] ≡ false
    → IsWithin (length ts) (expect kind ts)
unfolding expect
expect-IsWithin kind ts h = elim (Bool-cases (at kind ts)) [
  | inl there ↦ rw (there, expect) (advance-lt kind ts h there)
  | inr other ↦ rw (other, expect) tt
]

module _ {F : Type 0} (go : Level (Expr F)) (bound : ℕ) where
  -- The recursive call consumes at least one token of a list shorter than `bound`.
  abbrev pub Consumes : Type 0
  Consumes = (ts : List Token) → length ts < bound → IsWithin (length ts) (go ts)

  module _ (calls : Consumes) where
    pub parse_arg_list-IsWithin :
        (n : ℕ) (ts : List Token)
        → length ts < n
        → length ts < bound
        → IsWithin (length ts) (parse_arg_list go n ts)
    unfolding parse_arg_list
    parse_arg_list-IsWithin zero ts h b = absurd (omega arith)
    parse_arg_list-IsWithin (suc n) ts h b =
        then_parse-IsWithin _ (go ts) _ (calls ts b) λ arg rest shorter.
          elim (Bool-cases (at comma rest)) [
            | inr last ↦ rw last shorter
            | inl more ↦
                let less = advance-lt comma rest refl more in
                rw more (
                  then_parse-IsWithin _ (parse_arg_list go n (advance rest)) _
                    (parse_arg_list-IsWithin n (advance rest) (omega arith) (omega arith))
                    (λ args rest' h'. omega arith))
          ]

    pub parse_args-IsWithin :
        (close : TokenType) (n : ℕ) (ts : List Token)
        → at close [] ≡ false
        → length ts < n
        → length ts < bound
        → IsWithin (length ts) (parse_args close go n ts)
    unfolding parse_args
    parse_args-IsWithin close n ts c h b = elim (Bool-cases (at close ts)) [
      | inl none_given ↦ rw (none_given, parse_args) (closing no_exprs ts (omega arith))
      | inr given ↦
          rw (given, parse_args)
            (then_parse-IsWithin _ (parse_arg_list go n ts) _ (parse_arg_list-IsWithin n ts h b)
              (λ args rest shorter. closing args rest (omega arith)))
    ]
      where
        closing :
            (args : Exprs F) (rest : List Token)
            → length rest ≤ length ts
            → IsWithin (length ts) (then_parse (expect close rest) λ _ rest'. parsed args rest')
        closing args rest le =
            then_parse-IsWithin _ (expect close rest) _ (expect-IsWithin close rest c)
              (λ _ rest' less. omega arith)

    pub parse_fields-IsWithin :
        (n : ℕ) (ts : List Token)
        → length ts < n
        → length ts < bound
        → IsWithin (length ts) (parse_fields go n ts)
    unfolding parse_fields
    parse_fields-IsWithin zero ts h b = absurd (omega arith)
    parse_fields-IsWithin (suc n) ts h b = elim (Bool-cases (at ident ts || at string_token ts)) [
      | inr other ↦ rw (other, parse_fields) tt
      | inl key ↦
          let less = key_consumed ts key in
          rw (key, parse_fields)
            (then_parse-IsWithin _ (expect colon (advance ts)) _
              (expect-IsWithin colon (advance ts) refl)
              λ _ behind less1.
                then_parse-IsWithin _ (go behind) _ (calls behind (omega arith)) λ v rest less2.
                  elim (Bool-cases (at comma rest)) [
                    | inr last ↦ rw last (omega arith)
                    | inl more ↦
                        let less3 = advance-lt comma rest refl more in
                        rw more (
                          then_parse-IsWithin _ (parse_fields go n (advance rest)) _
                            (parse_fields-IsWithin n (advance rest) (omega arith) (omega arith))
                            (λ fs rest' h'. omega arith))
                  ])
    ]
      where
        key_consumed :
            (ts : List Token)
            → (at ident ts || at string_token ts) ≡ true
            → length (advance ts) < length ts
        key_consumed [] h = cc
        key_consumed (t ∷ ts) h = omega arith

    pub parse_object_literal-IsWithin :
        (n : ℕ) (ts : List Token)
        → length ts < n
        → length ts < bound
        → IsWithin (length ts) (parse_object_literal go n ts)
    unfolding parse_object_literal
    parse_object_literal-IsWithin n ts h b = elim (Bool-cases (at r_brace ts)) [
      | inl none_given ↦ rw (none_given, parse_object_literal) (closing no_fields ts (omega arith))
      | inr given ↦
          rw (given, parse_object_literal)
            (then_parse-IsWithin _ (parse_fields go n ts) _ (parse_fields-IsWithin n ts h b)
              (λ fs rest shorter. closing fs rest (omega arith)))
    ]
      where
        closing :
            (fs : Fields F) (rest : List Token)
            → length rest ≤ length ts
            → IsWithin
                (length ts)
                (then_parse (expect r_brace rest) λ _ rest'. parsed (Syntax.object fs) rest')
        closing fs rest le =
            then_parse-IsWithin _ (expect r_brace rest) _ (expect-IsWithin r_brace rest refl)
              (λ _ rest' less. omega arith)
