-- ===== src/Expression/Parser/Termination.antt =====
-- The parser ends on every list of tokens.
use brockleyai.Prelude.{
  Str, codes, ℕ, ℤ, zero, suc, ◌<◌, ◌≡◌, ◌≢◌, refl, Bool, true, false, Option, none, some, List, [],
  ◌∷◌, length, arith, Bool-cases, Option-cases, inl, inr,
}
use brockleyai.Expression.Token.{
  TokenType, Token, string_token, int_token, float_token, bool_token, null_token, ident, dot,
  l_bracket, r_bracket, l_paren, r_paren, l_brace, colon, pipe, arrow, not_token, optional_chain,
  question, eof,
}
use brockleyai.Expression.Syntax.{Expr, Exprs, Fields, no_exprs, no_fields, Literal}
use brockleyai.Expression.Syntax
use brockleyai.Expression.Parser.{
  ParseResult, parsed, failed, unfinished, peek, advance, at, expect, Level, parse_args, number,
  parse_ident, parse_parens, parse_array_literal, parse_primary, parse_member, parse_suffix,
  postfix_loop, parse_postfix, parse_unary, binary_loop, binary_level, is_factor_op, is_sum_op,
  is_comparison_op, is_equality_op, is_and, is_or, is_coalesce, parse_null_coalesce, parse_ternary,
  parse_filter_args, pipe_loop, parse_pipe, parse_expression, parse_tokens, parse,
}
use brockleyai.Expression.Lexer.{LexResult, lex, lexed}
use brockleyai.Expression.Lexer.Spelling.{IsReading, lex_lem}
use brockleyai.Expression.Parser.Within.{
  IsWithin, then_parse-IsWithin, IsWithin-mono, advance-lt, expect-IsWithin, Consumes,
  parse_args-IsWithin, parse_object_literal-IsWithin,
}

number-IsWithin :
    {F : Type 0} {A : Type 0} (o : Option A) (make : A → Literal F) (n : ℕ) (rest : List Token)
    → length rest < n
    → IsWithin n (number o make rest)
number-IsWithin none make n rest h = tt
number-IsWithin (some v) make n rest h = h

module _ {F : Type 0} (parse_int : Str → Option ℤ) (parse_float : Str → Option F)
    (go : Level (Expr F)) (fuel : ℕ) (calls : Consumes go fuel) where
  parse_ident-IsWithin :
      (t : Token) (ts : List Token)
      → length ts < fuel
      → IsWithin (suc (length ts)) (parse_ident go (t ∷ ts))
  unfolding parse_ident
  parse_ident-IsWithin t ts h = elim (Bool-cases (at arrow ts)) [
    | inr plain ↦ rw (plain, parse_ident) (omega arith)
    | inl lambda ↦
        let less = advance-lt arrow ts refl lambda in
        rw (lambda, parse_ident)
          (then_parse-IsWithin _ (go (advance ts)) _ (calls (advance ts) (omega arith))
            λ body rest shorter. omega arith)
  ]

  parse_parens-IsWithin :
      (t : Token) (ts : List Token)
      → length ts < fuel
      → IsWithin (suc (length ts)) (parse_parens go (t ∷ ts))
  unfolding parse_parens
  parse_parens-IsWithin t ts h = then_parse-IsWithin _ (go ts) _ (calls ts h) λ e rest shorter.
      then_parse-IsWithin _ (expect r_paren rest) _ (expect-IsWithin r_paren rest refl)
        λ _ rest' less. omega arith

  parse_array_literal-IsWithin :
      (t : Token) (ts : List Token)
      → length ts < fuel
      → IsWithin (suc (length ts)) (parse_array_literal go (suc fuel) (t ∷ ts))
  unfolding parse_array_literal
  parse_array_literal-IsWithin t ts h =
      then_parse-IsWithin _ (parse_args r_bracket go (suc fuel) ts) _
        (parse_args-IsWithin go fuel calls r_bracket (suc fuel) ts refl (omega arith) h)
        λ es rest less. omega arith

  -- What stands at a token of each kind.
  primary-IsWithin :
      (k : TokenType) (v : Str) (p : ℕ) (ts : List Token)
      → length ts < fuel
      → IsWithin (suc (length ts)) (
          parse_primary parse_int parse_float go
            (suc fuel)
            (record { kind = k; value = v; pos = p } ∷ ts))
  unfolding parse_primary
  primary-IsWithin string_token v p ts h = omega arith
  primary-IsWithin int_token v p ts h = number-IsWithin (parse_int v) Syntax.int _ ts (omega arith)
  primary-IsWithin float_token v p ts h =
      number-IsWithin (parse_float v) Syntax.float _ ts (omega arith)
  primary-IsWithin bool_token v p ts h = omega arith
  primary-IsWithin null_token v p ts h = omega arith
  primary-IsWithin ident v p ts h =
      parse_ident-IsWithin (record { kind = ident; value = v; pos = p }) ts h
  primary-IsWithin l_paren v p ts h =
      parse_parens-IsWithin (record { kind = l_paren; value = v; pos = p }) ts h
  primary-IsWithin l_bracket v p ts h =
      parse_array_literal-IsWithin (record { kind = l_bracket; value = v; pos = p }) ts h
  primary-IsWithin l_brace v p ts h =
      IsWithin-mono _ (omega arith)
        (parse_object_literal-IsWithin go fuel calls (suc fuel) ts (omega arith) h)
  primary-IsWithin _ v p ts h = tt

  -- A primary consumes a token.
  parse_primary-IsWithin :
      (ts : List Token)
      → length ts < suc fuel
      → IsWithin (length ts) (parse_primary parse_int parse_float go (suc fuel) ts)
  unfolding parse_primary
  parse_primary-IsWithin [] h = tt
  parse_primary-IsWithin (t ∷ ts) h = primary-IsWithin t.kind t.value t.pos ts (omega arith)

  parse_member-IsWithin :
      (e : Expr F) (ts : List Token)
      → length ts < fuel
      → IsWithin (length ts) (parse_member parse_int parse_float go (suc fuel) e ts)
  unfolding parse_member
  parse_member-IsWithin e ts h =
      then_parse-IsWithin _ (expect ident ts) _ (expect-IsWithin ident ts refl) λ name rest less.
        elim (Bool-cases (at l_paren rest)) [
          | inr plain ↦ rw plain less
          | inl called ↦
              let less2 = advance-lt l_paren rest refl called in
              rw called (
                then_parse-IsWithin _ (parse_args r_paren go (suc fuel) (advance rest)) _
                  (parse_args-IsWithin go fuel calls r_paren (suc fuel) (advance rest) refl
                    (omega arith) (omega arith))
                  λ args rest' less3. omega arith)
        ]

  -- A suffix, where there is one, consumes a token.
  abbrev IsSuffix : ℕ → Option (ParseResult (Expr F)) → Type 0
  IsSuffix n none = Unit
  IsSuffix n (some r) = IsWithin n r

  suffix-IsSuffix :
      (k : TokenType) (v : Str) (p : ℕ) (e : Expr F) (ts : List Token)
      → length ts < fuel
      → IsSuffix (suc (length ts)) (
          parse_suffix parse_int parse_float go
            (suc fuel)
            e
            (record { kind = k; value = v; pos = p } ∷ ts))
  unfolding parse_suffix
  suffix-IsSuffix dot v p e ts h = IsWithin-mono _ (omega arith) (parse_member-IsWithin e ts h)
  suffix-IsSuffix optional_chain v p e ts h =
      then_parse-IsWithin _ (expect ident ts) _ (expect-IsWithin ident ts refl)
        λ name rest less. omega arith
  suffix-IsSuffix l_bracket v p e ts h = then_parse-IsWithin _ (go ts) _ (calls ts h) λ i rest less.
      then_parse-IsWithin _ (expect r_bracket rest) _ (expect-IsWithin r_bracket rest refl)
        λ _ rest' less2. omega arith
  suffix-IsSuffix l_paren v p e ts h =
      then_parse-IsWithin _ (parse_args r_paren go (suc fuel) ts) _
        (parse_args-IsWithin go fuel calls r_paren (suc fuel) ts refl (omega arith) h)
        λ args rest less. omega arith
  suffix-IsSuffix _ v p e ts h = tt

  parse_suffix-IsSuffix :
      (e : Expr F) (ts : List Token)
      → length ts < suc fuel
      → IsSuffix (length ts) (parse_suffix parse_int parse_float go (suc fuel) e ts)
  unfolding parse_suffix
  parse_suffix-IsSuffix e [] h = tt
  parse_suffix-IsSuffix e (t ∷ ts) h = suffix-IsSuffix t.kind t.value t.pos e ts (omega arith)

  postfix_loop-IsWithin :
      (m : ℕ) (e : Expr F) (ts : List Token)
      → length ts < m
      → length ts < suc fuel
      → IsWithin (suc (length ts)) (postfix_loop parse_int parse_float go (suc fuel) m e ts)
  unfolding postfix_loop
  postfix_loop-IsWithin zero e ts h b = absurd (omega arith)
  postfix_loop-IsWithin (suc m) e ts h b =
      let suffix = parse_suffix-IsSuffix e ts b in
      elim (Option-cases (parse_suffix parse_int parse_float go (suc fuel) e ts)) [
        | inl ends ↦ rw (ends, postfix_loop) (omega arith)
        | inr (r, found) ↦
            rw (found, postfix_loop)
              (then_parse-IsWithin _ r _ (rw found at suffix) λ e' rest less.
                IsWithin-mono _ (omega arith)
                  (postfix_loop-IsWithin m e' rest (omega arith) (omega arith)))
      ]

  -- A level of the grammar consumes a token of a list that the fuel covers.
  abbrev IsLevel : Level (Expr F) → Type 0
  IsLevel sub = (ts : List Token) → length ts < suc fuel → IsWithin (length ts) (sub ts)

  parse_postfix-IsLevel : IsLevel (parse_postfix parse_int parse_float go (suc fuel))
  unfolding parse_postfix
  parse_postfix-IsLevel ts h =
      then_parse-IsWithin _ (parse_primary parse_int parse_float go (suc fuel) ts) _
        (parse_primary-IsWithin ts h)
        λ e rest less.
          IsWithin-mono _ (omega arith)
            (postfix_loop-IsWithin (suc fuel) e rest (omega arith) (omega arith))

  parse_unary-IsWithin :
      (m : ℕ) (ts : List Token)
      → length ts < m
      → length ts < suc fuel
      → IsWithin (length ts) (parse_unary parse_int parse_float go (suc fuel) m ts)
  unfolding parse_unary
  parse_unary-IsWithin zero ts h b = absurd (omega arith)
  parse_unary-IsWithin (suc m) ts h b = elim (Bool-cases (at not_token ts)) [
    | inr plain ↦ rw (plain, parse_unary) (parse_postfix-IsLevel ts b)
    | inl negated ↦
        let less = advance-lt not_token ts refl negated in
        rw (negated, parse_unary)
          (then_parse-IsWithin _ (parse_unary parse_int parse_float go (suc fuel) m (advance ts)) _
            (parse_unary-IsWithin m (advance ts) (omega arith) (omega arith))
            λ e rest less2. omega arith)
  ]

  op_consumed :
      (is_op : TokenType → Bool) (ts : List Token)
      → is_op eof ≡ false
      → is_op (peek ts).kind ≡ true
      → length (advance ts) < length ts
  op_consumed is_op [] c h = absurd (ground arith)
  op_consumed is_op (t ∷ ts) c h = omega arith

  binary_loop-IsWithin :
      (is_op : TokenType → Bool) (make : Str → Expr F → Expr F → Expr F) (sub : Level (Expr F))
      → is_op eof ≡ false
      → IsLevel sub
      → (m : ℕ) (left : Expr F) (ts : List Token) → length ts < m
      → length ts < suc fuel
      → IsWithin (suc (length ts)) (binary_loop parse_int parse_float is_op make sub m left ts)
  unfolding binary_loop
  binary_loop-IsWithin is_op make sub c level zero left ts h b = absurd (omega arith)
  binary_loop-IsWithin is_op make sub c level (suc m) left ts h b =
      elim (Bool-cases (is_op (peek ts).kind)) [
        | inr ends ↦ rw (ends, binary_loop) (omega arith)
        | inl more ↦
            let less = op_consumed is_op ts c more in
            rw (more, binary_loop)
              (then_parse-IsWithin _ (sub (advance ts)) _ (level (advance ts) (omega arith))
                λ right rest less2. IsWithin-mono _ (omega arith) (
                  binary_loop-IsWithin is_op make sub c level m _ rest (omega arith) (omega arith)))
      ]

  binary_level-IsLevel :
      (is_op : TokenType → Bool) (make : Str → Expr F → Expr F → Expr F) (sub : Level (Expr F))
      → is_op eof ≡ false
      → IsLevel sub
      → IsLevel (binary_level parse_int parse_float is_op make sub (suc fuel))
  unfolding binary_level
  binary_level-IsLevel is_op make sub c level ts h =
      then_parse-IsWithin _ (sub ts) _ (level ts h) λ left rest less.
        IsWithin-mono _ (omega arith) (
          binary_loop-IsWithin is_op make sub c level (suc fuel) left rest (omega arith)
            (omega arith))

  -- All levels of binary operators, from products up to `??`.
  parse_null_coalesce-IsLevel : IsLevel (parse_null_coalesce parse_int parse_float go (suc fuel))
  unfolding parse_null_coalesce is_factor_op is_sum_op is_comparison_op is_equality_op is_and is_or
      is_coalesce
  parse_null_coalesce-IsLevel =
      let products =
        binary_level-IsLevel is_factor_op Syntax.binary _ refl
          (λ ts h. parse_unary-IsWithin (suc fuel) ts h h) in
      let sums = binary_level-IsLevel is_sum_op Syntax.binary _ refl products in
      let comparisons = binary_level-IsLevel is_comparison_op Syntax.binary _ refl sums in
      let equalities = binary_level-IsLevel is_equality_op Syntax.binary _ refl comparisons in
      let ands = binary_level-IsLevel is_and (λ _. Syntax.binary (codes "&&")) _ refl equalities in
      let ors = binary_level-IsLevel is_or (λ _. Syntax.binary (codes "||")) _ refl ands in
      binary_level-IsLevel is_coalesce (λ _. Syntax.null_coalesce) _ refl ors

  parse_ternary-IsLevel : IsLevel (parse_ternary parse_int parse_float go (suc fuel))
  unfolding parse_ternary
  parse_ternary-IsLevel ts h =
      then_parse-IsWithin _ (parse_null_coalesce parse_int parse_float go (suc fuel) ts) _
        (parse_null_coalesce-IsLevel ts h)
        λ e rest less. elim (Bool-cases (at question rest)) [
          | inr plain ↦ rw plain less
          | inl asks ↦
              let less1 = advance-lt question rest refl asks in
              rw asks (
                then_parse-IsWithin _ (go (advance rest)) _ (calls (advance rest) (omega arith))
                  λ yes behind less2.
                    then_parse-IsWithin _ (expect colon behind) _
                      (expect-IsWithin colon behind refl)
                      λ _ behind' less3.
                        then_parse-IsWithin _ (go behind') _ (calls behind' (omega arith))
                          λ other ended less4. omega arith)
        ]

  parse_filter_args-IsWithin :
      (ts : List Token)
      → length ts < fuel
      → IsWithin (suc (length ts)) (parse_filter_args parse_int parse_float go (suc fuel) ts)
  unfolding parse_filter_args
  parse_filter_args-IsWithin ts h = elim (Bool-cases (at l_paren ts)) [
    | inr plain ↦ rw (plain, parse_filter_args) (omega arith)
    | inl called ↦
        let less = advance-lt l_paren ts refl called in
        rw (called, parse_filter_args)
          (IsWithin-mono _ (omega arith) (
            parse_args-IsWithin go fuel calls r_paren (suc fuel) (advance ts) refl (omega arith)
              (omega arith)))
  ]

  pipe_loop-IsWithin :
      (m : ℕ) (e : Expr F) (ts : List Token)
      → length ts < m
      → length ts < suc fuel
      → IsWithin (suc (length ts)) (pipe_loop parse_int parse_float go (suc fuel) m e ts)
  unfolding pipe_loop
  pipe_loop-IsWithin zero e ts h b = absurd (omega arith)
  pipe_loop-IsWithin (suc m) e ts h b = elim (Bool-cases (at pipe ts)) [
    | inr ends ↦ rw (ends, pipe_loop) (omega arith)
    | inl more ↦
        let less = advance-lt pipe ts refl more in
        rw (more, pipe_loop)
          (then_parse-IsWithin _ (expect ident (advance ts)) _
            (expect-IsWithin ident (advance ts) refl)
            λ name rest less1.
              then_parse-IsWithin _ (parse_filter_args parse_int parse_float go (suc fuel) rest) _
                (parse_filter_args-IsWithin rest (omega arith))
                λ args rest' less2.
                  IsWithin-mono _ (omega arith)
                    (pipe_loop-IsWithin m _ rest' (omega arith) (omega arith)))
  ]

  parse_pipe-IsLevel : IsLevel (parse_pipe parse_int parse_float go (suc fuel))
  unfolding parse_pipe
  parse_pipe-IsLevel ts h =
      then_parse-IsWithin _ (parse_ternary parse_int parse_float go (suc fuel) ts) _
        (parse_ternary-IsLevel ts h)
        λ e rest less.
          IsWithin-mono _ (omega arith)
            (pipe_loop-IsWithin (suc fuel) e rest (omega arith) (omega arith))

parse_expression-IsWithin :
    {F : Type 0} (parse_int : Str → Option ℤ) (parse_float : Str → Option F) (fuel : ℕ)
    (ts : List Token)
    → length ts < fuel
    → IsWithin (length ts) (parse_expression parse_int parse_float fuel ts)
unfolding parse_expression
parse_expression-IsWithin parse_int parse_float zero ts h = absurd (omega arith)
parse_expression-IsWithin parse_int parse_float (suc fuel) ts h =
    parse_pipe-IsLevel parse_int parse_float (parse_expression parse_int parse_float fuel) fuel
      (parse_expression-IsWithin parse_int parse_float fuel) ts h

IsWithin-ne : {A : Type 0} (n : ℕ) (r : ParseResult A) → IsWithin n r → r ≢ unfinished
IsWithin-ne n (parsed a ts) h e = absurd (cc e)
IsWithin-ne n failed h e = absurd (cc e)
IsWithin-ne n unfinished h e = h

parse_tokens-IsWithin :
    {F : Type 0} (parse_int : Str → Option ℤ) (parse_float : Str → Option F) (ts : List Token)
    → IsWithin (length ts) (parse_tokens parse_int parse_float ts)
unfolding parse_tokens
parse_tokens-IsWithin parse_int parse_float ts =
    then_parse-IsWithin _ (parse_expression parse_int parse_float (suc (length ts)) ts) _
      (parse_expression-IsWithin parse_int parse_float (suc (length ts)) ts (omega arith))
      λ e rest less. elim (Bool-cases (at eof rest)) [
        | inl ended ↦ rw ended less
        | inr other ↦ rw other tt
      ]

-- Parse ends on every input: one unit of fuel more than there are tokens is enough, so that its result is
-- an expression or an error of the source.
pub parse-ne-unfinished :
    {F : Type 0} (parse_int : Str → Option ℤ) (parse_float : Str → Option F) (input : Str)
    → parse parse_int parse_float input ≢ unfinished
unfolding parse
parse-ne-unfinished parse_int parse_float input = from_lexer (lex input) (lex_lem input)
  where
    from_lexer :
        (r : LexResult)
        → IsReading input r
        → elim r [
          | lexed ts ↦ parse_tokens parse_int parse_float ts
          | LexResult.unfinished ↦ unfinished
          | _ ↦ failed
        ]
          ≢ unfinished
    from_lexer (lexed ts) h e = IsWithin-ne _ _ (parse_tokens-IsWithin parse_int parse_float ts) e
    from_lexer (LexResult.unfinished) h e = elim h [ ]
    from_lexer (LexResult.unexpected _) h e = absurd (cc e)
    from_lexer (LexResult.unterminated _) h e = absurd (cc e)
