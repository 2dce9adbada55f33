-- ===== src/Expression/Lexer/Spelling.antt =====
-- The lexer against its input: it ends, and its tokens spell the input.
use brockleyai.Prelude.{
  Str, ℕ, zero, suc, ◌<◌, ◌≡◌, ◌≢◌, refl, ap, List, [], ◌∷◌, ◌++◌, append_assoc, append-nil, length,
  length-append, ◌⊎◌, inl, inr, arith, All,
}
use brockleyai.Expression.Token.{Token, string_token}
use brockleyai.Expression.Lexer.{
  Lexer, LexResult, lexed, unexpected, unterminated, unfinished, in_order, lex_loop, lex_step, lex,
}
use brockleyai.Expression.Lexer.Steps.{IsError, IsTurn, Step, lex_step-IsTurn}

-- The token stands in the input at its position, byte for byte; the value of a string literal, where
-- escapes are resolved, is free.
abbrev pub IsSpelled : Str → Token → Type 0
IsSpelled input t =
    t.kind ≢ string_token
    → (before : Str) × (after : Str) × (input ≡ before ++ t.value ++ after)
      × (length before ≡ t.pos)

-- The state of the loop: a prefix of the input is passed, and its tokens spelled.
record Covers (input : Str) (l : Lexer) : Type 0 where
  before : Str
  splits : input ≡ before ++ l.rest
  at_pos : length before ≡ l.pos
  spelled : All (IsSpelled input) l.tokens

-- All tokens are spelled, and there is one: the loop finished without an error, or with one of the source.
abbrev pub IsReading : Str → LexResult → Type 0
IsReading input (lexed ts) = All (IsSpelled input) ts
IsReading input unfinished = ⊥
IsReading input _ = Unit

Covers-Step : (input : Str) (l l' : Lexer) → Covers input l → Step l l' → Covers input l'
Covers-Step input l l' c s = record {
  before = c.before ++ s.word;
  splits = grind (arith, c.splits, s.splits, append_assoc);
  at_pos = omega (arith, length-append c.before s.word, c.at_pos, s.moves);
  spelled = elim s.adds [
    | inl none_made ↦ rw none_made c.spelled
    | inr (t, made, is) ↦ rw made (
      λ other. (
        c.before,
        l'.rest,
        grind (arith, c.splits, s.splits, is other, append_assoc),
        omega (arith, c.at_pos, is other),
      ),
      c.spelled,
    )
  ];
}

in_order-All :
    (P : Token → Type 0) (ts later : List Token)
    → All P ts
    → All P later
    → All P (in_order ts later)
unfolding in_order
in_order-All P [] later h k = k
in_order-All P (t ∷ ts) later h k = in_order-All P ts (t ∷ later) h.1 (h.0, k)

IsError-IsReading : (input : Str) (r : LexResult) → IsError r → IsReading input r
IsError-IsReading input (lexed ts) h = elim h [ ]
IsError-IsReading input (unexpected p) h = tt
IsError-IsReading input (unterminated p) h = tt
IsError-IsReading input unfinished h = h

module _ (input : Str) (fuel : ℕ) (l : Lexer) (h : length l.rest < suc fuel)
    (c : Covers input l) where
  -- The loop with the fuel that is left.
  abbrev Goes : Type 0
  Goes = (l' : Lexer) → length l'.rest < fuel → Covers input l' → IsReading input (lex_loop fuel l')

  turn-IsReading :
      Goes
      → (r : LexResult ⊎ Lexer) → IsTurn l r
      → IsReading input (elim r [ inl failed ↦ failed | inr l' ↦ lex_loop fuel l' ])
  turn-IsReading go (inl failed) turn = IsError-IsReading input failed turn
  turn-IsReading go (inr l') turn =
      go l' (omega (arith, h, turn.takes, ap length turn.splits, length-append turn.word l'.rest))
        (Covers-Step input l l' c turn)

  loop-IsReading : Goes → (s : Str) → l.rest ≡ s → IsReading input (lex_loop (suc fuel) l)
  unfolding lex_loop
  loop-IsReading go [] e =
      rw (e, lex_loop)
        (in_order-All (IsSpelled input) l.tokens _ c.spelled
          ((λ other. (c.before, [], grind (arith, c.splits, e, append-nil), c.at_pos)), tt))
  loop-IsReading go (x ∷ s) e =
      rw (e, lex_loop) (turn-IsReading go (lex_step x s l) (lex_step-IsTurn x s l e))

lex_loop-IsReading :
    (input : Str) (fuel : ℕ) (l : Lexer)
    → length l.rest < fuel
    → Covers input l
    → IsReading input (lex_loop fuel l)
lex_loop-IsReading input zero l h c = absurd (omega arith)
lex_loop-IsReading input (suc fuel) l h c =
    loop-IsReading input fuel l h c (lex_loop-IsReading input fuel) l.rest refl

-- Lexing ends on every input, and each token of the result but the string literals stands in the input
-- at its position, byte for byte.
pub lex_lem : (input : Str) → IsReading input (lex input)
unfolding lex
lex_lem input =
    lex_loop-IsReading input (suc (length input)) (record { rest = input; pos = 0; tokens = [] })
      (omega arith) (record { before = []; splits = refl; at_pos = refl; spelled = tt })
