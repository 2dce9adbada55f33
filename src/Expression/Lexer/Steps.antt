-- ===== src/Expression/Lexer/Steps.antt =====
-- What one turn of the lexer's loop takes from the input, and the token that it makes of it.
use brockleyai.Prelude.{
  Str, ℕ, suc, ◌+◌, ◌<◌, ◌≡◌, ◌≢◌, refl, sym, ap, ◌∙◌, Bool, true, ◌&&◌, ◌||◌, ◌==◌, Option, some,
  List, [], ◌∷◌, ◌++◌, append_assoc, length, length-append, ◌⊎◌, inl, inr, arith, Bool-cases,
  Option-cases,
}
use brockleyai.Expression.Token.{TokenType, Token, string_token, int_token, float_token}
use brockleyai.Expression.Lexer.{
  Lexer, LexResult, unexpected, unterminated, is_space, is_digit, is_ident_start, is_ident_part,
  emit, span, unescape, lex_string, starts_digit, fraction, lex_number, keyword, lex_ident,
  two_operator, one_operator, is_negative_number_context, lex_one, lex_operator, lex_step,
}

-- The token at the bytes `word` of position `pos`; the value of a string literal is not these bytes.
abbrev pub IsToken : Str → ℕ → Token → Type 0
IsToken word pos t = t.kind ≢ string_token → (t.value ≡ word) × (t.pos ≡ pos)

-- From `l` to `l'` at least one byte is taken, and at most one token made of the bytes taken.
pub record Step (l l' : Lexer) : Type 0 where
  pub word : Str
  pub splits : l.rest ≡ word ++ l'.rest
  pub moves : l'.pos ≡ l.pos + length word
  pub takes : 0 < length word
  pub adds :
      (l'.tokens ≡ l.tokens) ⊎ ((t : Token) × (l'.tokens ≡ t ∷ l.tokens) × IsToken word l.pos t)

abbrev pub IsError : LexResult → Type 0
IsError (unexpected _) = Unit
IsError (unterminated _) = Unit
IsError _ = ⊥

-- A turn goes on with such a step, or fails with an error of the source.
abbrev pub IsTurn : Lexer → LexResult ⊎ Lexer → Type 0
IsTurn l (inl failed) = IsError failed
IsTurn l (inr l') = Step l l'

emit-Step :
    (kind : TokenType) (word rest : Str) (l : Lexer)
    → l.rest ≡ word ++ rest
    → 0 < length word
    → Step l (emit kind word rest l)
emit-Step kind word rest l h p = record {
  word = word;
  splits = h;
  moves = refl;
  takes = p;
  adds = inr (_, refl, λ _. (refl, refl));
}

span-splits : (p : ℕ → Bool) (s : Str) → s ≡ (span p s).0 ++ (span p s).1
unfolding span
span-splits p [] = refl
span-splits p (c ∷ s) = elim (Bool-cases (p c)) [
  | inl passes ↦ rw (passes, span) (ap (λ t. c ∷ t) (span-splits p s))
  | inr fails ↦ rw (fails, span)
]

span-takes : (p : ℕ → Bool) (c : ℕ) (s : Str) → p c ≡ true → 0 < length (span p (c ∷ s)).0
unfolding span
span-takes p c s h = rw (h, span) (omega arith)

some-pair :
    {a b a' b' : Str}
    → ◌≡◌ {A = Option (Str × Str)} (some (a, b)) (some (a', b'))
    → (a ≡ a') × (b ≡ b')
some-pair h = (cc h, cc h)

fraction-splits : (s digits rest : Str) → fraction s ≡ some (digits, rest) → s ≡ digits ++ rest
unfolding fraction
fraction-splits [] digits rest h = cc
fraction-splits (c ∷ s) digits rest h = elim (Bool-cases (c == b'.' && starts_digit s)) [
  | inl point ↦
      let (first, later) = some-pair (rw (point, fraction) at h) in
      rw (sym first, sym later) (ap (λ t. c ∷ t) (span-splits is_digit s))
  | inr other ↦ absurd (cc (rw (other, fraction) at h))
]

digits-take : (s : Str) → starts_digit s ≡ true → 0 < length (span is_digit s).0
digits-take [] h = cc
digits-take (c ∷ s) h = span-takes is_digit c s h

lex_number-Step :
    (sign s : Str) (l : Lexer)
    → l.rest ≡ sign ++ s
    → starts_digit s ≡ true
    → Step l (lex_number sign s l)
unfolding lex_number
lex_number-Step sign s l h d = elim (Option-cases (fraction (span is_digit s).1)) [
  | inl whole ↦
      rw (whole, lex_number)
        (emit-Step int_token (sign ++ (span is_digit s).0) (span is_digit s).1 l
          (grind (arith, h, span-splits is_digit s, append_assoc))
          (omega (arith, length-append sign (span is_digit s).0, digits-take s d)))
  | inr ((digits, rest), part) ↦
      rw (part, lex_number)
        (emit-Step float_token (sign ++ (span is_digit s).0 ++ digits) rest l
          (grind (
            arith,
            h,
            span-splits is_digit s,
            fraction-splits (span is_digit s).1 digits rest part,
            append_assoc,
          ))
          (omega (
            arith,
            length-append (sign ++ (span is_digit s).0) digits,
            length-append sign (span is_digit s).0,
            digits-take s d,
          )))
]

lex_ident-Step :
    (c : ℕ) (s : Str) (l : Lexer) → l.rest ≡ c ∷ s → is_ident_start c ≡ true → Step l (lex_ident l)
unfolding lex_ident
lex_ident-Step c s l h d =
    emit-Step (keyword (span is_ident_part l.rest).0) (span is_ident_part l.rest).0
      (span is_ident_part l.rest).1 l (span-splits is_ident_part l.rest)
      (rw h (span-takes is_ident_part c s (rw (d, is_ident_part))))

is_some : {x y : Lexer} → some x ≡ some y → x ≡ y
is_some h = cc h

-- A string literal ends at its closing quote.
closed :
    (start pos : ℕ) (sb : Str) (tokens : List Token) (l : Lexer) (c : ℕ) (s : Str)
    → some (record {
      rest = s;
      pos = suc pos;
      tokens = record { kind = string_token; value = sb; pos = start } ∷ tokens;
    })
      ≡ some l
    → (word : Str) × (c ∷ s ≡ word ++ l.rest)
      × (l.pos ≡ pos + length word)
      × ((t : Token) × (l.tokens ≡ t ∷ tokens) × (t.kind ≡ string_token))
closed start pos sb tokens l c s same =
    rw (sym (is_some same)) (c ∷ [], refl, omega arith, (_, refl, refl))

-- The bytes that a string literal takes, the closing quote included.
lex_string-splits :
    (quote start : ℕ) (s sb : Str) (pos : ℕ) (tokens : List Token) (l : Lexer)
    → lex_string quote start s sb pos tokens ≡ some l
    → (word : Str) × (s ≡ word ++ l.rest)
      × (l.pos ≡ pos + length word)
      × ((t : Token) × (l.tokens ≡ t ∷ tokens) × (t.kind ≡ string_token))
unfolding lex_string
lex_string-splits quote start [] sb pos tokens l h = cc
lex_string-splits quote start (c ∷ []) sb pos tokens l h = elim (Bool-cases (c == quote)) [
  | inl closes ↦ closed start pos sb tokens l c [] (rw (closes, lex_string) at h)
  | inr other ↦ absurd (cc (rw (other, lex_string) at h))
]
lex_string-splits quote start (c ∷ d ∷ s) sb pos tokens l h = elim (Bool-cases (c == 92)) [
  | inl escape ↦
      let (word, splits, moves, makes) =
        lex_string-splits quote start s (sb ++ unescape d) (suc (suc pos)) tokens l
          (rw (escape, lex_string) at h) in
      (c ∷ d ∷ word, ap (λ t. c ∷ d ∷ t) splits, omega arith, makes)
  | inr plain ↦ elim (Bool-cases (c == quote)) [
    | inl closes ↦ closed start pos sb tokens l c (d ∷ s) (rw (plain, closes, lex_string) at h)
    | inr other ↦
        let (word, splits, moves, makes) =
          lex_string-splits quote start (d ∷ s) (sb ++ c ∷ []) (suc pos) tokens l
            (rw (plain, other, lex_string) at h) in
        (c ∷ word, ap (λ t. c ∷ t) splits, omega arith, makes)
  ]
]

lex_one-IsTurn : (c : ℕ) (s : Str) (l : Lexer) → l.rest ≡ c ∷ s → IsTurn l (lex_one c s l)
unfolding lex_one
lex_one-IsTurn c s l h =
    elim (Bool-cases (c == b'-' && starts_digit s && is_negative_number_context l.tokens)) [
      | inl signed ↦ rw (signed, lex_one) (lex_number-Step (c ∷ []) s l h (ground arith))
      | inr other ↦ elim (Option-cases (one_operator c)) [
        | inl unknown ↦ rw (other, unknown, lex_one) tt
        | inr (kind, found) ↦
            rw (other, found, lex_one) (emit-Step kind (c ∷ []) s l h (omega arith))
      ]
    ]

lex_operator-IsTurn : (c : ℕ) (s : Str) (l : Lexer) → l.rest ≡ c ∷ s → IsTurn l (lex_operator c s l)
unfolding lex_operator
lex_operator-IsTurn c [] l h = lex_one-IsTurn c [] l h
lex_operator-IsTurn c (d ∷ s) l h = elim (Option-cases (two_operator c d)) [
  | inl single ↦ rw (single, lex_operator) (lex_one-IsTurn c (d ∷ s) l h)
  | inr (kind, found) ↦ rw (found, lex_operator) (emit-Step kind (c ∷ d ∷ []) s l h (omega arith))
]

string-Step :
    (c : ℕ) (s : Str) (l l' : Lexer)
    → l.rest ≡ c ∷ s
    → lex_string c l.pos s [] (suc l.pos) l.tokens ≡ some l'
    → Step l l'
string-Step c s l l' h ran =
    let (word, splits, moves, (t, made, kind)) =
      lex_string-splits c l.pos s [] (suc l.pos) l.tokens l' ran in
    record {
      word = c ∷ word;
      splits = h ∙ ap (λ x. c ∷ x) splits;
      moves = omega arith;
      takes = omega arith;
      adds = inr (t, made, λ other. absurd (other kind));
    }

pub lex_step-IsTurn : (c : ℕ) (s : Str) (l : Lexer) → l.rest ≡ c ∷ s → IsTurn l (lex_step c s l)
unfolding lex_step
lex_step-IsTurn c s l h = elim (Bool-cases (is_space c)) [
  | inl space ↦
      rw (space, lex_step)
        (record {
          word = c ∷ [];
          splits = h;
          moves = omega arith;
          takes = omega arith;
          adds = inl refl;
        })
  | inr visible ↦ elim (Bool-cases (c == 34 || c == 39)) [
    | inl quotes ↦ elim (Option-cases (lex_string c l.pos s [] (suc l.pos) l.tokens)) [
      | inl unclosed ↦ rw (visible, quotes, unclosed, lex_step) tt
      | inr (l', ran) ↦ rw (visible, quotes, ran, lex_step) (string-Step c s l l' h ran)
    ]
    | inr unquoted ↦ elim (Bool-cases (is_digit c)) [
      | inl digit ↦ rw (visible, unquoted, digit, lex_step) (lex_number-Step [] (c ∷ s) l h digit)
      | inr other ↦ elim (Bool-cases (is_ident_start c)) [
        | inl letter ↦
            rw (visible, unquoted, other, letter, lex_step) (lex_ident-Step c s l h letter)
        | inr symbol ↦ rw (visible, unquoted, other, symbol, lex_step) (lex_operator-IsTurn c s l h)
      ]
    ]
  ]
]
