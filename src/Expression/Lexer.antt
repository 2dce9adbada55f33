-- ===== src/Expression/Lexer.antt =====
-- engine/expression/lexer.go. The source keeps the input and a position in it; here the bytes from that
-- position on stand beside it. The newest token stands first, until the end.
pub mod Steps
pub mod Spelling
use brockleyai.Prelude.{
  Str, str_eq, codes, ℕ, zero, suc, ◌+◌, Bool, true, false, not, ◌&&◌, ◌||◌, ◌==◌, leb, Option,
  none, some, List, [], ◌∷◌, ◌++◌, if◌then◌else◌, length, ◌⊎◌, inl, inr,
}
use brockleyai.Expression.Token.{
  TokenType, Token, string_token, int_token, float_token, bool_token, null_token, ident, dot,
  l_bracket, r_bracket, l_paren, r_paren, l_brace, r_brace, comma, colon, pipe, arrow, equals,
  not_equals, greater, greater_equals, less, less_equals, and_token, or_token, not_token, plus,
  minus, star, slash, percent, null_coalesce, optional_chain, question, eof,
}

pub record Lexer : Type 0 where
  pub rest : Str
  pub pos : ℕ
  pub tokens : List Token

pub data LexResult : Type 0 where
  lexed : List Token → LexResult
  unexpected : ℕ → LexResult
  unterminated : ℕ → LexResult
  unfinished : LexResult

-- `unicode.IsSpace` of a single byte.
unfoldable pub is_space : ℕ → Bool
is_space c = (leb 9 c && leb c 13) || c == 32 || c == 133 || c == 160

unfoldable pub is_digit : ℕ → Bool
is_digit c = leb (b'0') c && leb c (b'9')

unfoldable pub is_ident_start : ℕ → Bool
is_ident_start c =
    c == b'_' || c == b'@' || (leb (b'a') c && leb c (b'z')) || (leb (b'A') c && leb c (b'Z'))

unfoldable pub is_ident_part : ℕ → Bool
unfolding is_ident_start is_digit
is_ident_part c = is_ident_start c || is_digit c

-- `l.tokens = append(l.tokens, ...)` for the bytes `word` that were just passed.
abbrev pub emit : TokenType → Str → Str → Lexer → Lexer
emit kind word rest l = record {
  rest = rest;
  pos = l.pos + length word;
  tokens = record { kind = kind; value = word; pos = l.pos } ∷ l.tokens;
}

-- The longest prefix whose bytes pass a test, and what follows it.
unfoldable pub span : (ℕ → Bool) → Str → Str × Str
span p [] = ([], [])
span p (c ∷ s) = elim (p c) [
  | true ↦ (let (word, rest) = span p s in (c ∷ word, rest))
  | false ↦ ([], c ∷ s)
]

-- What an escape writes; an unknown one stands for itself.
unfoldable pub unescape : ℕ → Str
unescape c =
    if c == b'n'
    then 10 ∷ []
    else if c == b't'
    then 9 ∷ []
    else if c == 92 || c == 34 || c == 39
    then c ∷ []
    else 92 ∷ c ∷ []

-- lexString behind the opening quote, which stands at `start`: `sb` is the text so far, `pos` the
-- position of the bytes that follow.
unfoldable pub lex_string : ℕ → ℕ → Str → Str → ℕ → List Token → Option Lexer
unfolding unescape
lex_string quote start [] sb pos tokens = none
lex_string quote start (c ∷ []) sb pos tokens = elim (c == quote) [
  | true ↦ some (record {
    rest = [];
    pos = suc pos;
    tokens = record { kind = string_token; value = sb; pos = start } ∷ tokens;
  })
  | false ↦ none
]
lex_string quote start (c ∷ d ∷ s) sb pos tokens = elim (c == 92) [
  | true ↦ lex_string quote start s (sb ++ unescape d) (suc (suc pos)) tokens
  | false ↦ elim (c == quote) [
    | true ↦ some (record {
      rest = d ∷ s;
      pos = suc pos;
      tokens = record { kind = string_token; value = sb; pos = start } ∷ tokens;
    })
    | false ↦ lex_string quote start (d ∷ s) (sb ++ c ∷ []) (suc pos) tokens
  ]
]

abbrev pub starts_digit : Str → Bool
starts_digit [] = false
starts_digit (c ∷ s) = is_digit c

-- The digits behind a point, where a point and a digit follow.
unfoldable pub fraction : Str → Option (Str × Str)
unfolding is_digit span
fraction [] = none
fraction (c ∷ s) =
    if c == b'.' && starts_digit s
    then (let (digits, rest) = span is_digit s in some (c ∷ digits, rest))
    else none

-- lexNumber behind an optional sign: the word that starts with `sign`.
unfoldable pub lex_number : Str → Str → Lexer → Lexer
unfolding fraction
lex_number sign s l =
    let (whole, rest) = span is_digit s in
    elim (fraction rest) [
      | none ↦ emit int_token (sign ++ whole) rest l
      | some (digits, rest') ↦ emit float_token (sign ++ whole ++ digits) rest' l
    ]

unfoldable pub keyword : Str → TokenType
keyword word =
    if str_eq word (codes "true") || str_eq word (codes "false")
    then bool_token
    else if str_eq word (codes "null")
    then null_token
    else ident

unfoldable pub lex_ident : Lexer → Lexer
unfolding span is_ident_part keyword
lex_ident l = let (word, rest) = span is_ident_part l.rest in emit (keyword word) word rest l

unfoldable pub two_operator : ℕ → ℕ → Option TokenType
two_operator c d =
    if c == b'=' && d == b'='
    then some equals
    else if c == b'!' && d == b'='
    then some not_equals
    else if c == b'>' && d == b'='
    then some greater_equals
    else if c == b'<' && d == b'='
    then some less_equals
    else if c == b'&' && d == b'&'
    then some and_token
    else if c == b'|' && d == b'|'
    then some or_token
    else if c == b'?' && d == b'?'
    then some null_coalesce
    else if c == b'?' && d == b'.'
    then some optional_chain
    else if c == b'=' && d == b'>'
    then some arrow
    else none

unfoldable pub one_operator : ℕ → Option TokenType
one_operator c =
    if c == b'.'
    then some dot
    else if c == b'['
    then some l_bracket
    else if c == b']'
    then some r_bracket
    else if c == b'('
    then some l_paren
    else if c == b')'
    then some r_paren
    else if c == b'{'
    then some l_brace
    else if c == b'}'
    then some r_brace
    else if c == b','
    then some comma
    else if c == b':'
    then some colon
    else if c == b'|'
    then some pipe
    else if c == b'>'
    then some greater
    else if c == b'<'
    then some less
    else if c == b'!'
    then some not_token
    else if c == b'+'
    then some plus
    else if c == b'-'
    then some minus
    else if c == b'*'
    then some star
    else if c == b'/'
    then some slash
    else if c == b'%'
    then some percent
    else if c == b'?'
    then some question
    else none

-- isNegativeNumberContext: a sign here belongs to the number that follows.
unfoldable pub is_operand_next : TokenType → Bool
is_operand_next string_token = false
is_operand_next int_token = false
is_operand_next float_token = false
is_operand_next bool_token = false
is_operand_next null_token = false
is_operand_next ident = false
is_operand_next dot = false
is_operand_next r_bracket = false
is_operand_next r_paren = false
is_operand_next l_brace = false
is_operand_next r_brace = false
is_operand_next optional_chain = false
is_operand_next eof = false
is_operand_next _ = true

unfoldable pub is_negative_number_context : List Token → Bool
unfolding is_operand_next
is_negative_number_context [] = true
is_negative_number_context (last ∷ _) = is_operand_next last.kind

-- The switch on a single byte `c`, with `s` behind it.
unfoldable pub lex_one : ℕ → Str → Lexer → LexResult ⊎ Lexer
unfolding lex_number one_operator is_negative_number_context
lex_one c s l =
    if c == b'-' && starts_digit s && is_negative_number_context l.tokens
    then inr (lex_number (c ∷ []) s l)
    else elim (one_operator c) [
      | none ↦ inl (unexpected l.pos)
      | some kind ↦ inr (emit kind (c ∷ []) s l)
    ]

unfoldable pub lex_operator : ℕ → Str → Lexer → LexResult ⊎ Lexer
unfolding lex_one two_operator
lex_operator c [] l = lex_one c [] l
lex_operator c (d ∷ s) l = elim (two_operator c d) [
  | none ↦ lex_one c (d ∷ s) l
  | some kind ↦ inr (emit kind (c ∷ d ∷ []) s l)
]

-- One turn of the loop of lex, at the byte `c` with `s` behind it.
unfoldable pub lex_step : ℕ → Str → Lexer → LexResult ⊎ Lexer
unfolding lex_operator lex_ident lex_string is_space
lex_step c s l =
    if is_space c
    then inr (record { rest = s; pos = suc l.pos; tokens = l.tokens })
    else if c == 34 || c == 39
    then elim (lex_string c l.pos s [] (suc l.pos) l.tokens) [
      | none ↦ inl (unterminated l.pos)
      | some l' ↦ inr l'
    ]
    else if is_digit c
    then inr (lex_number [] (c ∷ s) l)
    else if is_ident_start c
    then inr (lex_ident l)
    else lex_operator c s l

-- The tokens in the order of the input.
unfoldable pub in_order : List Token → List Token → List Token
in_order [] later = later
in_order (t ∷ ts) later = in_order ts (t ∷ later)

unfoldable pub lex_loop : ℕ → Lexer → LexResult
unfolding lex_step in_order
lex_loop zero l = unfinished
lex_loop (suc fuel) l = elim l.rest [
  | [] ↦ lexed (in_order l.tokens (record { kind = eof; value = []; pos = l.pos } ∷ []))
  | c ∷ s ↦ elim (lex_step c s l) [ inl failed ↦ failed | inr l' ↦ lex_loop fuel l' ]
]

-- Lex; each turn of the loop takes at least one byte.
unfoldable pub lex : Str → LexResult
unfolding lex_loop
lex input = lex_loop (suc (length input)) (record { rest = input; pos = 0; tokens = [] })
