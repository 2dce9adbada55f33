-- ===== src/Expression/Token.antt =====
-- engine/expression/token.go
use brockleyai.Prelude.{Str, ℕ}

-- TokenType, in the order of its constants.
pub data TokenType : Type 0 where
  string_token : TokenType
  int_token : TokenType
  float_token : TokenType
  bool_token : TokenType
  null_token : TokenType
  ident : TokenType
  dot : TokenType
  l_bracket : TokenType
  r_bracket : TokenType
  l_paren : TokenType
  r_paren : TokenType
  l_brace : TokenType
  r_brace : TokenType
  comma : TokenType
  colon : TokenType
  pipe : TokenType
  arrow : TokenType
  equals : TokenType
  not_equals : TokenType
  greater : TokenType
  greater_equals : TokenType
  less : TokenType
  less_equals : TokenType
  and_token : TokenType
  or_token : TokenType
  not_token : TokenType
  plus : TokenType
  minus : TokenType
  star : TokenType
  slash : TokenType
  percent : TokenType
  null_coalesce : TokenType
  optional_chain : TokenType
  question : TokenType
  eof : TokenType

pub record Token : Type 0 where
  pub kind : TokenType
  pub value : Str
  pub pos : ℕ

-- The number that `iota` gives to a constant.
unfoldable pub code_of : TokenType → ℕ
code_of string_token = 0
code_of int_token = 1
code_of float_token = 2
code_of bool_token = 3
code_of null_token = 4
code_of ident = 5
code_of dot = 6
code_of l_bracket = 7
code_of r_bracket = 8
code_of l_paren = 9
code_of r_paren = 10
code_of l_brace = 11
code_of r_brace = 12
code_of comma = 13
code_of colon = 14
code_of pipe = 15
code_of arrow = 16
code_of equals = 17
code_of not_equals = 18
code_of greater = 19
code_of greater_equals = 20
code_of less = 21
code_of less_equals = 22
code_of and_token = 23
code_of or_token = 24
code_of not_token = 25
code_of plus = 26
code_of minus = 27
code_of star = 28
code_of slash = 29
code_of percent = 30
code_of null_coalesce = 31
code_of optional_chain = 32
code_of question = 33
code_of eof = 34
