-- ===== src/Value.antt =====
-- The values that flow through a graph: Go's `any` as JSON decoding and the executors fill it. `F` stands
-- for float64. An expression can also give a lambda.
use brockleyai.Prelude.{Str, ℤ, ℕ, suc, Bool, true, false, Option}
use brockleyai.Expression.Syntax.{Expr}

mutual
  pub data Value (F : Type 0) : Type 0 where
    nil : Value F
    bool : Bool → Value F
    int : ℤ → Value F
    int64 : ℤ → Value F
    float : F → Value F
    str : Str → Value F
    arr : Items F → Value F
    obj : Entries F → Value F
    lambda : Str → Expr F → Value F

  pub data Items (F : Type 0) : Type 0 where
    no_items : Items F
    item : Value F → Items F → Items F

  pub data Entries (F : Type 0) : Type 0 where
    no_entries : Entries F
    entry : Str → Value F → Entries F → Entries F

-- `map[string]any` as a table: `none` is a missing key.
abbrev pub Table : Type 0 → Type 0
Table F = Str → Option (Value F)

abbrev pub is_nil : {F : Type 0} → Value F → Bool
is_nil nil = true
is_nil _ = false

-- `append(arr, v)`
unfoldable pub append_item : {F : Type 0} → Items F → Value F → Items F
append_item no_items v = item v no_items
append_item (item w ws) v = item w (append_item ws v)

abbrev pub items_length : {F : Type 0} → Items F → ℕ
items_length no_items = 0
items_length (item w ws) = suc (items_length ws)
