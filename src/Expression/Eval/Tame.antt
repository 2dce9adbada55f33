-- ===== src/Expression/Eval/Tame.antt =====
-- An expression whose lambdas stand only as arguments of map and filter is evaluated in as many units of fuel as
-- its lambdas nest, and one more.
use brockleyai.Prelude.{
  ℤ, pos, negsuc, Str, codes, str_eq, ℕ, zero, suc, ◌≡◌, inl, inr, refl, Bool, true, false, ◌||◌,
  Option, none, some, Bool-cases, Option-cases, arith,
}
use brockleyai.Value.{is_nil, Value, Items, Entries, nil, arr, str, no_items, item, no_entries}
use brockleyai.Expression.Syntax.{
  Literal, Expr, Exprs, Fields, no_exprs, expr, no_fields, field, literal, ident, dot,
  optional_chain, index, binary, unary, ternary, null_coalesce, call, piped, lambda, array, object,
}
use brockleyai.Expression.Values.{Library, is_truthy, put_key, field_access, to_int}
use brockleyai.Expression.Outcome.{
  Context, Outcome, evaluated, failed, panicked, unfinished, ◌>>=◌, Evaluator, marshal_error,
  unknown_filter,
}
use brockleyai.Expression.Eval.{
  literal_value, any_map, eval_ident, bind_var, map_items, filter_map, select_items, filter_filter,
  filter_json, filter_truncate, truncate_to, pure_filter, run_filter, called_filter, eval_step,
  eval_args, eval_fields, eval_expr,
}
use brockleyai.Expression.Eval.Plain.{
  IsPlain, ArePlain, EntriesPlain, if-Plain, if-IsPlain, if-ArePlain, PlainIfSome, all_of-ArePlain,
  field_access-IsPlain, put_key-EntriesPlain,
}
use brockleyai.Expression.Eval.Results.{
  Ends, if-Ends, SortsPlain, index_value-IsPlain, binary_op-Ends, pure_filter-Plain,
}

-- `map` and `filter`, the filters that apply a lambda.
unfoldable pub applies : Str → Bool
applies name = str_eq name (codes "map") || str_eq name (codes "filter")

-- With the flag set the expression may be a lambda itself. Inside it a lambda may stand as an argument of `map`
-- or `filter`, and nowhere else. The number bounds how lambdas nest.
abbrev mutual
  pub IsTame : {F : Type 0} → ℕ → Bool → Expr F → Type 0
  IsTame n b (literal l) = Unit
  IsTame n b (ident name) = Unit
  IsTame n b (dot e key) = IsTame n false e
  IsTame n b (optional_chain e key) = IsTame n false e
  IsTame n b (index e i) = IsTame n false e × IsTame n false i
  IsTame n b (binary op left right) = IsTame n false left × IsTame n false right
  IsTame n b (unary op e) = IsTame n false e
  IsTame n b (ternary c this that) = IsTame n false c × IsTame n false this × IsTame n false that
  IsTame n b (null_coalesce left right) = IsTame n false left × IsTame n false right
  IsTame n b (call f args) = ArgsTame n false args
  IsTame n b (piped e name args) = IsTame n false e × ArgsTame n (applies name) args
  IsTame n b (lambda param body) = (m : ℕ) × (n ≡ suc m) × (b ≡ true) × IsTame m false body
  IsTame n b (array es) = ArgsTame n false es
  IsTame n b (object fs) = FieldsTame n fs

  pub ArgsTame : {F : Type 0} → ℕ → Bool → Exprs F → Type 0
  ArgsTame n b no_exprs = Unit
  ArgsTame n b (expr e es) = IsTame n b e × ArgsTame n b es

  pub FieldsTame : {F : Type 0} → ℕ → Fields F → Type 0
  FieldsTame n no_fields = Unit
  FieldsTame n (field key e fs) = IsTame n false e × FieldsTame n fs

-- What the variables, the input, the state and the metadata hold.
pub record PlainContext {F : Type 0} (ctx : Context F) : Type 0 where
  pub input : IsPlain (any_map ctx.input)
  pub state : IsPlain (any_map ctx.state)
  pub meta : IsPlain (any_map ctx.meta)
  pub vars : (name : Str) → PlainIfSome (ctx.vars name)

-- An argument: a value without lambdas or, where the flag allows it, a tame lambda.
abbrev ArgOk : {F : Type 0} → ℕ → Bool → Value F → Type 0
ArgOk n b (Value.lambda param body) = IsTame n b (lambda param body)
ArgOk n b v = IsPlain v

abbrev ArgsOk : {F : Type 0} → ℕ → Bool → Items F → Type 0
ArgsOk n b no_items = Unit
ArgsOk n b (item v vs) = ArgOk n b v × ArgsOk n b vs

ArgOk-of_plain : {F : Type 0} (n : ℕ) (b : Bool) (v : Value F) → IsPlain v → ArgOk n b v
ArgOk-of_plain n b (Value.lambda param body) h = absurd h
ArgOk-of_plain n b nil h = tt
ArgOk-of_plain n b v h = h

IsPlain-of_arg : {F : Type 0} (n : ℕ) (v : Value F) → ArgOk n false v → IsPlain v
IsPlain-of_arg n (Value.lambda param body) h = absurd (cc (h.2))
IsPlain-of_arg n nil h = tt
IsPlain-of_arg n v h = h

ArePlain-of_args : {F : Type 0} (n : ℕ) (vs : Items F) → ArgsOk n false vs → ArePlain vs
ArePlain-of_args n no_items h = tt
ArePlain-of_args n (item v vs) h = (IsPlain-of_arg n v h.0, ArePlain-of_args n vs h.1)

ArgsOk-of_plain : {F : Type 0} (n : ℕ) (b : Bool) (vs : Items F) → ArePlain vs → ArgsOk n b vs
ArgsOk-of_plain n b no_items h = tt
ArgsOk-of_plain n b (item v vs) h = (ArgOk-of_plain n b v h.0, ArgsOk-of_plain n b vs h.1)

bind_var-Plain :
    {F : Type 0} (ctx : Context F) (param : Str) (v : Value F)
    → PlainContext ctx
    → IsPlain v
    → PlainContext (bind_var ctx param v)
unfolding bind_var
bind_var-Plain ctx param v pc h = record {
  input = pc.input;
  state = pc.state;
  meta = pc.meta;
  vars = λ k. if-Plain (str_eq k param) (some v) (ctx.vars k) h (pc.vars k);
}

bind-Ends {ℓ κ} :
    {A : Type ℓ} {B : Type κ} (P : A → Type 0) (Q : B → Type 0) (r : Outcome A) (f : A → Outcome B)
    → Ends P r
    → ((a : A) → P a → Ends Q (f a))
    → Ends Q (r >>= f)
bind-Ends P Q (evaluated a) f h k = k a h
bind-Ends P Q (failed e) f h k = tt
bind-Ends P Q panicked f h k = tt
bind-Ends P Q unfinished f h k = h

weaken-Ends {ℓ} :
    {A : Type ℓ} (P Q : A → Type 0) (r : Outcome A) → ((a : A) → P a → Q a) → Ends P r → Ends Q r
weaken-Ends P Q (evaluated a) k h = k a h
weaken-Ends P Q (failed e) k h = tt
weaken-Ends P Q panicked k h = tt
weaken-Ends P Q unfinished k h = h

literal_value-IsPlain : {F : Type 0} (l : Literal F) → IsPlain (literal_value l)
unfolding literal_value
literal_value-IsPlain Literal.null = tt
literal_value-IsPlain (Literal.bool b) = tt
literal_value-IsPlain (Literal.int n) = tt
literal_value-IsPlain (Literal.float x) = tt
literal_value-IsPlain (Literal.str s) = tt

eval_ident-IsPlain :
    {F : Type 0} (name : Str) (ctx : Context F) → PlainContext ctx → IsPlain (eval_ident name ctx)
unfolding eval_ident
eval_ident-IsPlain name ctx pc = elim (Option-cases (ctx.vars name)) [
  | inr (v, bound) ↦
      let p : PlainIfSome (ctx.vars name) = pc.vars name in
      let q : IsPlain v = rw bound at p in rw (bound, eval_ident) q
  | inl free ↦
      rw (free, eval_ident)
        (if-IsPlain (str_eq name (codes "input")) _ _ pc.input (
          if-IsPlain (str_eq name (codes "state")) _ _ pc.state (
            if-IsPlain (str_eq name (codes "meta")) _ _ pc.meta (
              if-IsPlain (str_eq name (codes "true")) _ _ tt
                (if-IsPlain (str_eq name (codes "false")) _ _ tt tt)))))
]

module _ {F : Type 0} (lib : Library F) (sorts : SortsPlain lib) (n : ℕ) (go : Evaluator F)
    (goes : (m : ℕ)
      → n ≡ suc m
      → (ctx : Context F) → PlainContext ctx
      → (e : Expr F) → IsTame m false e
      → Ends IsPlain (go ctx e)) where
  map_items-Ends :
      (m : ℕ)
      → n ≡ suc m
      → (ctx : Context F) → PlainContext ctx
      → (param : Str) (body : Expr F) → IsTame m false body
      → (vs : Items F) → ArePlain vs
      → Ends ArePlain (map_items go ctx param body vs)
  unfolding map_items
  map_items-Ends m e ctx pc param body tame no_items h = tt
  map_items-Ends m e ctx pc param body tame (item v vs) h =
      bind-Ends IsPlain ArePlain (go (bind_var ctx param v) body) _
        (goes m e (bind_var ctx param v) (bind_var-Plain ctx param v pc h.0) body tame)
        (λ w p.
          bind-Ends ArePlain ArePlain (map_items go ctx param body vs) _
            (map_items-Ends m e ctx pc param body tame vs h.1) (λ ws q. (p, q)))

  select_items-Ends :
      (m : ℕ)
      → n ≡ suc m
      → (ctx : Context F) → PlainContext ctx
      → (param : Str) (body : Expr F) → IsTame m false body
      → (vs : Items F) → ArePlain vs
      → Ends ArePlain (select_items lib go ctx param body vs)
  unfolding select_items
  select_items-Ends m e ctx pc param body tame no_items h = tt
  select_items-Ends m e ctx pc param body tame (item v vs) h =
      bind-Ends IsPlain ArePlain (go (bind_var ctx param v) body) _
        (goes m e (bind_var ctx param v) (bind_var-Plain ctx param v pc h.0) body tame)
        (λ w p.
          bind-Ends ArePlain ArePlain (select_items lib go ctx param body vs) _
            (select_items-Ends m e ctx pc param body tame vs h.1)
            (λ ws q. if-ArePlain (is_truthy lib w) (item v ws) ws (h.0, q) q))

  filter_map-Ends :
      (b : Bool) (ctx : Context F)
      → PlainContext ctx
      → (v : Value F) → IsPlain v
      → (args : Items F) → ArgsOk n b args
      → Ends IsPlain (filter_map go ctx v args)
  unfolding filter_map
  filter_map-Ends b ctx pc (arr vs) h (item (Value.lambda param body) args) k =
      let (m, e, flag, tame) = k.0 in
      bind-Ends ArePlain IsPlain (map_items go ctx param body vs) _
        (map_items-Ends m e ctx pc param body tame vs h) (λ ws q. q)
  filter_map-Ends b ctx pc (arr vs) h (item (str key) args) k =
      all_of-ArePlain (λ v. field_access v key) vs (λ v p. field_access-IsPlain v key p) h
  filter_map-Ends b ctx pc (arr vs) h args k = h
  filter_map-Ends b ctx pc v h args k = tt

  filter_filter-Ends :
      (b : Bool) (ctx : Context F)
      → PlainContext ctx
      → (v : Value F) → IsPlain v
      → (args : Items F) → ArgsOk n b args
      → Ends IsPlain (filter_filter lib go ctx v args)
  unfolding filter_filter
  filter_filter-Ends b ctx pc (arr vs) h (item (Value.lambda param body) args) k =
      let (m, e, flag, tame) = k.0 in
      bind-Ends ArePlain IsPlain (select_items lib go ctx param body vs) _
        (select_items-Ends m e ctx pc param body tame vs h) (λ ws q. q)
  filter_filter-Ends b ctx pc (arr vs) h args k = h
  filter_filter-Ends b ctx pc v h args k = tt

  filter_json-Ends : (v : Value F) → Ends IsPlain (filter_json lib v)
  unfolding filter_json
  filter_json-Ends v = encoded (lib.marshal v)
    where
      encoded :
          (o : Option Str)
          → Ends
              (IsPlain {F = F})
              (elim o [ none ↦ failed marshal_error | some s ↦ evaluated (str s) ])
      encoded none = tt
      encoded (some s) = tt

  filter_truncate-Ends : (v : Value F) (args : Items F) → Ends IsPlain (filter_truncate lib v args)
  unfolding filter_truncate truncate_to
  filter_truncate-Ends (str s) no_items = tt
  filter_truncate-Ends (str s) (item v args) = shortened (to_int lib v)
    where
      shortened :
          (o : Option ℤ)
          → Ends
              (IsPlain {F = F})
              (elim o [ none ↦ evaluated (str s) | some n ↦ truncate_to lib s n ])
      shortened none = tt
      shortened (some (pos n)) = tt
      shortened (some (negsuc n)) = tt
  filter_truncate-Ends v args = tt

  run_filter-Ends :
      (ctx : Context F)
      → PlainContext ctx
      → (name : Str) (v : Value F) → IsPlain v
      → (b : Bool) → b ≡ applies name
      → (args : Items F) → ArgsOk n b args
      → Ends IsPlain (run_filter lib go ctx name v args)
  unfolding run_filter applies
  run_filter-Ends ctx pc name v h b e args k = elim (Bool-cases (str_eq name (codes "map"))) [
    | inl is_map ↦ rw (is_map, run_filter) (filter_map-Ends b ctx pc v h args k)
    | inr not_map ↦ elim (Bool-cases (str_eq name (codes "filter"))) [
      | inl is_filter ↦ rw (not_map, is_filter, run_filter) (filter_filter-Ends b ctx pc v h args k)
      | inr not_filter ↦
          let plain : b ≡ false = ground (arith, e, not_map, not_filter) in
          let args_plain : ArePlain args = ArePlain-of_args n args (rw plain at k) in
          rw (not_map, not_filter, run_filter)
            (if-Ends IsPlain (str_eq name (codes "json")) _ _ (filter_json-Ends v) (
              if-Ends IsPlain (str_eq name (codes "truncate")) _ _ (filter_truncate-Ends v args) (
                given (pure_filter lib name v args)
                  (pure_filter-Plain lib sorts name v args h args_plain))))
    ]
  ]
    where
      given :
          (o : Option (Value F))
          → PlainIfSome o
          → Ends IsPlain (elim o [ none ↦ failed (unknown_filter name) | some w ↦ evaluated w ])
      given none p = tt
      given (some w) p = p

  mutual
    unfolding eval_step eval_args eval_fields

    eval_step-Ends :
        (ctx : Context F)
        → PlainContext ctx
        → (e : Expr F) → IsTame n false e
        → Ends IsPlain (eval_step lib go ctx e)
    eval_step-Ends ctx pc (literal l) t = literal_value-IsPlain l
    eval_step-Ends ctx pc (ident name) t = eval_ident-IsPlain name ctx pc
    eval_step-Ends ctx pc (dot e key) t =
        bind-Ends IsPlain IsPlain (eval_step lib go ctx e) _ (eval_step-Ends ctx pc e t)
          (λ v p. field_access-IsPlain v key p)
    eval_step-Ends ctx pc (optional_chain e key) t =
        bind-Ends IsPlain IsPlain (eval_step lib go ctx e) _ (eval_step-Ends ctx pc e t)
          (λ v p. field_access-IsPlain v key p)
    eval_step-Ends ctx pc (index e i) t =
        bind-Ends IsPlain IsPlain (eval_step lib go ctx e) _ (eval_step-Ends ctx pc e t.0) (λ v p.
          bind-Ends IsPlain IsPlain (eval_step lib go ctx i) _ (eval_step-Ends ctx pc i t.1)
            (λ w q. index_value-IsPlain lib v w p))
    eval_step-Ends ctx pc (binary op left right) t =
        let l = eval_step-Ends ctx pc left t.0 in
        let r = eval_step-Ends ctx pc right t.1 in
        if-Ends IsPlain (str_eq op (codes "&&")) _ _
          (bind-Ends IsPlain IsPlain (eval_step lib go ctx left) _ l (λ v p.
            if-Ends IsPlain (is_truthy lib v) (eval_step lib go ctx right) (evaluated v) r p))
          (if-Ends IsPlain (str_eq op (codes "||")) _ _
            (bind-Ends IsPlain IsPlain (eval_step lib go ctx left) _ l (λ v p.
              if-Ends IsPlain (is_truthy lib v) (evaluated v) (eval_step lib go ctx right) p r))
            (bind-Ends IsPlain IsPlain (eval_step lib go ctx left) _ l (λ v p.
              bind-Ends IsPlain IsPlain (eval_step lib go ctx right) _ r
                (λ w q. binary_op-Ends lib op v w))))
    eval_step-Ends ctx pc (unary op e) t =
        bind-Ends IsPlain IsPlain (eval_step lib go ctx e) _ (eval_step-Ends ctx pc e t)
          (λ v p. if-Ends IsPlain (str_eq op (codes "!")) _ _ tt tt)
    eval_step-Ends ctx pc (ternary c this that) t =
        bind-Ends IsPlain IsPlain (eval_step lib go ctx c) _ (eval_step-Ends ctx pc c t.0) (λ v p.
          if-Ends IsPlain (is_truthy lib v) _ _ (eval_step-Ends ctx pc this t.1)
            (eval_step-Ends ctx pc that t.2))
    eval_step-Ends ctx pc (null_coalesce left right) t =
        bind-Ends IsPlain IsPlain (eval_step lib go ctx left) _ (eval_step-Ends ctx pc left t.0)
          (λ v p.
            if-Ends IsPlain (is_nil v) (eval_step lib go ctx right) (evaluated v)
              (eval_step-Ends ctx pc right t.1) p)
    eval_step-Ends ctx pc (call f args) t =
        elim (called_filter lib f args)
          as (λ o. Ends IsPlain (elim o [
            | none ↦ evaluated nil
            | some name ↦ eval_args lib go ctx args >>= λ vs. run_filter lib go ctx name nil vs
          ])) [
            | none ↦ tt
            | some name ↦
                bind-Ends (ArgsOk n false) IsPlain (eval_args lib go ctx args) _
                  (eval_args-Ends ctx pc false args t)
                  (λ vs q.
                    run_filter-Ends ctx pc name nil tt (applies name) refl vs
                      (ArgsOk-of_plain n (applies name) vs (ArePlain-of_args n vs q)))
          ]
    eval_step-Ends ctx pc (piped e name args) t =
        bind-Ends IsPlain IsPlain (eval_step lib go ctx e) _ (eval_step-Ends ctx pc e t.0) (λ v p.
          bind-Ends (ArgsOk n (applies name)) IsPlain (eval_args lib go ctx args) _
            (eval_args-Ends ctx pc (applies name) args t.1)
            (λ vs q. run_filter-Ends ctx pc name v p (applies name) refl vs q))
    eval_step-Ends ctx pc (lambda param body) t = absurd (cc (t.2))
    eval_step-Ends ctx pc (array es) t =
        bind-Ends (ArgsOk n false) IsPlain (eval_args lib go ctx es) _
          (eval_args-Ends ctx pc false es t) (λ vs q. ArePlain-of_args n vs q)
    eval_step-Ends ctx pc (object fs) t =
        bind-Ends EntriesPlain IsPlain (eval_fields lib go ctx fs no_entries) _
          (eval_fields-Ends ctx pc fs t no_entries tt) (λ es q. q)

    eval_args-Ends :
        (ctx : Context F)
        → PlainContext ctx
        → (b : Bool) (es : Exprs F) → ArgsTame n b es
        → Ends (ArgsOk n b) (eval_args lib go ctx es)
    eval_args-Ends ctx pc b no_exprs t = tt
    eval_args-Ends ctx pc b (expr (lambda param body) es) t =
        bind-Ends (ArgsOk n b) (ArgsOk n b) (eval_args lib go ctx es) _
          (eval_args-Ends ctx pc b es t.1) (λ vs q. (t.0, q))
    eval_args-Ends ctx pc b (expr e es) t =
        bind-Ends (ArgOk n b) (ArgsOk n b) (eval_step lib go ctx e)
          (λ v. eval_args lib go ctx es >>= λ vs. evaluated (item v vs))
          (weaken-Ends IsPlain (ArgOk n b) (eval_step lib go ctx e) (ArgOk-of_plain n b)
            (eval_step-Ends ctx pc e t.0))
          (λ v p.
            bind-Ends (ArgsOk n b) (ArgsOk n b) (eval_args lib go ctx es)
              (λ vs. evaluated (item v vs)) (eval_args-Ends ctx pc b es t.1) (λ vs q. (p, q)))

    eval_fields-Ends :
        (ctx : Context F)
        → PlainContext ctx
        → (fs : Fields F) → FieldsTame n fs
        → (found : Entries F) → EntriesPlain found
        → Ends EntriesPlain (eval_fields lib go ctx fs found)
    eval_fields-Ends ctx pc no_fields t found h = h
    eval_fields-Ends ctx pc (field key e fs) t found h =
        bind-Ends IsPlain EntriesPlain (eval_step lib go ctx e) _ (eval_step-Ends ctx pc e t.0)
          (λ v p.
            eval_fields-Ends ctx pc fs t.1 (put_key key v found)
              (put_key-EntriesPlain key v found p h))

-- The evaluation of a tame expression ends, with an error, a panic or a value without lambdas: one unit of
-- fuel more than its lambdas nest is enough, if the input, the state, the metadata and the variables hold no
-- lambda and sorting brings none.
pub eval_expr-Ends :
    {F : Type 0} (lib : Library F)
    → SortsPlain lib
    → (n : ℕ) (ctx : Context F) → PlainContext ctx
    → (e : Expr F) → IsTame n false e
    → Ends IsPlain (eval_expr lib (suc n) ctx e)
unfolding eval_expr
eval_expr-Ends lib sorts zero ctx pc e t =
    eval_step-Ends lib sorts zero (eval_expr lib zero) (λ m k c p f u. absurd (omega (arith, k)))
      ctx pc e t
eval_expr-Ends lib sorts (suc n) ctx pc e t =
    eval_step-Ends lib sorts (suc n) (eval_expr lib (suc n))
      (λ m k c p f u.
        let same : n ≡ m = omega (arith, k) in eval_expr-Ends lib sorts n c p f (rw same u))
      ctx pc e t
