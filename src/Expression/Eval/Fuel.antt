-- ===== src/Expression/Eval/Fuel.antt =====
-- More fuel changes no result of an evaluation.
use brockleyai.Prelude.{
  Str, codes, str_eq, ℕ, zero, suc, ◌+◌, ◌≡◌, ◌≢◌, ◌⊎◌, refl, sym, ap, ◌∙◌, Bool, true, false, none,
  some, if◌then◌else◌, inl, inr, arith,
}
use brockleyai.Value.{is_nil, Value, Items, Entries, nil, arr, str, no_items, item, no_entries}
use brockleyai.Expression.Syntax.{
  Expr, Exprs, Fields, no_exprs, expr, no_fields, field, literal, ident, dot, optional_chain, index,
  binary, unary, ternary, null_coalesce, call, piped, lambda, array, object,
}
use brockleyai.Expression.Values.{Library, is_truthy, put_key}
use brockleyai.Expression.Outcome.{
  Context, Outcome, evaluated, failed, panicked, unfinished, ◌>>=◌, Evaluator,
}
use brockleyai.Expression.Eval.{
  bind_var, map_items, filter_map, select_items, filter_filter, run_filter, called_filter,
  eval_step, eval_args, eval_fields, eval_expr,
}

-- The first is out of fuel, or both are the same.
abbrev pub Below {ℓ} : {A : Type ℓ} → Outcome A → Outcome A → Type ℓ
Below r r' = (r ≡ unfinished) ⊎ (r ≡ r')

same_result {ℓ} : {A : Type ℓ} (r : Outcome A) → Below r r
same_result r = inr refl

bind-Below {ℓ κ} :
    {A : Type ℓ} {B : Type κ} (r r' : Outcome A) (f f' : A → Outcome B)
    → Below r r'
    → ((a : A) → Below (f a) (f' a))
    → Below (r >>= f) (r' >>= f')
bind-Below r r' f f' (inl e) h = rw e (inl refl)
bind-Below r r' f f' (inr e) h = rw e (each r')
  where
    each : (r : Outcome _) → Below (r >>= f) (r >>= f')
    each (evaluated a) = h a
    each (failed e) = inr refl
    each panicked = inr refl
    each unfinished = inr refl

if-Below {ℓ} :
    {A : Type ℓ} (b : Bool) (p p' q q' : Outcome A)
    → Below p p'
    → Below q q'
    → Below (if b then p else q) (if b then p' else q')
if-Below true p p' q q' h k = h
if-Below false p p' q q' h k = k

module _ {F : Type 0} (lib : Library F) (go go' : Evaluator F)
    (grows : (ctx : Context F) (e : Expr F) → Below (go ctx e) (go' ctx e)) where
  map_items-Below :
      (ctx : Context F) (param : Str) (body : Expr F) (vs : Items F)
      → Below (map_items go ctx param body vs) (map_items go' ctx param body vs)
  unfolding map_items
  map_items-Below ctx param body no_items = inr refl
  map_items-Below ctx param body (item v vs) =
      bind-Below (go (bind_var ctx param v) body) (go' (bind_var ctx param v) body) _ _
        (grows (bind_var ctx param v) body)
        (λ w.
          bind-Below (map_items go ctx param body vs) (map_items go' ctx param body vs) _ _
            (map_items-Below ctx param body vs) (λ ws. inr refl))

  select_items-Below :
      (ctx : Context F) (param : Str) (body : Expr F) (vs : Items F)
      → Below (select_items lib go ctx param body vs) (select_items lib go' ctx param body vs)
  unfolding select_items
  select_items-Below ctx param body no_items = inr refl
  select_items-Below ctx param body (item v vs) =
      bind-Below (go (bind_var ctx param v) body) (go' (bind_var ctx param v) body) _ _
        (grows (bind_var ctx param v) body)
        (λ w.
          bind-Below (select_items lib go ctx param body vs)
            (select_items lib go' ctx param body vs) _ _ (select_items-Below ctx param body vs)
            (λ ws. inr refl))

  filter_map-Below :
      (ctx : Context F) (v : Value F) (args : Items F)
      → Below (filter_map go ctx v args) (filter_map go' ctx v args)
  unfolding filter_map
  filter_map-Below ctx (arr vs) (item (Value.lambda param body) args) =
      bind-Below (map_items go ctx param body vs) (map_items go' ctx param body vs) _ _
        (map_items-Below ctx param body vs) (λ ws. inr refl)
  filter_map-Below ctx (arr vs) (item (str key) args) = inr refl
  filter_map-Below ctx (arr vs) args = inr refl
  filter_map-Below ctx v args = inr refl

  filter_filter-Below :
      (ctx : Context F) (v : Value F) (args : Items F)
      → Below (filter_filter lib go ctx v args) (filter_filter lib go' ctx v args)
  unfolding filter_filter
  filter_filter-Below ctx (arr vs) (item (Value.lambda param body) args) =
      bind-Below (select_items lib go ctx param body vs) (select_items lib go' ctx param body vs) _
        _ (select_items-Below ctx param body vs) (λ ws. inr refl)
  filter_filter-Below ctx (arr vs) args = inr refl
  filter_filter-Below ctx v args = inr refl

  run_filter-Below :
      (ctx : Context F) (name : Str) (v : Value F) (args : Items F)
      → Below (run_filter lib go ctx name v args) (run_filter lib go' ctx name v args)
  unfolding run_filter
  run_filter-Below ctx name v args =
      if-Below (str_eq name (codes "map")) _ _ _ _ (filter_map-Below ctx v args) (
        if-Below (str_eq name (codes "filter")) _ _ _ _ (filter_filter-Below ctx v args) (inr refl))

  mutual
    unfolding eval_step eval_args eval_fields

    pub eval_step-Below :
        (ctx : Context F) (e : Expr F) → Below (eval_step lib go ctx e) (eval_step lib go' ctx e)
    eval_step-Below ctx (literal l) = inr refl
    eval_step-Below ctx (ident name) = inr refl
    eval_step-Below ctx (dot e key) = bind-Below _ _ _ _ (eval_step-Below ctx e) (λ v. inr refl)
    eval_step-Below ctx (optional_chain e key) =
        bind-Below _ _ _ _ (eval_step-Below ctx e) (λ v. inr refl)
    eval_step-Below ctx (index e i) =
        bind-Below _ _ _ _ (eval_step-Below ctx e)
          (λ v. bind-Below _ _ _ _ (eval_step-Below ctx i) (λ w. inr refl))
    eval_step-Below ctx (binary op left right) =
        let l = eval_step-Below ctx left in
        let r = eval_step-Below ctx right in
        if-Below (str_eq op (codes "&&")) _ _ _ _
          (bind-Below _ _ _ _ l (λ v. if-Below (is_truthy lib v) _ _ _ _ r (inr refl)))
          (if-Below (str_eq op (codes "||")) _ _ _ _
            (bind-Below _ _ _ _ l (λ v. if-Below (is_truthy lib v) _ _ _ _ (inr refl) r))
            (bind-Below _ _ _ _ l (λ v. bind-Below _ _ _ _ r (λ w. inr refl))))
    eval_step-Below ctx (unary op e) = bind-Below _ _ _ _ (eval_step-Below ctx e) (λ v. inr refl)
    eval_step-Below ctx (ternary c this that) = bind-Below _ _ _ _ (eval_step-Below ctx c) (λ v.
        if-Below (is_truthy lib v) _ _ _ _ (eval_step-Below ctx this) (eval_step-Below ctx that))
    eval_step-Below ctx (null_coalesce left right) =
        bind-Below _ _ _ _ (eval_step-Below ctx left)
          (λ v. if-Below (is_nil v) _ _ _ _ (eval_step-Below ctx right) (inr refl))
    eval_step-Below ctx (call f args) =
        elim (called_filter lib f args)
          as (λ o.
            Below
              (elim o [
                | none ↦ evaluated nil
                | some name ↦ eval_args lib go ctx args >>= λ vs. run_filter lib go ctx name nil vs
              ])
              (elim o [
                | none ↦ evaluated nil
                | some name ↦
                    eval_args lib go' ctx args >>= λ vs. run_filter lib go' ctx name nil vs
              ])) [
                | none ↦ inr refl
                | some name ↦
                    bind-Below _ _ _ _ (eval_args-Below ctx args)
                      (λ vs. run_filter-Below ctx name nil vs)
              ]
    eval_step-Below ctx (piped e name args) =
        bind-Below _ _ _ _ (eval_step-Below ctx e) (λ v.
          bind-Below _ _ _ _ (eval_args-Below ctx args) (λ vs. run_filter-Below ctx name v vs))
    eval_step-Below ctx (lambda param body) = inr refl
    eval_step-Below ctx (array es) = bind-Below _ _ _ _ (eval_args-Below ctx es) (λ vs. inr refl)
    eval_step-Below ctx (object fs) =
        bind-Below _ _ _ _ (eval_fields-Below ctx fs no_entries) (λ es. inr refl)

    eval_args-Below :
        (ctx : Context F) (es : Exprs F)
        → Below (eval_args lib go ctx es) (eval_args lib go' ctx es)
    eval_args-Below ctx no_exprs = inr refl
    eval_args-Below ctx (expr e es) =
        bind-Below _ _ _ _ (eval_step-Below ctx e)
          (λ v. bind-Below _ _ _ _ (eval_args-Below ctx es) (λ vs. inr refl))

    eval_fields-Below :
        (ctx : Context F) (fs : Fields F) (found : Entries F)
        → Below (eval_fields lib go ctx fs found) (eval_fields lib go' ctx fs found)
    eval_fields-Below ctx no_fields found = inr refl
    eval_fields-Below ctx (field key e fs) found =
        bind-Below _ _ _ _ (eval_step-Below ctx e)
          (λ v. eval_fields-Below ctx fs (put_key key v found))

eval_expr-Below :
    {F : Type 0} (lib : Library F) (fuel : ℕ) (ctx : Context F) (e : Expr F)
    → Below (eval_expr lib fuel ctx e) (eval_expr lib (suc fuel) ctx e)
unfolding eval_expr
eval_expr-Below lib zero ctx e = inl refl
eval_expr-Below lib (suc fuel) ctx e =
    eval_step-Below lib (eval_expr lib fuel) (eval_expr lib (suc fuel)) (eval_expr-Below lib fuel)
      ctx e

-- A result that is found with some fuel is found with more.
pub eval_expr_more :
    {F : Type 0} (lib : Library F) (more fuel : ℕ) (ctx : Context F) (e : Expr F)
    → eval_expr lib fuel ctx e ≢ unfinished
    → eval_expr lib (more + fuel) ctx e ≡ eval_expr lib fuel ctx e
eval_expr_more lib zero fuel ctx e h = ap (λ n. eval_expr lib n ctx e) (omega arith)
eval_expr_more lib (suc more) fuel ctx e h =
    let shorter : eval_expr lib (more + fuel) ctx e ≡ eval_expr lib fuel ctx e =
      eval_expr_more lib more fuel ctx e h in
    let next : suc more + fuel ≡ suc (more + fuel) = omega arith in
    elim (eval_expr-Below lib (more + fuel) ctx e) [
      | inl out ↦ absurd (h (sym shorter ∙ out))
      | inr same ↦ ap (λ n. eval_expr lib n ctx e) next ∙ (sym same ∙ shorter)
    ]
