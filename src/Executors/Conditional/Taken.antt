-- ===== src/Executors/Conditional/Taken.antt =====
-- Which port of a conditional node fires, and which of its outgoing edges are then dead.
use brockleyai.Prelude.{
  Str, codes, str_eq, suc, In, ℕ, ◌≡◌, refl, sym, ap, ◌∙◌, Bool, true, false, not, ◌||◌, ◌&&◌, ◌==◌,
  length, Option, none, some, List, [], ◌∷◌, ◌++◌, All, if◌then◌else◌, arith,
}
use brockleyai.Value.{Value, Entries, Table, nil, no_entries, entry, is_nil}
use brockleyai.Model.{Edge}
use brockleyai.Orchestrator.Skips.{Skips, propagate_skips}
use brockleyai.Orchestrator.Skips.Reasons.{IsExplained, propagate_skips-IsExplained}
use brockleyai.Orchestrator.Skips.Justified.{propagate_skips-IsJustified}
use brockleyai.Expression.Values.{Library, find_key, or_nil, is_truthy}
use brockleyai.Expression.Outcome.{Context, Outcome, evaluated, failed, panicked, unfinished, ◌>>=◌}
use brockleyai.Expression.Eval.{eval}
use brockleyai.Executors.Conditional.{
  Branch, ConditionalNodeConfig, NodeContext, expr_context, first_match, fired, execute_conditional,
}

module _ {F : Type 0} (lib : Library F) (fuel : ℕ) where
  -- The condition of a branch is evaluated, and holds or not.
  abbrev pub Is : Bool → Context F → Branch → Type 0
  Is b ctx branch =
      (v : Value F) × (eval lib fuel branch.condition ctx ≡ evaluated v) × (is_truthy lib v ≡ b)

  -- The label of the first branch whose condition holds, or `none` where no condition does.
  abbrev pub IsFirst : Context F → List Branch → Option Str → Type 0
  IsFirst ctx bs none = All (Is false ctx) bs
  IsFirst ctx bs (some label) =
      (before : List Branch) × (b : Branch) × (after : List Branch) × (bs ≡ before ++ b ∷ after)
      × All (Is false ctx) before
      × Is true ctx b
      × (b.label ≡ label)

  IsFirst-cons :
      (ctx : Context F) (b : Branch) (bs : List Branch) (o : Option Str)
      → Is false ctx b
      → IsFirst ctx bs o
      → IsFirst ctx (b ∷ bs) o
  IsFirst-cons ctx b bs none h k = (h, k)
  IsFirst-cons ctx b bs (some label) h (before, c, after, e, all, holds, l) =
      (b ∷ before, c, after, ap (λ t. b ∷ t) e, (h, all), holds, l)

  branch-IsFirst :
      (ctx : Context F) (b : Branch) (bs : List Branch) (o : Option Str)
      → (first_match lib fuel ctx bs ≡ evaluated o → IsFirst ctx bs o)
      → (v : Value F) → eval lib fuel b.condition ctx ≡ evaluated v
      → (t : Bool) → is_truthy lib v ≡ t
      → elim t [ true ↦ evaluated (some b.label) | false ↦ first_match lib fuel ctx bs ]
        ≡ evaluated o
      → IsFirst ctx (b ∷ bs) o
  branch-IsFirst ctx b bs o rest v e true holds h =
      let p : some b.label ≡ o = cc in rw (sym p) ([], b, bs, refl, tt, (v, e, holds), refl)
  branch-IsFirst ctx b bs o rest v e false fails h = IsFirst-cons ctx b bs o (v, e, fails) (rest h)

  first_match-IsFirst :
      (ctx : Context F) (bs : List Branch) (o : Option Str)
      → first_match lib fuel ctx bs ≡ evaluated o
      → IsFirst ctx bs o
  unfolding first_match
  first_match-IsFirst ctx [] none h = tt
  first_match-IsFirst ctx [] (some label) h = absurd (cc h)
  first_match-IsFirst ctx (b ∷ bs) o h =
      each (λ k. first_match-IsFirst ctx bs o k) (eval lib fuel b.condition ctx) refl h
    where
      each :
          (first_match lib fuel ctx bs ≡ evaluated o → IsFirst ctx bs o)
          → (r : Outcome (Value F)) → eval lib fuel b.condition ctx ≡ r
          → (r >>= λ v. elim (is_truthy lib v) [
            | true ↦ evaluated (some b.label)
            | false ↦ first_match lib fuel ctx bs
          ])
            ≡ evaluated o
          → IsFirst ctx (b ∷ bs) o
      each rest (evaluated v) e h = branch-IsFirst ctx b bs o rest v e (is_truthy lib v) refl h
      each rest (failed d) e h = absurd (cc h)
      each rest panicked e h = absurd (cc h)
      each rest unfinished e h = absurd (cc h)

  -- Whether the port is that of the choice: the label, or the default where it is not empty.
  abbrev pub is_port : ConditionalNodeConfig → Option Str → Str → Bool
  is_port cfg (some label) port = str_eq label port
  is_port cfg none port = not (length cfg.default_label == 0) && str_eq cfg.default_label port

  abbrev pub value_of : Entries F → Value F
  value_of inputs = or_nil (find_key (codes "value") inputs)

  fired_port :
      (cfg : ConditionalNodeConfig) (value : Value F) (o : Option Str) (port : Str)
      → find_key port (fired lib fuel cfg value o)
        ≡ (if is_port cfg o port then some value else none)
  unfolding fired find_key
  fired_port cfg value (some label) port = refl
  fired_port cfg value none port = by_default cfg.default_label
    where
      by_default :
          (d : Str)
          → find_key port (elim d [ [] ↦ no_entries | c ∷ s ↦ entry (c ∷ s) value no_entries ])
            ≡ (if not (length d == 0) && str_eq d port then some value else none)
      by_default [] = refl
      by_default (c ∷ s) = ground arith

  abbrev pub table_of : Entries F → Table F
  table_of outs = λ port. find_key port outs

  -- The outputs are the input value on the port of the choice, and nothing else.
  abbrev pub Carries : ConditionalNodeConfig → Entries F → Option Str → Entries F → Type 0
  Carries cfg inputs o outs =
      (port : Str)
      → find_key port outs ≡ (if is_port cfg o port then some (value_of inputs) else none)

  -- One of the edges from another port, or from any if the input value is nil.
  abbrev pub IsPruned : ConditionalNodeConfig → Entries F → Option Str → List Edge → Edge → Type 0
  IsPruned cfg inputs o es e =
      In e es × ((is_nil (value_of inputs) || not (is_port cfg o e.source_port)) ≡ true)

  -- Skip propagation on the outputs returns, and these edges are dead after it; otherwise only what was dead
  -- before and edges that leave skipped nodes.
  abbrev pub Prunes : ConditionalNodeConfig → Entries F → Option Str → Entries F → Type 0
  Prunes cfg inputs o outs =
      (edges es : List Edge) (s : Skips)
      → ((e : Edge) → In e es → In e edges)
      → (s' : Skips) × (propagate_skips edges (suc (length edges)) (table_of outs) es s ≡ some s')
        × ((e : Edge) → IsPruned cfg inputs o es e → s'.dead e.id ≡ true)
        × IsExplained edges (IsPruned cfg inputs o es) s s'

  nil_on_other :
      (b : Bool) (v : Value F) (r : Option (Value F))
      → r ≡ (if b then some v else none)
      → (is_nil v || not b) ≡ true
      → is_nil (elim r [ none ↦ nil | some w ↦ w ]) ≡ true
  nil_on_other true v r e h = rw e (ground (arith, h))
  nil_on_other false v r e h = rw e refl

  other_of_nil :
      (b : Bool) (v : Value F) (r : Option (Value F))
      → r ≡ (if b then some v else none)
      → is_nil (elim r [ none ↦ nil | some w ↦ w ]) ≡ true
      → (is_nil v || not b) ≡ true
  other_of_nil true v r e h = let k : is_nil v ≡ true = (rw e at h) in ground (arith, k)
  other_of_nil false v r e h = ground arith

  Carries-Prunes :
      (cfg : ConditionalNodeConfig) (inputs : Entries F) (o : Option Str) (outs : Entries F)
      → Carries cfg inputs o outs
      → Prunes cfg inputs o outs
  Carries-Prunes cfg inputs o outs carries edges es s sub =
      let (s', ran, grows, killed, reasons, just) =
        propagate_skips-IsJustified edges (table_of outs) es s sub in
      let explained =
        propagate_skips-IsExplained edges (IsPruned cfg inputs o es) (table_of outs)
          (suc (length edges)) es s s' sub
          (λ e i absent. (
            i,
            other_of_nil (is_port cfg o e.source_port) (value_of inputs)
                (find_key e.source_port outs) (carries e.source_port) absent,
          ))
          ran in
      (
        s',
        ran,
        λ e h. killed e h.0 (
            nil_on_other (is_port cfg o e.source_port) (value_of inputs)
              (find_key e.source_port outs) (carries e.source_port) h.1),
        explained.1,
      )

  -- A conditional node that ends with outputs has evaluated its conditions up to the first that holds. Its
  -- outputs are the input `value` on the port of that branch, or on the default port where no condition holds
  -- and there is one, and nothing on other ports. Skip propagation with these outputs returns, on any edges of the
  -- graph, and marks those as dead that leave from the other ports, and all of them if the value is nil; otherwise
  -- only what was dead before and edges that leave skipped nodes are dead after it.
  pub execute_conditional-fires :
      (cfg : ConditionalNodeConfig) (inputs : Entries F) (nctx : Option (NodeContext F))
      (outs : Entries F)
      → execute_conditional lib fuel cfg inputs nctx ≡ evaluated outs
      → (o : Option Str) × IsFirst (expr_context inputs nctx) cfg.branches o
        × Carries cfg inputs o outs
        × Prunes cfg inputs o outs
  unfolding execute_conditional
  execute_conditional-fires cfg inputs nctx outs h =
      each (first_match lib fuel (expr_context inputs nctx) cfg.branches) refl h
    where
      each :
          (r : Outcome (Option Str))
          → first_match lib fuel (expr_context inputs nctx) cfg.branches ≡ r
          → (r >>= λ label. evaluated (fired lib fuel cfg (value_of inputs) label)) ≡ evaluated outs
          → (o : Option Str) × IsFirst (expr_context inputs nctx) cfg.branches o
            × Carries cfg inputs o outs
            × Prunes cfg inputs o outs
      each (evaluated o) e h =
          let same : fired lib fuel cfg (value_of inputs) o ≡ outs = cc in
          let carries : Carries cfg inputs o outs =
            λ port. ap (find_key port) (sym same) ∙ fired_port cfg (value_of inputs) o port in
          (
            o,
            first_match-IsFirst (expr_context inputs nctx) cfg.branches o e,
            carries,
            Carries-Prunes cfg inputs o outs carries,
          )
      each (failed d) e h = absurd (cc h)
      each panicked e h = absurd (cc h)
      each unfinished e h = absurd (cc h)
