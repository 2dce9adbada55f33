-- ===== src/Expression/Template.antt =====
-- engine/expression/template.go: a template is parsed at positions of its text into nodes, which are rendered.
-- Each turn of the parser's loop and each nested call costs a unit of fuel.
mod Tests
use brockleyai.Prelude.{
  Str, codes, str_eq, starts_with, index_of, ℕ, zero, suc, ◌+◌, ◌-◌, ◌==◌, ltb, Bool, true, false,
  ◌&&◌, not, Option, none, some, List, [], ◌∷◌, ◌++◌, ℤ, pos, length, take, drop, update,
  if◌then◌else◌,
}
use brockleyai.Value.{Value, Items, bool, int64, no_items, item, items_length}
use brockleyai.Expression.Values.{Library, to_slice, to_string_val, is_truthy}
use brockleyai.Expression.Outcome
use brockleyai.Expression.Outcome.{
  Context, EvalError, unclosed_tag, unclosed_raw, missing_end, Outcome, evaluated, failed, panicked,
  ◌>>=◌,
}
use brockleyai.Expression.Eval.{eval}

mutual
  pub data TplNode : Type 0 where
    text : Str → TplNode
    expression : Str → TplNode
    -- The condition, the body, and the body of `#else`, empty if there is none.
    if_block : Str → TplNodes → TplNodes → TplNode
    each_block : Str → TplNodes → TplNode
    raw : Str → TplNode

  pub data TplNodes : Type 0 where
    no_nodes : TplNodes
    node : TplNode → TplNodes → TplNodes

-- `append(nodes, n)`
unfoldable pub append_node : TplNodes → TplNode → TplNodes
append_node no_nodes n = node n no_nodes
append_node (node m ms) n = node m (append_node ms n)

-- What parseTemplateInner returns: nodes and a position; the same with an elseResult for its error, and the
-- nodes of the `#else` in it; or another error.
pub data TplParse : Type 0 where
  parsed : TplNodes → ℕ → TplParse
  with_else : TplNodes → ℕ → TplNodes → TplParse
  bad : EvalError → TplParse
  unfinished : TplParse

-- `nodes` and the text up to the tag, if there is some.
unfoldable pub add_text : TplNodes → Str → TplNodes
unfolding append_node
add_text nodes [] = nodes
add_text nodes (c ∷ s) = append_node nodes (text (c ∷ s))

-- `input[pos:pos+2]` is `{{`: the position of `}}` behind it, relative to `pos`.
abbrev pub close_of : Str → Option ℕ
close_of rest = index_of rest (codes "}}")

-- The parser's call of itself: position, end tag and the nodes so far.
abbrev pub TplParser : Type 0
TplParser = ℕ → Str → TplNodes → TplParse

module _ (trim_space : Str → Str) (input : Str) where
  -- The tag `#else` in the body of an `#if`.
  unfoldable pub parse_else : TplParser → ℕ → TplNodes → TplParse
  parse_else go next nodes = elim (go next (codes "/if") no_nodes) [
    | parsed else_nodes else_pos ↦ with_else nodes else_pos else_nodes
    -- The error of the nested call is passed on, with no nodes and the position 0.
    | with_else _ _ else_nodes ↦ with_else no_nodes 0 else_nodes
    | bad e ↦ bad e
    | unfinished ↦ unfinished
  ]

  unfoldable pub parse_if : TplParser → ℕ → Str → Str → TplNodes → TplParse
  unfolding append_node
  parse_if go next condition end_tag nodes = elim (go next (codes "/if") no_nodes) [
    | parsed body body_pos ↦
        go body_pos end_tag (append_node nodes (if_block condition body no_nodes))
    | with_else body body_pos else_body ↦
        go body_pos end_tag (append_node nodes (if_block condition body else_body))
    | bad e ↦ bad e
    | unfinished ↦ unfinished
  ]

  unfoldable pub parse_each : TplParser → ℕ → Str → Str → TplNodes → TplParse
  unfolding append_node
  parse_each go next expr end_tag nodes = elim (go next (codes "/each") no_nodes) [
    | parsed body body_pos ↦ go body_pos end_tag (append_node nodes (each_block expr body))
    | with_else _ _ else_nodes ↦ with_else no_nodes 0 else_nodes
    | bad e ↦ bad e
    | unfinished ↦ unfinished
  ]

  unfoldable pub parse_raw : TplParser → ℕ → Str → TplNodes → TplParse
  unfolding index_of append_node
  parse_raw go next end_tag nodes = elim (index_of (drop next input) (codes "{{/raw}}")) [
    | none ↦ bad unclosed_raw
    | some n ↦ go (next + n + 8) end_tag (append_node nodes (raw (take n (drop next input))))
  ]

  -- A tag in front of the position `next`.
  unfoldable pub parse_tag : TplParser → Str → ℕ → Str → TplNodes → TplParse
  unfolding parse_else parse_if parse_each parse_raw starts_with append_node
  parse_tag go tag next end_tag nodes =
      if not (length end_tag == 0) && str_eq tag end_tag
      then parsed nodes next
      else if str_eq end_tag (codes "/if") && str_eq tag (codes "#else")
      then parse_else go next nodes
      else if starts_with tag (codes "#if ")
      then parse_if go next (trim_space (drop 4 tag)) end_tag nodes
      else if starts_with tag (codes "#each ")
      then parse_each go next (trim_space (drop 6 tag)) end_tag nodes
      else if str_eq tag (codes "raw")
      then parse_raw go next end_tag nodes
      else go next end_tag (append_node nodes (expression tag))

  -- The end of the loop.
  unfoldable pub parse_end : Str → ℕ → TplNodes → TplParse
  parse_end [] at nodes = parsed nodes at
  parse_end (c ∷ end_tag) at nodes = bad (missing_end (c ∷ end_tag))

  unfoldable pub parse_inner : ℕ → TplParser
  unfolding index_of add_text append_node parse_tag parse_end
  parse_inner zero at end_tag nodes = unfinished
  parse_inner (suc fuel) at end_tag nodes =
      if ltb at (length input)
      then (let rest = drop at input in
          elim (index_of rest (codes "{{")) [
            | none ↦ parse_end end_tag (length input) (append_node nodes (text rest))
            | some n ↦
                let tag_at = drop n rest in
                let before = add_text nodes (take n rest) in
                elim (close_of tag_at) [
                  | none ↦ bad unclosed_tag
                  | some m ↦
                      parse_tag (parse_inner fuel) (trim_space (drop 2 (take m tag_at)))
                        (at + n + m + 2) end_tag before
                ]
          ])
      else parse_end end_tag at nodes

  -- parseTemplate: at the top an elseResult is an error like another, but there is no end tag to raise it.
  unfoldable pub parse_template : ℕ → TplParse
  unfolding parse_inner
  parse_template fuel = parse_inner fuel 0 [] no_nodes

-- The variables of `#each` for the item at the index.
unfoldable pub each_context : {F : Type 0} → Context F → Value F → ℕ → ℕ → Context F
each_context ctx v i n = record ctx {
  vars =
      update
        (update
          (update (update ctx.vars (codes "this") (some v)) (codes "@index") (some (int64 (pos i))))
          (codes "@first") (some (bool (i == 0))))
        (codes "@last") (some (bool (suc i == n)));
}

unfoldable pub render_each :
    {F : Type 0} → (Context F → Outcome Str) → Context F → ℕ → ℕ → Items F → Outcome Str
unfolding each_context
render_each body ctx i n no_items = evaluated []
render_each body ctx i n (item v vs) = body (each_context ctx v i n) >>= λ s.
    render_each body ctx (suc i) n vs >>= λ t. evaluated (s ++ t)

module _ {F : Type 0} (lib : Library F) (fuel : ℕ) where
  unfoldable mutual
    unfolding eval is_truthy to_string_val to_slice render_each

    pub render_nodes : TplNodes → Context F → Outcome Str
    render_nodes no_nodes ctx = evaluated []
    render_nodes (node n ns) ctx =
        render_node n ctx >>= λ s. render_nodes ns ctx >>= λ t. evaluated (s ++ t)

    pub render_node : TplNode → Context F → Outcome Str
    render_node (text s) ctx = evaluated s
    render_node (raw s) ctx = evaluated s
    render_node (expression e) ctx = eval lib fuel e ctx >>= λ v. evaluated (to_string_val lib v)
    render_node (if_block c body else_body) ctx = eval lib fuel c ctx >>= λ v.
        if is_truthy lib v then render_nodes body ctx else render_nodes else_body ctx
    render_node (each_block e body) ctx = eval lib fuel e ctx >>= λ v. elim (to_slice v) [
      | none ↦ evaluated []
      | some vs ↦ render_each (render_nodes body) ctx 0 (items_length vs) vs
    ]

  -- RenderTemplate, with fuel for the parser.
  unfoldable pub render_template : ℕ → Str → Context F → Outcome Str
  unfolding parse_template render_nodes
  render_template turns template ctx = elim (parse_template lib.trim_space template turns) [
    | parsed nodes at ↦ render_nodes nodes ctx
    | with_else _ _ _ ↦ failed (missing_end [])
    | bad e ↦ failed e
    | unfinished ↦ Outcome.unfinished
  ]
