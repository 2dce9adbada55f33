-- ===== src/Expression/Template/Tests.antt =====
-- Templates on which the theorems apply, and one whose parsing does not end.
use brockleyai.Prelude.{Str, codes, ℕ, zero, suc, ◌≡◌, refl, [], index_of, starts_with}
use brockleyai.Prelude.Text.{str_eq}
use brockleyai.Expression.Template.{
  TplNode, TplNodes, no_nodes, append_node, unfinished, add_text, parse_else, parse_if, parse_tag,
  parse_end, parse_inner,
}

abbrev keep : Str → Str
keep s = s

-- An `#if` with two `#else`.
abbrev two_else : Str
two_else = codes "{{#if a}}{{#else}}{{#else}}{{/if}}"

-- The elseResult of the second is passed up with the position 0, where the loop of the caller goes on.
two_else-unfinished :
    (fuel : ℕ) (nodes : TplNodes) → parse_inner keep two_else fuel 0 [] nodes ≡ unfinished
unfolding parse_inner parse_tag parse_if parse_else parse_end add_text append_node index_of
    starts_with str_eq
two_else-unfinished zero nodes = refl
two_else-unfinished (suc zero) nodes = refl
two_else-unfinished (suc (suc zero)) nodes = refl
two_else-unfinished (suc (suc (suc zero))) nodes = refl
two_else-unfinished (suc (suc (suc (suc fuel)))) nodes =
    two_else-unfinished (suc (suc (suc fuel)))
      (append_node nodes (TplNode.if_block (codes "a") no_nodes no_nodes))
