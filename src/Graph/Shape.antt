-- ===== src/Graph/Shape.antt =====
-- What the theorems about execution order say of a graph: its node identifiers, its forward edges
-- and rankings of them.
use brockleyai.Prelude.{
  ℕ, suc, ◌+◌, ◌<◌, ◌≡◌, false, List, [], ◌∷◌, ◌++◌, map, arith, Str, str_eq, if◌then◌else◌, count,
  mem, In, IsDistinct, length, not, ◌&&◌,
}
use brockleyai.Model.{Node, Edge, Graph}

abbrev pub ids : Graph → List Str
ids g = map (λ (n : Node). n.id) g.nodes

-- A forward edge of the graph.
pub record IsForward (g : Graph) (e : Edge) : Type 0 where
  pub listed : In e g.edges
  pub forward : e.back_edge ≡ false

-- No identifier is given to two nodes, and every forward edge joins two nodes.
pub record IsWired (g : Graph) : Type 0 where
  pub distinct : IsDistinct (ids g)
  pub source_known : (e : Edge) → IsForward g e → 0 < count e.source_node_id (ids g)
  pub target_known : (e : Edge) → IsForward g e → 0 < count e.target_node_id (ids g)

-- Each forward edge leads to a higher rank, so the forward edges close no cycle.
abbrev pub IsRanking : Graph → (Str → ℕ) → Type 0
IsRanking g rank = (e : Edge) → IsForward g e → rank e.source_node_id < rank e.target_node_id

-- The place of the first occurrence, or the length of the list.
abbrev pub index : Str → List Str → ℕ
index a [] = 0
index a (x ∷ xs) = if str_eq a x then 0 else suc (index a xs)

pub index-append_mem :
    (a : Str) (xs ys : List Str) → 0 < count a xs → index a (xs ++ ys) ≡ index a xs
index-append_mem a [] ys h = absurd (omega arith)
index-append_mem a (x ∷ xs) ys h = ground (arith, index-append_mem a xs ys)

pub index-append_new :
    (a : Str) (xs ys : List Str) → count a xs ≡ 0 → index a (xs ++ ys) ≡ length xs + index a ys
index-append_new a [] ys h = omega arith
index-append_new a (x ∷ xs) ys h = ground (arith, index-append_new a xs ys)

pub index-lt_length : (a : Str) (xs : List Str) → 0 < count a xs → index a xs < length xs
index-lt_length a [] h = absurd (omega arith)
index-lt_length a (x ∷ xs) h = ground (arith, index-lt_length a xs)

-- The targets of the forward edges from a node, in the order of the edges.
abbrev pub targets : Str → List Edge → List Str
targets s [] = []
targets s (e ∷ es) =
    if not e.back_edge && str_eq s e.source_node_id
    then e.target_node_id ∷ targets s es
    else targets s es

-- How many forward edges lead to a node from nodes outside `order`.
abbrev pub remaining : List Str → List Edge → Str → ℕ
remaining order [] t = 0
remaining order (e ∷ es) t =
    if (not e.back_edge && str_eq t e.target_node_id) && not (mem e.source_node_id order)
    then suc (remaining order es t)
    else remaining order es t
