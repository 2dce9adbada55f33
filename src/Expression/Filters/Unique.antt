-- ===== src/Expression/Filters/Unique.antt =====
-- The filter unique keeps one item for each text that the items print as.
use brockleyai.Prelude.{Str, List, [], ◌∷◌}
use brockleyai.Value.{Items, no_items, item}
use brockleyai.Expression.Values.{Library}

module _ {F : Type 0} (lib : Library F) where
  abbrev pub prints : Items F → List Str
  prints no_items = []
  prints (item v vs) = lib.sprint v ∷ prints vs
