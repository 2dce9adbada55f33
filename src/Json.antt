-- ===== src/Json.antt =====
-- A decoded JSON document, as `json.Unmarshal` gives it for an `any`: objects list their members in some
-- order, each key once. Numbers keep their text.
use brockleyai.Prelude.{Str, str_eq, Bool, true, false, Option, none, some, if◌then◌else◌}

mutual
  pub data Json : Type 0 where
    null : Json
    bool : Bool → Json
    num : Str → Json
    str : Str → Json
    arr : Items → Json
    obj : Members → Json

  pub data Items : Type 0 where
    no_items : Items
    item : Json → Items → Items

  pub data Members : Type 0 where
    no_members : Members
    member : Str → Json → Members → Members

-- `v, ok := m[key]`
unfoldable pub get : Str → Members → Option Json
get key no_members = none
get key (member k v ms) = if str_eq key k then some v else get key ms

unfoldable pub has : Str → Members → Bool
unfolding get
has key ms = elim (get key ms) [ none ↦ false | some _ ↦ true ]
