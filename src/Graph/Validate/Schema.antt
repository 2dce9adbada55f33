-- ===== src/Graph/Validate/Schema.antt =====
-- validateStrongTyping and validateReducerCompat of engine/graph/validate.go. A schema inside a schema is
-- encoded and decoded again by the source; here it is read as it stands.
use brockleyai.Prelude.{
  ℕ, Bool, true, false, not, ◌||◌, Option, none, some, [], ◌∷◌, ◌++◌, Str, str_eq, codes,
  if◌then◌else◌,
}
use brockleyai.Json.{Json, null, str, obj, Members, no_members, member, get, has}
use brockleyai.Model.{StateField}
use brockleyai.Graph.Validate.Report.{Report, Field, text, number, name, add_error, error_if}

-- `typ, _ := s["type"].(string)`
unfoldable pub type_of : Members → Str
unfolding get
type_of ms = elim (get (codes "type") ms) [ some (str t) ↦ t | _ ↦ [] ]

-- The kinds that the `switch` tells apart.
pub data Kind : Type 0 where
  object array scalar untyped other : Kind

unfoldable pub kind_of : Str → Kind
kind_of t =
    if str_eq t (codes "object")
    then object
    else if str_eq t (codes "array")
    then array
    else if str_eq t (codes "string")
        || str_eq t (codes "integer")
        || str_eq t (codes "number")
        || str_eq t (codes "boolean")
    then scalar
    else if str_eq t []
    then untyped
    else other

module _ (node_id : Str) where
  -- The walk over the members of an object that are read: `properties`, `items`.
  unfoldable mutual
    pub validate_json : Field → Json → Report → Report
    validate_json field null r = add_error "MISSING_TYPE" node_id [] field r
    validate_json field (obj ms) r = elim (kind_of (type_of ms)) [
      | object ↦ elim (has (codes "properties") ms) [
        | false ↦
            error_if (not (has (codes "oneOf") ms || has (codes "anyOf") ms)) "SCHEMA_VIOLATION"
              node_id [] field r
        | true ↦ validate_member (codes "properties") field ms r
      ]
      | array ↦ elim (has (codes "items") ms) [
        | false ↦ add_error "SCHEMA_VIOLATION" node_id [] field r
        | true ↦ validate_member (codes "items") field ms r
      ]
      | scalar ↦ r
      | untyped ↦
          error_if (not (has (codes "oneOf") ms || has (codes "anyOf") ms || has (codes "enum") ms))
            "MISSING_TYPE" node_id [] field r
      | other ↦ r
    ]
    validate_json field _ r = add_error "INVALID_SCHEMA" node_id [] field r

    -- The schema under a key: that of the elements, or those of the properties.
    pub validate_member : Str → Field → Members → Report → Report
    validate_member key field no_members r = r
    validate_member key field (member k v ms) r = elim (str_eq key k) [
      | true ↦ elim (str_eq key (codes "items")) [
        | true ↦ validate_json (field ++ text ".items" ∷ []) v r
        | false ↦ validate_properties field v r
      ]
      | false ↦ validate_member key field ms r
    ]

    pub validate_properties : Field → Json → Report → Report
    validate_properties field (obj props) r = validate_each field props r
    validate_properties field _ r = r

    pub validate_each : Field → Members → Report → Report
    validate_each field no_members r = r
    validate_each field (member k v ms) r =
        validate_each field ms (validate_json (field ++ text ".properties." ∷ name k ∷ []) v r)

-- What `json.Unmarshal` into a map makes of a schema's text: `none` is a syntax error. A document that is
-- no object and not null is an error too.
abbrev pub Unmarshal : Type 0
Unmarshal = Str → Option Json

module _ (unmarshal : Unmarshal) where
  unfoldable pub validate_strong_typing : Str → Field → Str → Report → Report
  unfolding validate_json
  validate_strong_typing node_id field schema r = elim (unmarshal schema) [
    | none ↦ add_error "INVALID_SCHEMA" node_id [] field r
    | some j ↦ validate_json node_id field j r
  ]

  -- The type of a field's schema; `none` where the schema does not decode to a map.
  unfoldable pub schema_type : Str → Option Str
  unfolding type_of
  schema_type schema = elim (unmarshal schema) [
    | some (obj ms) ↦ some (type_of ms)
    | some null ↦ some []
    | _ ↦ none
  ]

  unfoldable pub is_compatible : StateField → Bool
  unfolding schema_type
  is_compatible f = elim (schema_type f.schema) [
    | none ↦ true
    | some t ↦
        if str_eq f.reducer (codes "append")
        then str_eq t (codes "array")
        else if str_eq f.reducer (codes "merge")
        then str_eq t (codes "object")
        else true
  ]

  unfoldable pub validate_reducer_compat : StateField → ℕ → Report → Report
  unfolding is_compatible error_if
  validate_reducer_compat f idx r =
      error_if (not (is_compatible f)) "REDUCER_INCOMPATIBLE" [] []
        (text "state.fields[" ∷ number idx ∷ text "].reducer" ∷ []) r
