-- ===== src/Executors/Transform/Outputs.antt =====
-- What a transform node puts on its ports.
use brockleyai.Prelude.{
  Str, str_eq, eq_of_str_eq, str_eq_refl, ℕ, ◌≡◌, refl, ap, ◌∙◌, Bool, Bool-cases, inl, inr, true,
  false, ◌||◌, Option, none, some, List, [], ◌∷◌, if◌then◌else◌,
}
use brockleyai.Value.{Value, Entries, no_entries, entry}
use brockleyai.Expression.Values.{Library, find_key, put_key}
use brockleyai.Expression.Outcome.{Context, evaluated}
use brockleyai.Expression.Eval.{eval}
use brockleyai.Executors.Conditional.{NodeContext, expr_context}
use brockleyai.Executors.Transform.{OutputExpression, transform_outputs, execute_transform}

abbrev pub is_named : Str → List OutputExpression → Bool
is_named name [] = false
is_named name (e ∷ es) = is_named name es || str_eq e.name name

unlike : (k j name : Str) → str_eq j k ≡ false → str_eq j name ≡ true → str_eq k name ≡ false
unlike k j name other found = elim (Bool-cases (str_eq k name)) [
  | inr differ ↦ differ
  | inl same ↦
      absurd (cc (eq_of_str_eq k name same, eq_of_str_eq j name found, str_eq_refl j, other))
]

find_key-put_key :
    {F : Type 0} (name k : Str) (v : Value F) (es : Entries F)
    → find_key name (put_key k v es) ≡ (if str_eq k name then some v else find_key name es)
unfolding find_key put_key
find_key-put_key name k v no_entries = refl
find_key-put_key name k v (entry j w es) = elim (Bool-cases (str_eq j k)) [
  | inl same ↦ rw same (
      rw (eq_of_str_eq j k same)
        (elim (Bool-cases (str_eq k name)) [ inl found ↦ rw found refl | inr lost ↦ rw lost refl ]))
  | inr other ↦
      rw (other, find_key-put_key name k v es)
        (elim (Bool-cases (str_eq j name)) [
          | inl found ↦ rw (found, unlike k j name other found) refl
          | inr lost ↦ rw lost refl
        ])
]

module _ {F : Type 0} (lib : Library F) (fuel : ℕ) where
  -- Each expression evaluates to the value of its port.
  abbrev pub HasValues : Context F → (Str → Value F) → List OutputExpression → Type 0
  HasValues ctx value [] = Unit
  HasValues ctx value (e ∷ es) =
      (eval lib fuel e.expression ctx ≡ evaluated (value e.name)) × HasValues ctx value es

  abbrev pub port_value :
      (Str → Value F) → List OutputExpression → Entries F → Str → Option (Value F)
  port_value value es outputs name =
      if is_named name es then some (value name) else find_key name outputs

  port_value-cons :
      (value : Str → Value F) (e : OutputExpression) (es : List OutputExpression)
      (outputs : Entries F) (name : Str)
      → port_value value es (put_key e.name (value e.name) outputs) name
        ≡ port_value value (e ∷ es) outputs name
  port_value-cons value e es outputs name =
      rw (find_key-put_key name e.name (value e.name) outputs)
        (elim (Bool-cases (is_named name es)) [
          | inl among ↦ rw among refl
          | inr apart ↦ rw apart (elim (Bool-cases (str_eq e.name name)) [
            | inl same ↦ rw same (ap (λ n. some (value n)) (eq_of_str_eq e.name name same))
            | inr other ↦ rw other refl
          ])
        ])

  transform_outputs_lem :
      (ctx : Context F) (value : Str → Value F) (es : List OutputExpression) (outputs : Entries F)
      → HasValues ctx value es
      → (outs : Entries F) × (transform_outputs lib fuel ctx es outputs ≡ evaluated outs)
        × ((name : Str) → find_key name outs ≡ port_value value es outputs name)
  unfolding transform_outputs
  transform_outputs_lem ctx value [] outputs h = (outputs, refl, λ name. refl)
  transform_outputs_lem ctx value (e ∷ es) outputs h =
      let (outs, ran, ports) =
        transform_outputs_lem ctx value es (put_key e.name (value e.name) outputs) h.1 in
      (outs, rw (h.0) ran, λ name. ports name ∙ port_value-cons value e es outputs name)

  -- Where each expression of a transform node evaluates to a value, in whatever order they are visited, the node
  -- ends, with that value on the port of each expression and no other port.
  pub execute_transform_lem :
      (es : List OutputExpression) (inputs : Entries F) (nctx : Option (NodeContext F))
      (value : Str → Value F)
      → HasValues (expr_context inputs nctx) value es
      → (outs : Entries F) × (execute_transform lib fuel es inputs nctx ≡ evaluated outs)
        × ((name : Str)
            → find_key name outs ≡ (if is_named name es then some (value name) else none))
  unfolding execute_transform find_key
  execute_transform_lem es inputs nctx value h =
      transform_outputs_lem (expr_context inputs nctx) value es no_entries h
