-- ===== src/Orchestrator/Conditions.antt =====
-- EvalCondition of engine/orchestrator/orchestrator.go, which decides whether a back-edge is followed, and
-- the two tests of truth in the engine.
use brockleyai.Prelude.{
  Str, ℕ, ◌≡◌, refl, Bool, true, false, not, Option, none, pos, is_zero, [], ◌∷◌, arith,
}
use brockleyai.Value.{
  Value, Entries, nil, bool, int, int64, float, str, arr, obj, no_items, item, no_entries, entry,
}
use brockleyai.Expression.Values
use brockleyai.Expression.Values.{Library}
use brockleyai.Expression.Outcome.{Outcome, evaluated, ◌>>=◌}
use brockleyai.Expression.Eval.{eval}
use brockleyai.Orchestrator.Ports.{is_truthy}

module _ {F : Type 0} (lib : Library F) where
  unfoldable pub eval_condition : ℕ → Str → Option (Entries F) → Option (Entries F) → Outcome Bool
  unfolding eval is_truthy
  eval_condition fuel condition inputs state =
      eval lib fuel condition
        (record { input = inputs; state = state; meta = none; vars = λ _. none })
      >>= λ v. evaluated (is_truthy v)

  -- The values on which the two tests of truth differ.
  abbrev pub is_disputed : Value F → Bool
  is_disputed (int n) = is_zero n
  is_disputed (int64 n) = is_zero n
  is_disputed (float x) = lib.eq x (lib.of_int (pos 0))
  is_disputed (obj no_entries) = true
  is_disputed _ = false

  abbrev pub differ : Bool → Bool → Bool
  differ true b = not b
  differ false b = b

  -- The conditions of back-edges and those inside expressions and conditional nodes take the same values for
  -- true, but for a number that is 0 and an empty object.
  pub is_truthy-differ :
      (v : Value F) → differ (is_truthy v) (Values.is_truthy lib v) ≡ is_disputed v
  unfolding is_truthy Values.is_truthy
  is_truthy-differ nil = refl
  is_truthy-differ (bool true) = refl
  is_truthy-differ (bool false) = refl
  is_truthy-differ (str []) = refl
  is_truthy-differ (str (c ∷ s)) = ground arith
  is_truthy-differ (int n) = ground arith
  is_truthy-differ (int64 n) = ground arith
  is_truthy-differ (float x) = ground arith
  is_truthy-differ (arr no_items) = ground arith
  is_truthy-differ (arr (item v vs)) = ground arith
  is_truthy-differ (obj no_entries) = refl
  is_truthy-differ (obj (entry k v es)) = refl
  is_truthy-differ (Value.lambda param body) = refl
