-- ===== src/Graph/Validate/Report.antt =====
-- ValidationResult of engine/graph/validate.go, and the loops and tests that fill it. The human text of an
-- entry is not modelled; the field that it points to is a list of pieces, joined in the source by Sprintf.
use Prim.Native.String.{String}
use brockleyai.Prelude.{
  ℕ, ◌+◌, ◌≡◌, refl, Bool, true, false, List, [], ◌∷◌, ◌++◌, Str, if◌then◌else◌, All, Bool-cases,
  inl, inr,
}

pub data Piece : Type 0 where
  text : String → Piece
  number : ℕ → Piece
  name : Str → Piece

abbrev pub Field : Type 0
Field = List Piece

pub record ValidationError : Type 0 where
  pub code : String
  pub node_id : Str
  pub edge_id : Str
  pub field : Field

pub record Report : Type 0 where
  pub valid : Bool
  pub errors : List ValidationError
  pub warnings : List ValidationError

abbrev pub fresh : Report
fresh = record { valid = true; errors = []; warnings = [] }

unfoldable pub add_error : String → Str → Str → Field → Report → Report
add_error code node_id edge_id field r = record r {
  valid = false;
  errors =
      r.errors ++ record { code = code; node_id = node_id; edge_id = edge_id; field = field } ∷ [];
}

unfoldable pub add_warning : String → Str → Report → Report
add_warning code node_id r = record r {
  warnings = r.warnings ++ record { code = code; node_id = node_id; edge_id = []; field = [] } ∷ [];
}

-- `if bad { v.addError(...) }`
unfoldable pub error_if : Bool → String → Str → Str → Field → Report → Report
unfolding add_error
error_if bad code node_id edge_id field r =
    if bad then add_error code node_id edge_id field r else r

unfoldable pub warn_if : Bool → String → Str → Report → Report
unfolding add_warning
warn_if bad code node_id r = if bad then add_warning code node_id r else r

-- `for _, x := range xs`, and with the index `i`
unfoldable pub for_each {ℓ} : {A : Type ℓ} → (A → Report → Report) → List A → Report → Report
for_each body [] r = r
for_each body (x ∷ xs) r = for_each body xs (body x r)

unfoldable pub for_each_at {ℓ} :
    {A : Type ℓ} → (ℕ → A → Report → Report) → ℕ → List A → Report → Report
for_each_at body i [] r = r
for_each_at body i (x ∷ xs) r = for_each_at body (i + 1) xs (body i x r)

-- A check whose report is valid was given a valid report, and found what it looks for.
abbrev pub Demands {κ} : (Report → Report) → Type κ → Type κ
Demands check P = (r : Report) → (check r).valid ≡ true → (r.valid ≡ true) × P

-- A check that never makes a report valid.
abbrev pub IsStrict : (Report → Report) → Type 0
IsStrict check = (r : Report) → r.valid ≡ false → (check r).valid ≡ false

pub valid_before :
    (check : Report → Report)
    → IsStrict check
    → (r : Report) → (check r).valid ≡ true
    → r.valid ≡ true
valid_before check strict r h = elim (Bool-cases r.valid) [
  | inl valid ↦ valid
  | inr invalid ↦ let bad = strict r invalid in cc
]

pub error_if-Demands :
    (bad : Bool) (code : String) (node_id edge_id : Str) (field : Field)
    → Demands (error_if bad code node_id edge_id field) (bad ≡ false)
unfolding error_if
error_if-Demands true code node_id edge_id field r h = cc
error_if-Demands false code node_id edge_id field r h = (h, refl)

pub add_error-IsStrict :
    (code : String) (node_id edge_id : Str) (field : Field)
    → IsStrict (add_error code node_id edge_id field)
unfolding add_error
add_error-IsStrict code node_id edge_id field r h = refl

pub add_error-invalid :
    (code : String) (node_id edge_id : Str) (field : Field) (r : Report)
    → (add_error code node_id edge_id field r).valid ≡ false
unfolding add_error
add_error-invalid code node_id edge_id field r = refl

pub error_if-IsStrict :
    (bad : Bool) (code : String) (node_id edge_id : Str) (field : Field)
    → IsStrict (error_if bad code node_id edge_id field)
unfolding error_if
error_if-IsStrict true code node_id edge_id field r h = refl
error_if-IsStrict false code node_id edge_id field r h = h

pub warn_if-IsStrict :
    (bad : Bool) (code : String) (node_id : Str) → IsStrict (warn_if bad code node_id)
unfolding warn_if
warn_if-IsStrict true code node_id r h = h
warn_if-IsStrict false code node_id r h = h

pub if-invalid :
    (b : Bool) (x y : Report)
    → x.valid ≡ false
    → y.valid ≡ false
    → (if b then x else y).valid ≡ false
if-invalid true x y p q = p
if-invalid false x y p q = q

pub Demands-then {κ μ} :
    {P : Type κ} {Q : Type μ} (first second : Report → Report)
    → Demands first P
    → Demands second Q
    → Demands (λ r. second (first r)) (P × Q)
Demands-then first second p q r h =
    let (middle, found) = q (first r) h in
    let (start, found') = p r middle in (start, (found', found))

module _ {ℓ κ} {A : Type ℓ} (P : A → Type κ) where
  pub for_each-Demands :
      (body : A → Report → Report) (xs : List A)
      → ((x : A) → Demands (body x) (P x))
      → Demands (for_each body xs) (All P xs)
  unfolding for_each
  for_each-Demands body [] k r h = (h, tt)
  for_each-Demands body (x ∷ xs) k r h =
      let (middle, later) = for_each-Demands body xs k (body x r) h in
      let (start, now) = k x r middle in (start, (now, later))

  pub for_each_at-Demands :
      (body : ℕ → A → Report → Report) (i : ℕ) (xs : List A)
      → ((i : ℕ) (x : A) → Demands (body i x) (P x))
      → Demands (for_each_at body i xs) (All P xs)
  unfolding for_each_at
  for_each_at-Demands body i [] k r h = (h, tt)
  for_each_at-Demands body i (x ∷ xs) k r h =
      let (middle, later) = for_each_at-Demands body (i + 1) xs k (body i x r) h in
      let (start, now) = k i x r middle in (start, (now, later))

pub if-IsStrict :
    (b : Bool) (f g : Report → Report) → IsStrict f → IsStrict g → IsStrict (if b then f else g)
if-IsStrict true f g p q = p
if-IsStrict false f g p q = q

module _ {ℓ} {A : Type ℓ} where
  pub for_each-IsStrict :
      (body : A → Report → Report) (xs : List A)
      → ((x : A) → IsStrict (body x))
      → IsStrict (for_each body xs)
  unfolding for_each
  for_each-IsStrict body [] k r h = h
  for_each-IsStrict body (x ∷ xs) k r h = for_each-IsStrict body xs k (body x r) (k x r h)

  pub for_each_at-IsStrict :
      (body : ℕ → A → Report → Report) (i : ℕ) (xs : List A)
      → ((i : ℕ) (x : A) → IsStrict (body i x))
      → IsStrict (for_each_at body i xs)
  unfolding for_each_at
  for_each_at-IsStrict body i [] k r h = h
  for_each_at-IsStrict body i (x ∷ xs) k r h =
      for_each_at-IsStrict body (i + 1) xs k (body i x r) (k i x r h)

-- For goals `(check r).valid ≡ false`, read backwards.
pub ruleset strictness = (add_error-IsStrict, error_if-IsStrict, warn_if-IsStrict, if-invalid)
