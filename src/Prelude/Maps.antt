-- ===== src/Prelude/Maps.antt =====
-- A Go map with string keys as the function that a read computes: a missing key gives the zero
-- value (`Option` where the source asks `v, ok := m[k]`).
use mathlib.Core.Path.{◌≡◌}
use brockleyai.Prelude.Tests.{if◌then◌else◌}
use brockleyai.Prelude.Text.{Str, str_eq, str_eq_refl}

module _ {ℓ} {V : Type ℓ} where
  -- `m[k] = v`
  abbrev pub update : (Str → V) → Str → V → Str → V
  update m k v j = if str_eq j k then v else m j

  pub update_self : (m : Str → V) (k : Str) (v : V) → update m k v k ≡ v
  update_self m k v = rw (str_eq_refl k)
