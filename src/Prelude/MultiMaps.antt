-- ===== src/Prelude/MultiMaps.antt =====
-- Go's `m[k] = append(m[k], v)` on a map of slices, for any type of keys with a decidable equality.
use Prim.Native.String.{String}
use mathlib.Core.Path.{◌≡◌}
use mathlib.Core.Logic.{◌↔◌}
use mathlib.Core.Bool.{Bool, true}
use mathlib.Core.List.{List, [], ◌∷◌, ◌++◌}
use native.Mathlib.Omega.{arith}
use text.Mathlib.Text.{◌==◌}
use text.Mathlib.TextEquality.{eq_iff}
use edp_codebase_operator.Prelude.Tests.{if◌then◌else◌}

pub record Key (K : Type 0) : Type 0 where
  pub key_eq : K → K → Bool
  pub key_eq_iff : (a b : K) → (key_eq a b ≡ true) ↔ (a ≡ b)

instance abbrev pub string_key : Key String
string_key = record { key_eq = ◌==◌; key_eq_iff = eq_iff }

abbrev pub MultiMap : Type 0 → Type 0 → Type 0
MultiMap K V = List (K × List V)

module _ {K V : Type 0} ⦃key : Key K⦄ where
  -- `m[k]`, which is nil where the key is missing
  unfoldable pub values_at : K → MultiMap K V → List V
  values_at k [] = []
  values_at k ((j, vs) ∷ m) = if key.key_eq j k then vs else values_at k m

  -- `m[k] = append(m[k], v)`
  unfoldable pub append_at : K → V → MultiMap K V → MultiMap K V
  append_at k v [] = (k, v ∷ []) ∷ []
  append_at k v ((j, vs) ∷ m) =
      if key.key_eq j k then (j, vs ++ v ∷ []) ∷ m else (j, vs) ∷ append_at k v m

  pub values_at-append_at :
      (k j : K) (v : V) (m : MultiMap K V)
      → values_at j (append_at k v m)
        ≡ (if key.key_eq k j then values_at j m ++ v ∷ [] else values_at j m)
  unfolding values_at append_at
  values_at-append_at k j v [] = ground arith
  values_at-append_at k j v ((i, vs) ∷ m) = ground (
    arith,
    values_at-append_at k j v m,
    key.key_eq_iff k j,
    key.key_eq_iff i k,
    key.key_eq_iff i j,
  )
