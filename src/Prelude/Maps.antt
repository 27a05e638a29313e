-- ===== src/Prelude/Maps.antt =====
-- Go's maps with text keys, as association lists. A `range` over a map visits the entries in an
-- order that the language leaves open; the list's order stands for it, so a theorem about every
-- list holds for every order.
use Prim.Native.String.{String}
use mathlib.Core.Path.{◌≡◌, refl}
use mathlib.Core.Option.{Option, none, some}
use mathlib.Core.List.{List, [], ◌∷◌}
use native.Mathlib.Omega.{arith}
use text.Mathlib.Text.{◌==◌}
use text.Mathlib.TextEquality.{eq_iff}
use text.Mathlib.TextPositions.{eq_refl}
use edp_codebase_operator.Prelude.Tests.{if◌then◌else◌}

abbrev pub Dict {ℓ} : Type ℓ → Type ℓ
Dict V = List (String × V)

module _ {ℓ} {V : Type ℓ} where
  -- `v, ok := m[k]`
  unfoldable pub lookup : (key : String) → Dict V → Option V
  lookup key [] = none
  lookup key (entry ∷ entries) = if entry.0 == key then some (entry.1) else lookup key entries

  -- `m[k] = v`
  unfoldable pub insert : (key : String) → V → Dict V → Dict V
  insert key value [] = (key, value) ∷ []
  insert key value (entry ∷ entries) =
      let rest = insert key value entries in
      if entry.0 == key then (key, value) ∷ entries else entry ∷ rest

  -- `delete(m, k)`
  unfoldable pub remove : (key : String) → Dict V → Dict V
  remove key [] = []
  remove key (entry ∷ entries) =
      let rest = remove key entries in if entry.0 == key then rest else entry ∷ rest

  pub lookup-insert :
      (written read : String) (value : V) (entries : Dict V)
      → lookup read (insert written value entries)
        ≡ (if written == read then some value else lookup read entries)
  unfolding lookup insert
  lookup-insert written read value [] = refl
  lookup-insert written read value (entry ∷ entries) = ground (
    arith,
    lookup-insert written read value entries,
    eq_iff written read,
    eq_iff (entry.0) written,
    eq_iff (entry.0) read,
  )

  pub lookup-remove :
      (removed read : String) (entries : Dict V)
      → lookup read (remove removed entries)
        ≡ (if removed == read then none else lookup read entries)
  unfolding lookup remove
  lookup-remove removed read [] = ground arith
  lookup-remove removed read (entry ∷ entries) = ground (
    arith,
    lookup-remove removed read entries,
    eq_iff removed read,
    eq_iff (entry.0) removed,
    eq_iff (entry.0) read,
  )

  pub lookup-insert_self : (k : String) (v : V) (m : Dict V) → lookup k (insert k v m) ≡ some v
  lookup-insert_self k v m = simp (lookup-insert, eq_refl)

-- `m[k]` of a map to texts: the zero value where the key is missing.
abbrev pub text_or_empty : Option String → String
text_or_empty none = ""
text_or_empty (some v) = v

unfoldable pub get_or_empty : String → Dict String → String
get_or_empty k m = text_or_empty (lookup k m)

pub ruleset dict_laws = (lookup-insert, lookup-remove, eq_refl)
