-- ===== src/Common/Dict.antt =====
-- Go's `map[string]V` as an association list. A map is read only through `lookup`, so the order
-- of its entries says nothing.
use Prim.Native.String.{String}
use mathlib.Core.Path.{◌≡◌, refl}
use mathlib.Core.Bool.{Bool}
use mathlib.Core.Option.{Option, none, some}
use mathlib.Core.List.{List, [], ◌∷◌}
use native.Mathlib.Omega.{arith}
use text.Mathlib.Text.{◌==◌}
use text.Mathlib.TextEquality.{eq_iff}
use otterscale_operator.Common.Tests.{if◌then◌else◌}

abbrev pub Dict {ℓ} : Type ℓ → Type ℓ
Dict V = List (String × V)

module _ {ℓ} {V : Type ℓ} where
  -- `for k := range m { if test(k) { delete(m, k) } }`
  unfoldable pub delete_where : (String → Bool) → Dict V → Dict V
  delete_where test [] = []
  delete_where test ((j, w) ∷ m) =
      let rest = delete_where test m in if test j then rest else (j, w) ∷ rest

  -- `m[k] = v`
  unfoldable pub insert : String → V → Dict V → Dict V
  unfolding delete_where
  insert key value entries = (key, value) ∷ delete_where (λ other. other == key) entries

  -- `m[k]`
  unfoldable pub lookup : String → Dict V → Option V
  lookup key [] = none
  lookup key (entry ∷ entries) =
      let later = lookup key entries in if entry.0 == key then some entry.1 else later

  -- `delete(m, k)`
  unfoldable pub delete : String → Dict V → Dict V
  unfolding delete_where
  delete k = delete_where (λ j. j == k)

  -- `maps.Copy(m, src)`
  unfoldable pub copy : Dict V → Dict V → Dict V
  unfolding insert
  copy m [] = m
  copy m ((j, w) ∷ src) = insert j w (copy m src)

  abbrev pub or_else : Option V → Option V → Option V
  or_else none b = b
  or_else (some a) b = some a

  pub lookup-delete_where :
      (test : String → Bool) (j : String) (m : Dict V)
      → lookup j (delete_where test m) ≡ (if test j then none else lookup j m)
  unfolding lookup delete_where
  lookup-delete_where test j [] = ground arith
  lookup-delete_where test j ((i, w) ∷ m) = ground (arith, eq_iff i j, lookup-delete_where test j m)

  pub lookup-insert :
      (key other : String) (value : V) (entries : Dict V)
      → lookup other (insert key value entries)
        ≡ (if key == other then some value else lookup other entries)
  unfolding lookup insert
  lookup-insert key other value entries =
      ground (
        arith,
        eq_iff key other,
        eq_iff other key,
        lookup-delete_where (λ j. j == key) other entries,
      )

  pub lookup-delete :
      (k j : String) (m : Dict V) → lookup j (delete k m) ≡ (if j == k then none else lookup j m)
  unfolding delete
  lookup-delete k j m = lookup-delete_where (λ i. i == k) j m

  pub lookup-copy :
      (j : String) (m src : Dict V) → lookup j (copy m src) ≡ or_else (lookup j src) (lookup j m)
  unfolding lookup copy
  lookup-copy j m [] = refl
  lookup-copy j m ((i, w) ∷ src) =
      ground (arith, lookup-insert i j w (copy m src), lookup-copy j m src)

pub ruleset dict_laws = (lookup-insert, lookup-delete_where, lookup-delete, lookup-copy)
