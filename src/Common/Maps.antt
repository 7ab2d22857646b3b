-- ===== src/Common/Maps.antt =====
-- `map[string]V` as an association list. The order of the list stands for the order in which a
-- `range` loop happens to visit the map, which Go leaves open.
use Prim.Native.String.{String}
use mathlib.Core.Path.{◌≡◌, refl}
use mathlib.Core.Option.{Option, none, some}
use mathlib.Core.List.{List, [], ◌∷◌}
use native.Mathlib.Omega.{arith}
use text.Mathlib.Text.{◌==◌}
use text.Mathlib.TextEquality.{eq_iff}
use mathlib.Core.Bool.{Bool, true, not}
use knl.Common.Tests.{if◌then◌else◌, is_nil}

abbrev pub Map {ℓ} : Type ℓ → Type ℓ
Map V = List (String × V)

module _ {ℓ} {V : Type ℓ} where
  -- `v, ok := m[k]`
  unfoldable pub lookup : String → Map V → Option V
  lookup k [] = none
  lookup k ((j, v) ∷ m) = if j == k then some v else lookup k m

  -- `rest[name] = val`
  unfoldable pub insert : String → V → Map V → Map V
  insert name val [] = (name, val) ∷ []
  insert name val ((entry, old) ∷ rest) =
      if entry == name then (name, val) ∷ rest else (entry, old) ∷ insert name val rest

  unfoldable pub keys : Map V → List String
  keys [] = []
  keys ((k, v) ∷ m) = k ∷ keys m

  pub lookup-insert :
      (name wanted : String) (val : V) (rest : Map V)
      → lookup wanted (insert name val rest)
        ≡ (if name == wanted then some val else lookup wanted rest)
  unfolding lookup insert
  lookup-insert name wanted val [] = refl
  lookup-insert name wanted val ((entry, old) ∷ rest) = ground (
    arith,
    eq_iff name wanted,
    eq_iff entry name,
    eq_iff entry wanted,
    lookup-insert name wanted val rest,
  )

  -- `_, ok := m[k]`
  abbrev pub has_key : String → Map V → Bool
  has_key k m = not (is_nil (lookup k m))

  pub has_key-insert :
      (k j : String) (v : V) (m : Map V)
      → has_key j (insert k v m) ≡ (if k == j then true else has_key j m)
  has_key-insert k j v m = ground (arith, lookup-insert k j v m)

  pub keys-insert :
      (k : String) (v : V) (m : Map V) → has_key k m ≡ true → keys (insert k v m) ≡ keys m
  unfolding lookup insert keys
  keys-insert k v [] h = cc
  keys-insert k v ((i, w) ∷ m) h = ground (arith, eq_iff i k, keys-insert k v m)

pub has_key-keys {ℓ κ} :
    {V : Type ℓ} {W : Type κ} (k : String) (m : Map V) (n : Map W)
    → keys m ≡ keys n
    → has_key k m ≡ has_key k n
unfolding lookup keys
has_key-keys k [] [] h = refl
has_key-keys k [] ((j, w) ∷ n) h = cc
has_key-keys k ((i, v) ∷ m) [] h = cc
has_key-keys k ((i, v) ∷ m) ((j, w) ∷ n) h = ground (arith, has_key-keys k m n)
