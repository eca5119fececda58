-- ===== src/Base/Dict.antt =====
-- A Go map with string keys. Clients that only read and write use the laws; the entries show where
-- the program ranges over a map, in an order that Go leaves open.
use mathlib.Core.Path.{◌≡◌, refl}
use mathlib.Core.Bool.{true}
use mathlib.Core.List.{List, [], ◌∷◌}
use mathlib.Core.Option.{Option, none, some}
use native.Mathlib.Omega.{arith}
use slimwhats.Base.Tests.{if◌then◌else◌}
use slimwhats.Base.Text.{Bytes, str_eq, str_eq_iff}

abbrev pub Dict {ℓ} : Type ℓ → Type ℓ
Dict V = List (Bytes × V)

module _ {ℓ} {V : Type ℓ} where
  -- `v, ok := m[k]`
  unfoldable pub lookup : Bytes → Dict V → Option V
  lookup k [] = none
  lookup k ((j, v) ∷ m) = if str_eq j k then some v else lookup k m

  -- `delete(m, k)`
  unfoldable pub remove : Bytes → Dict V → Dict V
  remove k [] = []
  remove k ((j, v) ∷ m) = let rest = remove k m in if str_eq j k then rest else (j, v) ∷ rest

  -- `m[k] = v`
  unfoldable pub insert : Bytes → V → Dict V → Dict V
  insert k v [] = (k, v) ∷ []
  insert k v ((j, w) ∷ m) =
      let rest = insert k v m in if str_eq j k then (k, v) ∷ m else (j, w) ∷ rest

  pub lookup-remove :
      (k j : Bytes) (m : Dict V) → lookup j (remove k m) ≡ (if str_eq k j then none else lookup j m)
  unfolding lookup remove
  lookup-remove k j [] = ground arith
  lookup-remove k j ((i, v) ∷ m) =
      ground (arith, lookup-remove k j m, str_eq_iff i k, str_eq_iff i j, str_eq_iff k j)

  pub lookup-insert :
      (k j : Bytes) (v : V) (m : Dict V)
      → lookup j (insert k v m) ≡ (if str_eq k j then some v else lookup j m)
  unfolding lookup insert
  lookup-insert k j v [] = refl
  lookup-insert k j v ((i, w) ∷ m) =
      ground (arith, lookup-insert k j v m, str_eq_iff i k, str_eq_iff i j, str_eq_iff k j)

module _ {ℓ} {V : Type ℓ} where
  pub insert-insert : (k : Bytes) (v w : V) (m : Dict V) → insert k v (insert k w m) ≡ insert k v m
  unfolding insert
  insert-insert k v w [] = ground (arith, str_eq_iff k k)
  insert-insert k v w ((j, x) ∷ m) =
      ground (arith, insert-insert k v w m, str_eq_iff k k, str_eq_iff j k)

pub ruleset dict_laws = (lookup-remove, lookup-insert)

pub str_eq_refl : (k : Bytes) → str_eq k k ≡ true
str_eq_refl k = (str_eq_iff k k).1 refl
