-- ===== src/Prelude/Maps.antt =====
-- A Go map with string keys as an association list. A map has no order in Go.
use mathlib.Core.Path.{◌≡◌, refl}
use mathlib.Core.Bool.{◌||◌}
use mathlib.Core.List.{List, [], ◌∷◌}
use mathlib.Core.Option.{Option, none, some}
use native.Mathlib.Omega.{arith}
use betterkey.Prelude.Tests.{if◌then◌else◌}
use betterkey.Prelude.Text.{Bytes, same, same_iff, contains}

abbrev pub Dict {ℓ} : Type ℓ → Type ℓ
Dict V = List (Bytes × V)

module _ {ℓ} {V : Type ℓ} where
  unfoldable pub lookup : Bytes → Dict V → Option V
  lookup k [] = none
  lookup k ((j, v) ∷ m) = if same j k then some v else lookup k m

  unfoldable pub put : Bytes → V → Dict V → Dict V
  put k v [] = (k, v) ∷ []
  put k v ((j, old) ∷ m) = let rest = put k v m in if same j k then (j, v) ∷ m else (j, old) ∷ rest

  unfoldable pub without : Bytes → Dict V → Dict V
  without k [] = []
  without k ((j, v) ∷ m) = let rest = without k m in if same j k then rest else (j, v) ∷ rest

  abbrev pub keys : Dict V → List Bytes
  keys [] = []
  keys ((j, v) ∷ m) = j ∷ keys m

  pub lookup-put :
      (k j : Bytes) (v : V) (m : Dict V)
      → lookup j (put k v m) ≡ (if same k j then some v else lookup j m)
  unfolding lookup put
  lookup-put k j v [] = refl
  lookup-put k j v ((i, old) ∷ m) =
      ground (arith, same_iff k j, same_iff i k, same_iff i j, lookup-put k j v m)

  pub lookup-without :
      (k j : Bytes) (m : Dict V) → lookup j (without k m) ≡ (if same k j then none else lookup j m)
  unfolding lookup without
  lookup-without k j [] = ground arith
  lookup-without k j ((i, v) ∷ m) =
      ground (arith, same_iff k j, same_iff i k, same_iff i j, lookup-without k j m)

  pub contains-keys-put :
      (k b : Bytes) (v : V) (m : Dict V)
      → contains (keys (put k v m)) b ≡ (same k b || contains (keys m) b)
  unfolding put contains
  contains-keys-put k b v [] = refl
  contains-keys-put k b v ((j, old) ∷ m) =
      ground (arith, same_iff j k, same_iff j b, same_iff k b, contains-keys-put k b v m)
