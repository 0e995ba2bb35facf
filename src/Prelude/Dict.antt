-- ===== src/Prelude/Dict.antt =====
-- A Go map as a list of entries. A lookup reads the first entry of its key; a write replaces that
-- entry or adds one. Go leaves the order of a range over a map open: a range is modelled in the order
-- of the entries, and a theorem about every dictionary is one about every order.

use mathlib.Core.Path.{◌≡◌, refl}
use mathlib.Core.Bool.{Bool, true, false, ◌||◌}
use mathlib.Core.Option.{Option, none, some}
use mathlib.Core.List.{List, [], ◌∷◌}
use native.Mathlib.Omega.{arith}
use climate_control.Prelude.Tests.{if◌then◌else◌, is_some}
use climate_control.Prelude.Equality.{Eq, ◌==◌, eq_iff}

abbrev pub Dict {ℓ κ} : Type ℓ → Type κ → Type (ℓ ⊔ κ)
Dict K V = List (K × V)

module _ {ℓ κ} {K : Type ℓ} {V : Type κ} ⦃e : Eq K⦄ where
  -- m[k], with `none` for a missing key
  unfoldable pub lookup : K → Dict K V → Option V
  lookup key [] = none
  lookup key ((j, v) ∷ m) = if j == key then some v else lookup key m

  -- m[k] = v
  unfoldable pub insert : K → V → Dict K V → Dict K V
  insert key v [] = (key, v) ∷ []
  insert key v ((j, w) ∷ m) = if j == key then (key, v) ∷ m else (j, w) ∷ insert key v m

  -- delete(m, k)
  unfoldable pub erase : K → Dict K V → Dict K V
  erase k [] = []
  erase k ((j, w) ∷ m) = if j == k then erase k m else (j, w) ∷ erase k m

  -- The key has an entry.
  unfoldable pub contains : K → Dict K V → Bool
  contains k [] = false
  contains k ((j, w) ∷ m) = j == k || contains k m

  -- No key has two entries, as in every Go map.
  abbrev pub KeysDistinct : Dict K V → Type 0
  KeysDistinct [] = Unit
  KeysDistinct ((k, v) ∷ m) = (contains k m ≡ false) × KeysDistinct m

  pub lookup-insert :
      (k j : K) (v : V) (m : Dict K V)
      → lookup j (insert k v m) ≡ (if k == j then some v else lookup j m)
  unfolding lookup insert
  lookup-insert k j v [] = refl
  lookup-insert k j v ((i, u) ∷ rest) =
      ground (arith, lookup-insert k j v rest, eq_iff i j, eq_iff i k, eq_iff k j)

  pub lookup-erase :
      (k j : K) (m : Dict K V) → lookup j (erase k m) ≡ (if k == j then none else lookup j m)
  unfolding lookup erase
  lookup-erase k j [] = ground arith
  lookup-erase k j ((i, w) ∷ m) =
      ground (arith, eq_iff k j, eq_iff i k, eq_iff i j, lookup-erase k j m)

  pub contains-lookup : (k : K) (m : Dict K V) → contains k m ≡ is_some (lookup k m)
  unfolding lookup contains
  contains-lookup k [] = refl
  contains-lookup k ((j, w) ∷ m) = ground (arith, contains-lookup k m)

  pub contains-insert :
      (k j : K) (v : V) (m : Dict K V)
      → contains j (insert k v m) ≡ (if k == j then true else contains j m)
  contains-insert k j v m = rw (contains-lookup, lookup-insert, contains-lookup) (ground arith)

  pub contains-erase :
      (k j : K) (m : Dict K V) → contains j (erase k m) ≡ (if k == j then false else contains j m)
  contains-erase k j m = rw (contains-lookup, lookup-erase, contains-lookup) (ground arith)

  pub insert-KeysDistinct :
      (k : K) (v : V) (m : Dict K V) → KeysDistinct m → KeysDistinct (insert k v m)
  unfolding insert contains
  insert-KeysDistinct k v [] h = (refl, tt)
  insert-KeysDistinct k v ((j, w) ∷ m) h =
      ground (arith, eq_iff j k, eq_iff k j, contains-insert k j v m, insert-KeysDistinct k v m)

  pub lookup-contains-false : (k : K) (m : Dict K V) → contains k m ≡ false → lookup k m ≡ none
  lookup-contains-false k m h = ground (arith, contains-lookup k m)

pub ruleset dict_laws = (lookup-insert, lookup-erase)
