-- ===== src/Base/Maps.antt =====
-- Go maps with string keys, as association lists; where the program ranges over a map the order
-- is a parameter.
use wls_ingress.Base.Tests.{if◌then◌else◌, Bool-cases}
use wls_ingress.Base.Text.{Text, ◌==◌, ==_iff, ==_refl}
use wls_ingress.Base.Lists.{In}
use mathlib.Core.Path.{◌≡◌, refl}
use mathlib.Core.Logic.{inl, inr}
use mathlib.Core.Option.{Option, none, some}
use mathlib.Core.List.{List, [], ◌∷◌}
use native.Mathlib.Omega.{arith}

abbrev pub Map : Type 0 → Type 0
Map V = List (Text × V)

module _ {V : Type 0} where
  unfoldable pub lookup : Text → Map V → Option V
  lookup k [] = none
  lookup k ((j, v) ∷ m) = if j == k then some v else lookup k m

  -- delete(m, k)
  unfoldable pub remove : Text → Map V → Map V
  remove k [] = []
  remove k ((j, w) ∷ m) = if j == k then remove k m else (j, w) ∷ remove k m

  pub lookup-remove :
      (k j : Text) (m : Map V) → lookup j (remove k m) ≡ (if k == j then none else lookup j m)
  unfolding lookup remove
  lookup-remove k j [] = ground arith
  lookup-remove k j ((i, w) ∷ m) =
      ground (arith, ==_iff k j, ==_iff i k, ==_iff i j, lookup-remove k j m)

  -- m[key] = x
  unfoldable pub insert : Text → V → Map V → Map V
  insert key x [] = (key, x) ∷ []
  insert key x (entry ∷ m) = if entry.0 == key then (key, x) ∷ m else entry ∷ insert key x m

  pub lookup-insert :
      (key other : Text) (x : V) (m : Map V)
      → lookup other (insert key x m) ≡ (if key == other then some x else lookup other m)
  unfolding lookup insert
  lookup-insert key other x [] = refl
  lookup-insert key other x ((first, y) ∷ m) =
      ground
        (lookup-insert key other x m, ==_iff first key, ==_iff first other, ==_iff key other, arith)

  -- No key occurs twice.
  abbrev pub DistinctKeys : Map V → Type 0
  DistinctKeys [] = Unit
  DistinctKeys ((k, v) ∷ m) = (lookup k m ≡ none) × DistinctKeys m

  pub insert-DistinctKeys :
      (k : Text) (v : V) (m : Map V) → DistinctKeys m → DistinctKeys (insert k v m)
  unfolding lookup insert
  insert-DistinctKeys k v [] h = (refl, tt)
  insert-DistinctKeys k v ((j, w) ∷ m) (h, d) = elim (Bool-cases (j == k)) [
    | inl e ↦ rw e (rw (← (==_iff j k).0 e) h, d)
    | inr e ↦
        rw e (
          ground (arith, lookup-insert k j v m, ==_iff k j, ==_iff j k),
          insert-DistinctKeys k v m d,
        )
  ]

  pub lookup_of_In :
      (k : Text) (v : V) (m : Map V) → DistinctKeys m → In (k, v) m → lookup k m ≡ some v
  unfolding lookup
  lookup_of_In k v [] d h = elim h [ ]
  lookup_of_In k v ((j, w) ∷ m) (f, d) (inl e) = ground (arith, ==_refl j, e)
  lookup_of_In k v ((j, w) ∷ m) (f, d) (inr i) =
      let later = lookup_of_In k v m d i in ground (arith, ==_iff j k)

  pub In_of_lookup : (k : Text) (v : V) (m : Map V) → lookup k m ≡ some v → In (k, v) m
  unfolding lookup
  In_of_lookup k v [] h = cc
  In_of_lookup k v ((j, w) ∷ m) h = elim (Bool-cases (j == k)) [
    | inl e ↦ inl (ground (arith, ==_iff j k))
    | inr e ↦ inr (In_of_lookup k v m (ground arith))
  ]
