-- ===== src/Sets.antt =====
-- internal/sets/match.go: comparison of two slices as collections, without regard to order.
-- The reflection in the source is instantiated: both arguments are slices of one element type.
pub mod Count
pub mod Members
use wls_ingress.Base.{Bool, true, false, List, [], ◌∷◌, Option, none, some, length, nat_eq}
use wls_ingress.Base.{if◌then◌else◌, map}
use wls_ingress.Base.Slices.{Slice}
use mathlib.Core.Option

module _ {A : Type 0} (eq : A → A → Bool) where
  -- The loop over `j`: the first element that is not visited and equal to `x` becomes visited;
  -- `none` means that `found` stays false.
  visit : A → List Bool → List A → Option (List Bool)
  visit x [] b = none
  visit x (v ∷ visited) [] = none
  visit x (true ∷ visited) (y ∷ b) = Option.map (λ vs. true ∷ vs) (visit x visited b)
  visit x (false ∷ visited) (y ∷ b) =
      let later = Option.map (λ vs. false ∷ vs) (visit x visited b) in
      if eq x y then some (true ∷ visited) else later

  -- The loop over `i`.
  compare_from : List A → List Bool → List A → Bool
  compare_from [] visited b = true
  compare_from (x ∷ a) visited b = elim (visit x visited b) [
    | none ↦ false
    | some visited' ↦ compare_from a visited' b
  ]

  unfoldable pub compare : Slice A → Slice A → Bool
  unfolding compare_from visit
  compare none none = true
  compare none (some b) = false
  compare (some a) none = false
  compare (some a) (some b) =
      if nat_eq (length a) (length b) then compare_from a (map (λ _. false) b) b else false
