-- ===== src/Sets/Members.antt =====
-- What `compare` says of the single elements of the slices that it takes for equal.
use wls_ingress.Base.{◌<◌, Bool, true, List, [], ◌∷◌, none, some, ◌≡◌}
use wls_ingress.Base.{refl, subst, arith, inl, inr, Bool-cases, In}
use wls_ingress.Base.Slices.{Slice, items}
use wls_ingress.Sets.{compare}
use wls_ingress.Sets.Count.{IsEquivalence, count, compare-SameCounts}

module _ {A : Type 0} (eq : A → A → Bool) (laws : IsEquivalence eq) where
  count_of_In : (x : A) (xs : List A) → In x xs → 0 < count eq x xs
  count_of_In x [] i = elim i [ ]
  count_of_In x (y ∷ xs) (inl same) =
      let e : eq x y ≡ true = subst (λ (z : A). eq x z ≡ true) same (laws.reflexive x) in
      rw e (omega arith)
  count_of_In x (y ∷ xs) (inr i) = let more = count_of_In x xs i in omega arith

  In_of_count : (x : A) (xs : List A) → 0 < count eq x xs → (y : A) × In y xs × (eq x y ≡ true)
  In_of_count x [] h = absurd (omega arith)
  In_of_count x (y ∷ xs) h = elim (Bool-cases (eq x y)) [
    | inl e ↦ (y, inl refl, e)
    | inr e ↦ let (z, i, f) = In_of_count x xs (ground arith) in (z, inr i, f)
  ]

  -- An element of the one has an equal in the other.
  pub compare-member :
      (a b : Slice A) (x : A)
      → compare eq a b ≡ true
      → In x (items a)
      → (y : A) × In y (items b) × (eq x y ≡ true)
  compare-member none b x e i = elim i [ ]
  compare-member (some a) none x e i = unfold compare in cc
  compare-member (some a) (some b) x e i =
      let same = (compare-SameCounts eq laws a b).0 e x in
      let c = count_of_In x a i in In_of_count x b (omega arith)
