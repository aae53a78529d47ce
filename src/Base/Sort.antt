-- ===== src/Base/Sort.antt =====
-- sort.SliceStable by a strict total order: the result does not depend on the order of the input.
use wls_ingress.Base.{
  All, ◌≤◌, ℕ, ltb, Bool, true, false, List, [], ◌∷◌, ◌≡◌, refl, ◌∙◌, if◌then◌else◌, Bool-cases,
  inl, inr, arith,
}
use wls_ingress.Base.Text.{Text, text_lt}
use mathlib.Core.List.{Permᴰ}
use mathlib.Core.List.Permᴰ

module _ {A : Type 0} (less : A → A → Bool) where
  -- Before the first element that is not less.
  pub insert_sorted : A → List A → List A
  insert_sorted x [] = x ∷ []
  insert_sorted x (y ∷ ys) =
      let later = insert_sorted x ys in if less y x then y ∷ later else x ∷ y ∷ ys

  unfoldable pub sort_stable : List A → List A
  unfolding insert_sorted
  sort_stable [] = []
  sort_stable (x ∷ xs) = insert_sorted x (sort_stable xs)

  insert_sorted-perm : (x : A) (xs : List A) → Permᴰ (x ∷ xs) (insert_sorted x xs)
  unfolding insert_sorted
  insert_sorted-perm x [] = Permᴰ.refl (x ∷ [])
  insert_sorted-perm x (y ∷ ys) = elim (Bool-cases (less y x)) [
    | inr h ↦ rw h (Permᴰ.refl (x ∷ y ∷ ys))
    | inl h ↦ rw h (Permᴰ.trans (Permᴰ.swap refl refl) (Permᴰ.cons refl (insert_sorted-perm x ys)))
  ]

  pub sort_stable-perm : (xs : List A) → Permᴰ xs (sort_stable xs)
  unfolding sort_stable
  sort_stable-perm [] = Permᴰ.nil
  sort_stable-perm (x ∷ xs) =
      Permᴰ.trans (Permᴰ.cons refl (sort_stable-perm xs)) (insert_sorted-perm x (sort_stable xs))

pub record IsStrictOrder {A : Type 0} (less : A → A → Bool) : Type 0 where
  pub asymmetric : (a b : A) → less a b ≡ true → less b a ≡ false
  pub transitive : (a b c : A) → less a b ≡ true → less b c ≡ true → less a c ≡ true
  pub total : (a b : A) → less a b ≡ false → less b a ≡ false → a ≡ b

module _ {A : Type 0} (less : A → A → Bool) (order : IsStrictOrder less) where
  insert_sorted_swap :
      (x y : A) (zs : List A)
      → insert_sorted less x (insert_sorted less y zs)
        ≡ insert_sorted less y (insert_sorted less x zs)
  unfolding insert_sorted
  insert_sorted_swap x y [] =
      ground (arith, order.asymmetric x y, order.asymmetric y x, order.total x y)
  insert_sorted_swap x y (z ∷ zs) = ground (
    arith,
    order.asymmetric x y,
    order.asymmetric y x,
    order.total x y,
    order.transitive z x y,
    order.transitive z y x,
    order.transitive x y z,
    order.transitive y x z,
    order.asymmetric z x,
    order.asymmetric z y,
    order.asymmetric x z,
    order.asymmetric y z,
    order.total x z,
    order.total y z,
    insert_sorted_swap x y zs,
  )

  pub sort_stable_of_perm :
      {xs ys : List A} → Permᴰ xs ys → sort_stable less xs ≡ sort_stable less ys
  unfolding sort_stable
  sort_stable_of_perm Permᴰ.nil = refl
  sort_stable_of_perm (Permᴰ.cons {a = x} {b = y} e p) = cc (e, sort_stable_of_perm p)
  sort_stable_of_perm (Permᴰ.swap {a = x} {b = y} {a' = x'} {b' = y'} {l = l} e f) =
      rw (e, f) (insert_sorted_swap y' x' (sort_stable less l))
  sort_stable_of_perm (Permᴰ.trans p q) = sort_stable_of_perm p ∙ sort_stable_of_perm q

text_lt_asymmetric : (s t : Text) → text_lt s t ≡ true → text_lt t s ≡ false
unfolding text_lt
text_lt_asymmetric [] [] h = refl
text_lt_asymmetric [] (b ∷ t) h = refl
text_lt_asymmetric (a ∷ s) [] h = cc
text_lt_asymmetric (a ∷ s) (b ∷ t) h = ground (arith, text_lt_asymmetric s t)

text_lt_transitive : (s t u : Text) → text_lt s t ≡ true → text_lt t u ≡ true → text_lt s u ≡ true
unfolding text_lt
text_lt_transitive [] [] u h k = k
text_lt_transitive [] (b ∷ t) [] h k = k
text_lt_transitive [] (b ∷ t) (c ∷ u) h k = refl
text_lt_transitive (a ∷ s) [] u h k = cc
text_lt_transitive (a ∷ s) (b ∷ t) [] h k = k
text_lt_transitive (a ∷ s) (b ∷ t) (c ∷ u) h k = ground (arith, text_lt_transitive s t u)

text_lt_total : (s t : Text) → text_lt s t ≡ false → text_lt t s ≡ false → s ≡ t
unfolding text_lt
text_lt_total [] [] h k = refl
text_lt_total [] (b ∷ t) h k = cc
text_lt_total (a ∷ s) [] h k = cc
text_lt_total (a ∷ s) (b ∷ t) h k = ground (arith, text_lt_total s t)

pub text_lt-IsStrictOrder : IsStrictOrder text_lt
text_lt-IsStrictOrder = record {
  asymmetric = text_lt_asymmetric;
  transitive = text_lt_transitive;
  total = text_lt_total;
}

-- In the order of a number that each element has, as a stable sort by that number leaves it.
module _ {A : Type 0} (f : A → ℕ) where
  abbrev pub Sorted : List A → Type 0
  Sorted [] = Unit
  Sorted (x ∷ xs) = All (λ y. f x ≤ f y) xs × Sorted xs

  insert_sorted-All :
      (P : A → Type 0) (x : A) (ys : List A)
      → P x
      → All P ys
      → All P (insert_sorted (λ a b. ltb (f a) (f b)) x ys)
  unfolding insert_sorted
  insert_sorted-All P x [] p h = (p, tt)
  insert_sorted-All P x (y ∷ ys) p (q, h) = elim (Bool-cases (ltb (f y) (f x))) [
    | inl e ↦ rw e (q, insert_sorted-All P x ys p h)
    | inr e ↦ rw e (p, (q, h))
  ]

  All-le : (a b : ℕ) (ys : List A) → a ≤ b → All (λ y. b ≤ f y) ys → All (λ y. a ≤ f y) ys
  All-le a b [] h all = tt
  All-le a b (y ∷ ys) h (q, all) = (omega (arith, h, q), All-le a b ys h all)

  insert_sorted-Sorted :
      (x : A) (ys : List A) → Sorted ys → Sorted (insert_sorted (λ a b. ltb (f a) (f b)) x ys)
  unfolding insert_sorted
  insert_sorted-Sorted x [] h = (tt, tt)
  insert_sorted-Sorted x (y ∷ ys) (below, h) = elim (Bool-cases (ltb (f y) (f x))) [
    | inl e ↦
        let less : f y ≤ f x = ground arith in
        rw e (insert_sorted-All (λ z. f y ≤ f z) x ys less below, insert_sorted-Sorted x ys h)
    | inr e ↦
        let less : f x ≤ f y = ground arith in
        rw e ((less, All-le (f x) (f y) ys less below), (below, h))
  ]

  pub sort_stable-Sorted : (xs : List A) → Sorted (sort_stable (λ a b. ltb (f a) (f b)) xs)
  unfolding sort_stable
  sort_stable-Sorted [] = tt
  sort_stable-Sorted (x ∷ xs) =
      insert_sorted-Sorted x (sort_stable (λ a b. ltb (f a) (f b)) xs) (sort_stable-Sorted xs)
