-- ===== src/Sets/Count.antt =====
-- `compare` over an equivalence compares multisets: it accepts exactly the slices in which every
-- element has as many equals on both sides.
use wls_ingress.Base.{ℕ, suc, ◌+◌, Bool, true, false, List, [], ◌∷◌, Option, none, some}
use wls_ingress.Base.{◌≡◌, refl, ap, ◌↔◌, inl, inr, arith, length, if◌then◌else◌, Bool-cases, map}
use wls_ingress.Base.{Option-cases, Bool-eq_of_iff, sym, ◌∙◌}
use wls_ingress.Sets.{visit, compare_from, compare}
use mathlib.Core.Option
use mathlib.Core.List.{Permᴰ}

-- What `compare` asks of its test.
pub record IsEquivalence {A : Type 0} (eq : A → A → Bool) : Type 0 where
  pub reflexive : (x : A) → eq x x ≡ true
  pub symmetric : (x y : A) → eq x y ≡ true → eq y x ≡ true
  pub transitive : (x y z : A) → eq x y ≡ true → eq y z ≡ true → eq x z ≡ true

module _ {A : Type 0} (eq : A → A → Bool) where
  -- How many elements of the list are equal to `z`.
  abbrev pub count : A → List A → ℕ
  count z [] = 0
  count z (x ∷ xs) = (if eq z x then 1 else 0) + count z xs

  abbrev pub SameCounts : List A → List A → Type 0
  SameCounts a b = (z : A) → count z a ≡ count z b

  -- The elements of `b` that are still to be matched.
  unvisited : List Bool → List A → List A
  unvisited [] b = []
  unvisited (v ∷ visited) [] = []
  unvisited (true ∷ visited) (y ∷ b) = unvisited visited b
  unvisited (false ∷ visited) (y ∷ b) = y ∷ unvisited visited b

  -- The list without its first element equal to `x`.
  without_first : A → List A → Option (List A)
  without_first x [] = none
  without_first x (y ∷ b) =
      let later = Option.map (λ c. y ∷ c) (without_first x b) in if eq x y then some b else later

  match_all : List A → List A → Bool
  match_all [] b = true
  match_all (x ∷ a) b = elim (without_first x b) [ none ↦ false | some c ↦ match_all a c ]

  visit-without_first :
      (x : A) (visited : List Bool) (b : List A)
      → Option.map (λ vs. unvisited vs b) (visit eq x visited b)
        ≡ without_first x (unvisited visited b)
  unfolding visit without_first unvisited
  visit-without_first x [] b = refl
  visit-without_first x (v ∷ visited) [] = ground arith
  visit-without_first x (true ∷ visited) (y ∷ b) = ground (arith, visit-without_first x visited b)
  visit-without_first x (false ∷ visited) (y ∷ b) = ground (arith, visit-without_first x visited b)

  compare_from-match_all :
      (a : List A) (visited : List Bool) (b : List A)
      → compare_from eq a visited b ≡ match_all a (unvisited visited b)
  unfolding compare_from match_all
  compare_from-match_all [] visited b = refl
  compare_from-match_all (x ∷ a) visited b = elim (Option-cases (visit eq x visited b)) [
    | inl e ↦ ground (arith, visit-without_first x visited b)
    | inr (vs, e) ↦ ground (arith, visit-without_first x visited b, compare_from-match_all a vs b)
  ]

  unvisited-all : (b : List A) → unvisited (map (λ _. false) b) b ≡ b
  unfolding unvisited
  unvisited-all [] = refl
  unvisited-all (y ∷ b) = ap (λ c. y ∷ c) (unvisited-all b)

  module _ (equiv : IsEquivalence eq) where
    eq_right : (x y z : A) → eq x y ≡ true → eq z x ≡ eq z y
    eq_right x y z h =
        Bool-eq_of_iff (eq z x) (eq z y) (λ k. equiv.transitive z x y k h)
          (λ k. equiv.transitive z y x k (equiv.symmetric x y h))

    count-without_first :
        (z x : A) (b c : List A)
        → without_first x b ≡ some c
        → count z b ≡ (if eq z x then 1 else 0) + count z c
    unfolding without_first
    count-without_first z x [] c e = cc
    count-without_first z x (y ∷ b) c e = elim (Bool-cases (eq x y)) [
      | inl h ↦ ground (arith, eq_right x y z h)
      | inr h ↦ elim (Option-cases (without_first x b)) [
        | inl n ↦ ground arith
        | inr (d, n) ↦ ground (arith, count-without_first z x b d n)
      ]
    ]

    without_first-none : (x : A) (b : List A) → without_first x b ≡ none → count x b ≡ 0
    unfolding without_first
    without_first-none x [] e = refl
    without_first-none x (y ∷ b) e = ground (arith, without_first-none x b)

    length-without_first :
        (x : A) (b c : List A) → without_first x b ≡ some c → length b ≡ suc (length c)
    unfolding without_first
    length-without_first x [] c e = cc
    length-without_first x (y ∷ b) c e = elim (Bool-cases (eq x y)) [
      | inl h ↦ ground arith
      | inr h ↦ elim (Option-cases (without_first x b)) [
        | inl n ↦ ground arith
        | inr (d, n) ↦ ground (arith, length-without_first x b d n)
      ]
    ]

    match_all_sound : (a b : List A) → length a ≡ length b → match_all a b ≡ true → SameCounts a b
    unfolding match_all
    match_all_sound [] [] l h z = refl
    match_all_sound [] (y ∷ b) l h z = absurd (omega arith)
    match_all_sound (x ∷ a) b l h z = elim (Option-cases (without_first x b)) [
      | inl e ↦ ground arith
      | inr (c, e) ↦ omega (
        arith,
        count-without_first z x b c e,
        match_all_sound a c (omega (arith, length-without_first x b c e)) (ground arith) z,
      )
    ]

    match_all_complete :
        (a b : List A) → SameCounts a b → (match_all a b ≡ true) × (length a ≡ length b)
    unfolding match_all
    match_all_complete [] [] h = (refl, refl)
    match_all_complete [] (y ∷ b) h = absurd (ground (arith, h y, equiv.reflexive y))
    match_all_complete (x ∷ a) b h = elim (Option-cases (without_first x b)) [
      | inl e ↦ absurd (ground (arith, h x, equiv.reflexive x, without_first-none x b e))
      | inr (c, e) ↦
          let rest : SameCounts a c = λ z. omega (arith, h z, count-without_first z x b c e) in
          let (done, same) = match_all_complete a c rest in
          (rw (e, match_all) done, omega (arith, length-without_first x b c e, same))
    ]

    -- Over an equivalence, two slices that are not nil compare equal exactly when every element
    -- has the same number of equals in both.
    pub compare-SameCounts : (a b : List A) → (compare eq (some a) (some b) ≡ true) ↔ SameCounts a b
    unfolding compare
    compare-SameCounts a b = (
      λ h.
          let l : length a ≡ length b = ground arith in
          match_all_sound a b l
            (ground (arith, compare_from-match_all a (map (λ _. false) b) b, unvisited-all b)),
      λ h.
          let (done, same) = match_all_complete a b h in
          ground (arith, compare_from-match_all a (map (λ _. false) b) b, unvisited-all b),
    )

    count-perm : {a b : List A} → Permᴰ a b → SameCounts a b
    count-perm Permᴰ.nil z = refl
    count-perm (Permᴰ.cons {a = x} {b = y} e p) z = ground (arith, count-perm p z)
    count-perm (Permᴰ.swap {a = x} {b = y} {a' = x'} {b' = y'} e f) z = ground arith
    count-perm (Permᴰ.trans p q) z = count-perm p z ∙ count-perm q z

    -- The order of the elements does not matter.
    pub compare-perm : {a b : List A} → Permᴰ a b → compare eq (some a) (some b) ≡ true
    compare-perm {a} {b} p = (compare-SameCounts a b).1 (count-perm p)

    pub compare-IsEquivalence : IsEquivalence (compare eq)
    unfolding compare
    compare-IsEquivalence = record {
      reflexive = elim [ none ↦ refl | some a ↦ (compare-SameCounts a a).1 (λ z. refl) ];
      symmetric = compare_symmetric;
      transitive = compare_transitive;
    }
      where
        compare_symmetric : (x y : Option (List A)) → compare eq x y ≡ true → compare eq y x ≡ true
        compare_symmetric none none h = refl
        compare_symmetric none (some b) h = cc
        compare_symmetric (some a) none h = cc
        compare_symmetric (some a) (some b) h =
            (compare-SameCounts b a).1 (λ z. sym ((compare-SameCounts a b).0 h z))

        compare_transitive :
            (x y z : Option (List A))
            → compare eq x y ≡ true
            → compare eq y z ≡ true
            → compare eq x z ≡ true
        compare_transitive none none z h k = k
        compare_transitive none (some b) z h k = cc
        compare_transitive (some a) none z h k = cc
        compare_transitive (some a) (some b) none h k = cc
        compare_transitive (some a) (some b) (some c) h k =
            (compare-SameCounts a c).1
              (λ z. (compare-SameCounts a b).0 h z ∙ (compare-SameCounts b c).0 k z)
