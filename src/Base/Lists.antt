-- ===== src/Base/Lists.antt =====
-- Lists over native numbers, and predicates on them by recursion.
use Prim.Native.Nat.{ℕ, zero, suc, ◌+◌}
use mathlib.Core.Path.{◌≡◌, refl, ap, ◌∙◌}
use mathlib.Core.Logic.{◌⊎◌, inl, inr}
use mathlib.Core.List.{List, [], ◌∷◌, ◌++◌, map, Permᴰ}
use mathlib.Core.Option.{Option, none, some}
use native.Mathlib.Omega.{arith}

module _ {ℓ} {A : Type ℓ} where
  abbrev pub length : List A → ℕ
  length [] = 0
  length (x ∷ xs) = suc (length xs)

  abbrev pub get_elem? : List A → ℕ → Option A
  get_elem? [] i = none
  get_elem? (x ∷ xs) zero = some x
  get_elem? (x ∷ xs) (suc i) = get_elem? xs i

  abbrev pub drop : ℕ → List A → List A
  drop zero xs = xs
  drop (suc n) [] = []
  drop (suc n) (x ∷ xs) = drop n xs

  pub length-append : (xs ys : List A) → length (xs ++ ys) ≡ length xs + length ys
  length-append [] ys = omega arith
  length-append (x ∷ xs) ys = omega (arith, length-append xs ys)

module _ {ℓ κ} {A : Type ℓ} (P : A → Type κ) where
  abbrev pub All : List A → Type κ
  All [] = Unit
  All (x ∷ xs) = P x × All xs

  pub All-append : (xs ys : List A) → All xs → All ys → All (xs ++ ys)
  All-append [] ys hx hy = hy
  All-append (x ∷ xs) ys hx hy = (hx.0, All-append xs ys hx.1 hy)

-- `x` stands in the list.
abbrev pub In : {A : Type 0} → A → List A → Type 0
In x [] = ⊥
In x (y ∷ ys) = (x ≡ y) ⊎ In x ys

pub All_of_In : {A : Type 0} (P : A → Type 0) (xs : List A) → ((x : A) → In x xs → P x) → All P xs
All_of_In P [] h = tt
All_of_In P (x ∷ xs) h = (h x (inl refl), All_of_In P xs (λ y i. h y (inr i)))

pub In-append_right : {A : Type 0} (x : A) (xs ys : List A) → In x ys → In x (xs ++ ys)
In-append_right x [] ys h = h
In-append_right x (z ∷ xs) ys h = inr (In-append_right x xs ys h)

pub In-append_left : {A : Type 0} (x : A) (xs ys : List A) → In x xs → In x (xs ++ ys)
In-append_left x [] ys h = elim h [ ]
In-append_left x (z ∷ xs) ys h = elim h [ inl e ↦ inl e | inr m ↦ inr (In-append_left x xs ys m) ]

pub In-append_cases : {A : Type 0} (x : A) (xs ys : List A) → In x (xs ++ ys) → In x xs ⊎ In x ys
In-append_cases x [] ys h = inr h
In-append_cases x (z ∷ xs) ys h = elim h [
  | inl e ↦ inl (inl e)
  | inr m ↦ elim (In-append_cases x xs ys m) [ inl a ↦ inl (inr a) | inr b ↦ inr b ]
]

pub In-perm : {A : Type 0} (x : A) {xs ys : List A} → Permᴰ xs ys → In x xs → In x ys
In-perm x Permᴰ.nil h = h
In-perm x (Permᴰ.cons e p) (inl same) = inl (same ∙ e)
In-perm x (Permᴰ.cons e p) (inr h) = inr (In-perm x p h)
In-perm x (Permᴰ.swap e f) (inl same) = inr (inl (same ∙ e))
In-perm x (Permᴰ.swap e f) (inr (inl same)) = inl (same ∙ f)
In-perm x (Permᴰ.swap e f) (inr (inr h)) = inr (inr h)
In-perm x (Permᴰ.trans p q) h = In-perm x q (In-perm x p h)

pub In-map : {A B : Type 0} (f : A → B) (x : A) (xs : List A) → In x xs → In (f x) (map f xs)
In-map f x [] h = elim h [ ]
In-map f x (y ∷ xs) (inl e) = inl (ap f e)
In-map f x (y ∷ xs) (inr h) = inr (In-map f x xs h)

pub In-map_inv :
    {A B : Type 0} (f : A → B) (y : B) (xs : List A)
    → In y (map f xs)
    → (x : A) × In x xs × (y ≡ f x)
In-map_inv f y [] h = elim h [ ]
In-map_inv f y (x ∷ xs) (inl e) = (x, inl refl, e)
In-map_inv f y (x ∷ xs) (inr h) = let (z, i, e) = In-map_inv f y xs h in (z, inr i, e)

pub map-perm :
    {A B : Type 0} (f : A → B) {xs ys : List A} → Permᴰ xs ys → Permᴰ (map f xs) (map f ys)
map-perm f Permᴰ.nil = Permᴰ.nil
map-perm f (Permᴰ.cons e p) = Permᴰ.cons (ap f e) (map-perm f p)
map-perm f (Permᴰ.swap e g) = Permᴰ.swap (ap f e) (ap f g)
map-perm f (Permᴰ.trans p q) = Permᴰ.trans (map-perm f p) (map-perm f q)
