-- ===== src/Base/Text.antt =====
-- Go strings as lists of code points, and the functions of `strings` and `strconv` that the
-- program calls. (Valid UTF-8 is assumed: its byte order is the order of the code points.)
use Prim.Native.Char.{code}
use Prim.Native.String.{String}
use wls_ingress.Base.Tests.{ltb, nat_eq, if◌then◌else◌, Bool-cases, Option-cases}
use Prim.Native.Nat.{ℕ, zero, suc, ◌≤◌, ◌<◌}
use mathlib.Core.Path.{◌≡◌, refl}
use mathlib.Core.Logic.{◌↔◌, ◌≢◌, inl, inr}
use mathlib.Core.Option
use mathlib.Core.Option.{Option, none, some}
use wls_ingress.Base.Lists.{length, get_elem?, drop}
use mathlib.Core.Bool.{Bool, true, false, ◌&&◌, ◌||◌}
use mathlib.Core.List.{List, [], ◌∷◌, ◌++◌}
use native.Mathlib.Omega.{arith}

abbrev pub Text : Type 0
Text = List ℕ

-- A text literal.
abbrev pub codes : String → Text
codes String.[] = []
codes (String.◌∷◌ c s) = code c ∷ codes s

infix 50 ◌==◌
unfoldable pub ◌==◌ : Text → Text → Bool
[] == [] = true
[] == (_ ∷ _) = false
(_ ∷ _) == [] = false
(a ∷ s) == (b ∷ t) = nat_eq a b && s == t

pub ==_sound : (s t : Text) → (s == t) ≡ true → s ≡ t
unfolding ◌==◌
==_sound [] [] h = refl
==_sound [] (b ∷ t) h = ground arith
==_sound (a ∷ s) [] h = ground arith
==_sound (a ∷ s) (b ∷ t) h = ground (arith, ==_sound s t)

pub ==_refl : (s : Text) → (s == s) ≡ true
unfolding ◌==◌
==_refl [] = refl
==_refl (a ∷ s) = ground (arith, ==_refl s)

pub ==_iff : (s t : Text) → ((s == t) ≡ true) ↔ (s ≡ t)
==_iff s t = (==_sound s t, λ e. ground (arith, ==_refl s))

-- s < t
unfoldable pub text_lt : Text → Text → Bool
text_lt [] [] = false
text_lt [] (_ ∷ _) = true
text_lt (_ ∷ _) [] = false
text_lt (a ∷ s) (b ∷ t) = ltb a b || (nat_eq a b && text_lt s t)

-- strings.HasPrefix
unfoldable pub has_prefix : Text → Text → Bool
has_prefix s [] = true
has_prefix [] (_ ∷ _) = false
has_prefix (a ∷ s) (b ∷ p) = nat_eq a b && has_prefix s p

-- strings.Contains
unfoldable pub contains_text : Text → Text → Bool
unfolding has_prefix
contains_text [] p = has_prefix [] p
contains_text (a ∷ s) p = has_prefix (a ∷ s) p || contains_text s p

pub has_prefix-append : (p s : Text) → has_prefix (p ++ s) p ≡ true
unfolding has_prefix
has_prefix-append [] [] = refl
has_prefix-append [] (b ∷ s) = refl
has_prefix-append (a ∷ p) s = ground (arith, has_prefix-append p s)

pub contains_text_of_prefix : (s p : Text) → has_prefix s p ≡ true → contains_text s p ≡ true
unfolding contains_text
contains_text_of_prefix [] p h = h
contains_text_of_prefix (a ∷ s) p h = ground arith

-- The text before and after the first occurrence of `sep`.
unfoldable pub cut : Text → Text → Option (Text × Text)
unfolding has_prefix
cut sep [] = if has_prefix [] sep then some ([], []) else none
cut sep (c ∷ s) =
    let later = Option.map (λ (r : Text × Text). (c ∷ r.0, r.1)) (cut sep s) in
    if has_prefix (c ∷ s) sep then some ([], drop (length sep) (c ∷ s)) else later

split_from : ℕ → Text → Text → List Text
split_from zero sep s = s ∷ []
split_from (suc fuel) sep s = elim (cut sep s) [
  | none ↦ s ∷ []
  | some (before, after) ↦ before ∷ split_from fuel sep after
]

-- strings.Split by a separator that is not empty: a text has at most as many occurrences as
-- characters.
unfoldable pub split : Text → Text → List Text
unfolding split_from cut
split s sep = split_from (length s) sep s

-- The first part, s[0] of a split; there always is one.
unfoldable pub first_part : Text → Text → Text
unfolding cut
first_part s sep = elim (cut sep s) [ none ↦ s | some (before, after) ↦ before ]

cut_of_contains :
    (sep s : Text) → contains_text s sep ≡ true → (r : Text × Text) × (cut sep s ≡ some r)
unfolding contains_text cut
cut_of_contains sep [] h = (([], []), rw h)
cut_of_contains sep (c ∷ s) h = elim (Bool-cases (has_prefix (c ∷ s) sep)) [
  | inl p ↦ (([], drop (length sep) (c ∷ s)), rw p)
  | inr p ↦ let (r, e) = cut_of_contains sep s (ground arith) in ((c ∷ r.0, r.1), ground arith)
]

-- A text in which the separator occurs has a second part.
pub split-second :
    (s sep : Text)
    → contains_text s sep ≡ true
    → s ≢ []
    → (t : Text) × (get_elem? (split s sep) 1 ≡ some t)
unfolding split split_from
split-second [] sep h n = absurd (n refl)
split-second (c ∷ s) sep h n = let (r, e) = cut_of_contains sep (c ∷ s) h in second (length s) r e
  where
    second :
        (fuel : ℕ) (r : Text × Text)
        → cut sep (c ∷ s) ≡ some r
        → (t : Text) × (get_elem? (split_from (suc fuel) sep (c ∷ s)) 1 ≡ some t)
    second zero (before, after) e = (after, ground arith)
    second (suc fuel) (before, after) e = elim (Option-cases (cut sep after)) [
      | inl f ↦ (after, ground arith)
      | inr ((b, a), f) ↦ (b, ground arith)
    ]

split_tests :
    (split (codes "a/b") (codes "/") ≡ codes "a" ∷ codes "b" ∷ [])
    × (split (codes "x") (codes "/") ≡ codes "x" ∷ [])
    × (split [] (codes "/") ≡ [] ∷ [])
unfolding split
split_tests = (refl, refl, refl)

length-drop_le : (n : ℕ) (s : Text) → length (drop n s) ≤ length s
length-drop_le zero s = omega arith
length-drop_le (suc n) [] = omega arith
length-drop_le (suc n) (c ∷ s) = omega (arith, length-drop_le n s)

cut-shorter :
    (p : ℕ) (sep s before after : Text)
    → cut (p ∷ sep) s ≡ some (before, after)
    → length after < length s
unfolding cut has_prefix
cut-shorter p sep [] before after h = cc
cut-shorter p sep (c ∷ s) before after h = elim (Bool-cases (has_prefix (c ∷ s) (p ∷ sep))) [
  | inl e ↦
      let rest : drop (length sep) s ≡ after = ground arith in
      rw (← rest) (omega (arith, length-drop_le (length sep) s))
  | inr e ↦ elim (Option-cases (cut (p ∷ sep) s)) [
    | inl f ↦ absurd (ground arith)
    | inr ((b, a), f) ↦
        let same : a ≡ after = ground arith in
        let shorter = cut-shorter p sep s b a f in rw (← same) (omega (arith, shorter))
  ]
]

-- The length of the text is enough fuel for `split`: more changes nothing.
split_from-fuel :
    (p : ℕ) (sep : Text) (m n : ℕ) (s : Text)
    → length s ≤ m
    → length s ≤ n
    → split_from m (p ∷ sep) s ≡ split_from n (p ∷ sep) s
unfolding split_from cut has_prefix
split_from-fuel p sep zero zero s h k = refl
split_from-fuel p sep zero (suc n) [] h k = refl
split_from-fuel p sep zero (suc n) (c ∷ s) h k = absurd (omega (arith, h))
split_from-fuel p sep (suc m) zero [] h k = refl
split_from-fuel p sep (suc m) zero (c ∷ s) h k = absurd (omega (arith, k))
split_from-fuel p sep (suc m) (suc n) s h k = elim (Option-cases (cut (p ∷ sep) s)) [
  | inl f ↦ ground (arith, f)
  | inr ((b, a), f) ↦
      let shorter = cut-shorter p sep s b a f in
      let rest =
        split_from-fuel p sep m n a (omega (arith, shorter, h)) (omega (arith, shorter, k)) in
      ground (arith, f, rest)
]
