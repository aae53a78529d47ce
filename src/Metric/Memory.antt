-- ===== src/Metric/Memory.antt =====
-- Vectors in memory that meet what is relied on, for the examples.
use wls_ingress.Base.{
  ℕ, ◌+◌, Bool, true, false, List, [], ◌∷◌, Option, none, some, ◌≡◌, refl, length, arith,
  if◌then◌else◌, nat_eq, inl, inr, Bool-cases, subst, ◌&&◌,
}
use wls_ingress.Base.Text.{Text, ◌==◌, ==_refl}
use wls_ingress.Base.Maps.{Map}
use wls_ingress.Base.Run.{Run, ok, panic}
use wls_ingress.Metric.{Prometheus}
use wls_ingress.Metric.Vectors.{IsPrometheus}

-- The names of the labels, and the values, the latest first.
pub record Vec : Type 0 where
  pub names : List Text
  pub values : List (List Text × ℕ)

unfoldable pub same_values : List Text → List Text → Bool
same_values [] [] = true
same_values [] (y ∷ ys) = false
same_values (x ∷ xs) [] = false
same_values (x ∷ xs) (y ∷ ys) = x == y && same_values xs ys

unfoldable pub value_of : List Text → List (List Text × ℕ) → Option ℕ
unfolding same_values
value_of values [] = none
value_of values ((k, x) ∷ rest) =
    let later = value_of values rest in if same_values k values then some x else later

same_values_refl : (xs : List Text) → same_values xs xs ≡ true
unfolding same_values
same_values_refl [] = refl
same_values_refl (x ∷ xs) = rw (==_refl x, same_values_refl xs) refl

unfoldable pub set : List Text → ℕ → Vec → Run Vec
set values x v =
    if nat_eq (length values) (length v.names)
    then ok (record v { values = (values, x) ∷ v.values })
    else panic

unfoldable pub inc : Map Text → Map Text → Vec → Run Vec
inc curried labels v =
    if nat_eq (length curried + length labels) (length v.names) then ok v else panic

abbrev pub memory : Prometheus
memory = record {
  Vec = Vec;
  new_vec = λ labels. record { names = labels; values = [] };
  inc_curried = inc;
  set_with = set;
  value = λ values v. value_of values v.values;
  Registry = Bool;
  must_register = λ registered. if registered then panic else ok true;
  unregister = λ registered. false;
}

-- What Set leaves when it returns.
set_ran :
    (values : List Text) (x : ℕ) (v v' : Vec)
    → set values x v ≡ ok v'
    → record v { values = (values, x) ∷ v.values } ≡ v'
unfolding set
set_ran values x v v' h = elim (Bool-cases (nat_eq (length values) (length v.names))) [
  | inl same ↦ ground (arith, h)
  | inr other ↦ absurd (ground (arith, h))
]

set_found :
    (values : List Text) (x : ℕ) (v : Vec) → value_of values ((values, x) ∷ v.values) ≡ some x
unfolding value_of
set_found values x v = rw (same_values_refl values) refl

inc_ran :
    (curried labels : Map Text) (v v' : Vec)
    → inc curried labels v ≡ ok v'
    → length curried + length labels ≡ length v.names
unfolding inc
inc_ran curried labels v v' h =
    elim (Bool-cases (nat_eq (length curried + length labels) (length v.names))) [
      | inl same ↦ ground (arith, same)
      | inr other ↦ absurd (ground (arith, h))
    ]

pub memory-IsPrometheus : IsPrometheus memory
unfolding set value_of
memory-IsPrometheus = record {
  names = λ v. v.names;
  names_new = λ labels. refl;
  value_new = λ labels values. refl;
  set_runs = λ values x v h. (record v { values = (values, x) ∷ v.values }, ground (arith, h));
  set_names =
      λ values x v v' h. subst (λ (u : Vec). u.names ≡ v.names) (set_ran values x v v' h) refl;
  set_value = λ values x v v' h.
      subst (λ (u : Vec). value_of values u.values ≡ some x) (set_ran values x v v' h)
        (set_found values x v);
  inc_names = inc_ran;
}
