-- ===== src/Base/Int.antt =====
-- Signed integers, as far as the program compares and prints them.
use Prim.Native.Nat.{ℕ, zero, suc, ◌+◌, ◌-◌, ◌/◌, ◌%◌, ◌<◌, ◌≤◌, ◌*◌}
use mathlib.Core.Path.{◌≡◌, refl, ap, sym, ◌∙◌}
use mathlib.Core.Logic.{inl, inr}
use mathlib.Core.Bool.{Bool, true, false, ◌&&◌}
use mathlib.Core.Option
use mathlib.Core.Option.{Option, none, some}
use mathlib.Core.List.{[], ◌∷◌, ◌++◌}
use native.Mathlib.Omega.{arith}
use wls_ingress.Base.Tests.{ltb, leb, nat_eq, if◌then◌else◌, Bool-cases}
use wls_ingress.Base.Text.{Text, codes}
use wls_ingress.Base.Lists.{All, All-append}

-- `negsuc n` is -(n + 1).
pub data ℤ : Type 0 where
  pos : ℕ → ℤ
  negsuc : ℕ → ℤ

-- n <= 0
abbrev pub not_positive : ℤ → Bool
not_positive (pos zero) = true
not_positive (pos (suc n)) = false
not_positive (negsuc n) = true

-- strconv.Itoa of a number at least 0; the fuel is the number itself.
decimal_from : ℕ → ℕ → Text
decimal_from zero n = []
decimal_from (suc fuel) n =
    let more = decimal_from fuel (n / 10) ++ (48 + n % 10) ∷ [] in
    if ltb n 10 then (48 + n) ∷ [] else more

unfoldable pub decimal : ℕ → Text
unfolding decimal_from
decimal n = decimal_from (suc n) n

-- strconv.Itoa, and `%v` of an integer
unfoldable pub itoa : ℤ → Text
unfolding decimal
itoa (pos n) = decimal n
itoa (negsuc n) = b'-' ∷ decimal (suc n)

itoa_tests : (itoa (pos 7001) ≡ codes "7001") × (itoa (negsuc 9) ≡ codes "-10")
unfolding itoa
itoa_tests = (refl, refl)

read : ℕ → Text → ℕ
read acc [] = acc
read acc (c ∷ s) = read (acc * 10 + (c - 48)) s

read-append : (acc : ℕ) (s : Text) (c : ℕ) → read acc (s ++ c ∷ []) ≡ read acc s * 10 + (c - 48)
unfolding read
read-append acc [] c = refl
read-append acc (d ∷ s) c = read-append (acc * 10 + (d - 48)) s c

read-decimal_from : (fuel n : ℕ) → n < fuel → read 0 (decimal_from fuel n) ≡ n
unfolding decimal_from read
read-decimal_from zero n h = elim h [ ]
read-decimal_from (suc fuel) n h = ground (
  arith,
  read-decimal_from fuel (n / 10),
  read-append 0 (decimal_from fuel (n / 10)) (48 + n % 10),
)

decimal-injective : (m n : ℕ) → decimal m ≡ decimal n → m ≡ n
unfolding decimal
decimal-injective m n e =
    let left = read-decimal_from (suc m) m (omega arith) in
    let right = read-decimal_from (suc n) n (omega arith) in sym left ∙ ap (read 0) e ∙ right

abbrev pub IsDigit : ℕ → Type 0
IsDigit c = (48 ≤ c) × (c ≤ 57)

decimal_from-digits : (fuel n : ℕ) → All IsDigit (decimal_from fuel n)
unfolding decimal_from
decimal_from-digits zero n = tt
decimal_from-digits (suc fuel) n = elim (Bool-cases (ltb n 10)) [
  | inl h ↦ rw h ((omega arith, ground arith), tt)
  | inr h ↦ rw h (
      All-append IsDigit (decimal_from fuel (n / 10)) _ (decimal_from-digits fuel (n / 10))
        ((omega arith, omega arith), tt))
]

pub decimal-digits : (n : ℕ) → All IsDigit (decimal n)
unfolding decimal
decimal-digits n = decimal_from-digits (suc n) n

abbrev pub max_int64 : ℕ
max_int64 = 9223372036854775807

-- The value of a text of digits; `none` if another character occurs.
digits_value : ℕ → Text → Option ℕ
digits_value acc [] = some acc
digits_value acc (c ∷ s) =
    let later = digits_value (acc * 10 + (c - 48)) s in if leb 48 c && leb c 57 then later else none

-- At least one digit, and a value of at most `bound`.
atoi_digits : ℕ → Text → Option ℕ
atoi_digits bound [] = none
atoi_digits bound (c ∷ s) = elim (digits_value 0 (c ∷ s)) [
  | none ↦ none
  | some n ↦ if leb n bound then some n else none
]

negate : ℕ → ℤ
negate zero = pos 0
negate (suc n) = negsuc n

-- strconv.Atoi on a 64-bit machine; `none` is its error.
unfoldable pub atoi : Text → Option ℤ
unfolding atoi_digits digits_value negate
atoi [] = none
atoi (c ∷ s) =
    if nat_eq c b'-'
    then Option.map negate (atoi_digits (max_int64 + 1) s)
    else if nat_eq c b'+'
    then Option.map pos (atoi_digits max_int64 s)
    else Option.map pos (atoi_digits max_int64 (c ∷ s))

-- int32(n)
unfoldable pub to_int32 : ℤ → ℤ
to_int32 (pos n) =
    let m = n % 4294967296 in if ltb m 2147483648 then pos m else negsuc (4294967295 - m)
to_int32 (negsuc n) =
    let m = n % 4294967296 in if ltb m 2147483648 then negsuc m else pos (4294967295 - m)

atoi_tests :
    (atoi (codes "7001") ≡ some (pos 7001))
    × (atoi (codes "-1") ≡ some (negsuc 0))
    × (atoi (codes "9223372036854775808") ≡ none)
    × (atoi (codes "http") ≡ none)
unfolding atoi
atoi_tests = (refl, refl, refl, refl)

-- What Itoa prints of a number at least 0 that fits an int64, Atoi reads back.
digits_value-read : (acc : ℕ) (s : Text) → All IsDigit s → digits_value acc s ≡ some (read acc s)
unfolding digits_value read
digits_value-read acc [] h = refl
digits_value-read acc (c ∷ s) (d, h) = ground (arith, digits_value-read (acc * 10 + (c - 48)) s h)

decimal_from-cons :
    (fuel n : ℕ) → (c : ℕ) × (s : Text) × (decimal_from (suc fuel) n ≡ c ∷ s) × IsDigit c
unfolding decimal_from
decimal_from-cons fuel n = elim (Bool-cases (ltb n 10)) [
  | inl h ↦ (48 + n, [], rw h, (omega arith, ground arith))
  | inr h ↦
      let all = decimal_from-digits fuel (n / 10) in head fuel (decimal_from fuel (n / 10)) h all
]
  where
    head :
        (fuel : ℕ) (more : Text)
        → ltb n 10 ≡ false
        → All IsDigit more
        → (c : ℕ) × (s : Text) × ((if ltb n 10 then (48 + n) ∷ [] else more ++ (48 + n % 10) ∷ [])
            ≡ c ∷ s)
          × IsDigit c
    head fuel [] h d = (48 + n % 10, [], rw h, (omega arith, omega arith))
    head fuel (c ∷ more) h (d, ds) = (c, more ++ (48 + n % 10) ∷ [], rw h, d)

pub atoi-decimal : (n : ℕ) → n ≤ max_int64 → atoi (decimal n) ≡ some (pos n)
unfolding atoi decimal
atoi-decimal n h =
    let (c, s, e, d) = decimal_from-cons n n in
    let digits : All IsDigit (c ∷ s) = rw e at (decimal_from-digits (suc n) n) in
    let value : read 0 (c ∷ s) ≡ n = rw e at (read-decimal_from (suc n) n (omega arith)) in
    rw e (ground (arith, digits_value-read 0 (c ∷ s) digits))
