-- ===== src/Base/Slices.antt =====
-- Go slices: `none` is the nil slice, which the program tells apart from an empty one.
use mathlib.Core.Option.{Option, none, some}
use mathlib.Core.List.{List, [], ◌∷◌, ◌++◌}

abbrev pub Slice : Type 0 → Type 0
Slice A = Option (List A)

-- What a loop over a slice sees.
abbrev pub items : {A : Type 0} → Slice A → List A
items none = []
items (some xs) = xs

-- append(s, xs...): a nil slice stays nil when nothing is added.
abbrev pub append : {A : Type 0} → Slice A → List A → Slice A
append none [] = none
append none (x ∷ xs) = some (x ∷ xs)
append (some ys) xs = some (ys ++ xs)
