-- ===== src/Redis/Table/Keys.antt =====
-- When redis holds the table, and the keys of its cookies.
use wls_ingress.Base.{◌≢◌, ℕ, ltb, Option, none, true, false, List, some, ◌≡◌, All}
use wls_ingress.Base.{refl, inl, inr, Bool-cases}
use wls_ingress.Base.Text.{Text, contains_text, has_prefix, has_prefix-append, ◌==◌, ==_iff}
use wls_ingress.Redis.{Client, create_namespaced, create_namespaced_key}
use wls_ingress.Redis.Laws.{IsRedis, IsTimed, less, fade}
use wls_ingress.Redis.Keys.{create_namespaced_key-injective}
use wls_ingress.Redis.Table.{Call, adds, gets, cleans, removes, waits, aged, Table}

-- A cookie without the namespace in it.
abbrev pub IsPlain : (prefix : Text) → Text → Type 0
IsPlain prefix j = contains_text j (create_namespaced prefix) ≡ false

abbrev pub PlainCall : (prefix : Text) → Call → Type 0
PlainCall prefix (adds j e) = IsPlain prefix j
PlainCall prefix (gets j update) = IsPlain prefix j
PlainCall prefix (cleans endpoints) = Unit
PlainCall prefix (removes e) = Unit
PlainCall prefix (waits t) = Unit

abbrev pub PlainCalls : (prefix : Text) → List Call → Type 0
PlainCalls prefix = All (PlainCall prefix)

pub key_prefixed :
    (prefix j : Text)
    → IsPlain prefix j
    → has_prefix (create_namespaced_key prefix j) (create_namespaced prefix) ≡ true
unfolding create_namespaced_key
key_prefixed prefix j h = rw h (has_prefix-append (create_namespaced prefix) j)

-- A key of redis, by its value and its time to live, is as the table has it.
abbrev pub Agrees : Option Text → Option ℕ → Option (Text × ℕ) → Type 0
Agrees v l none = v ≡ none
Agrees v l (some (a, n)) = (v ≡ some a) × (l ≡ some n)

pub Agrees-aged :
    (t : ℕ) (v : Option Text) (l : Option ℕ) (e : Option (Text × ℕ))
    → Agrees v l e
    → Agrees (fade t l v) (less t l) (aged t e)
Agrees-aged t v none none h = h
Agrees-aged t v (some l) none h = elim (Bool-cases (ltb t l)) [ inl e ↦ rw e h | inr e ↦ rw e refl ]
Agrees-aged t v l (some (a, n)) (h, g) = elim (Bool-cases (ltb t n)) [
  | inl e ↦ rw (g, e) (h, refl)
  | inr e ↦ rw (g, e) refl
]

pub other_key :
    (prefix j i : Text)
    → IsPlain prefix j
    → IsPlain prefix i
    → (j == i) ≡ false
    → create_namespaced_key prefix j ≢ create_namespaced_key prefix i
other_key prefix j i p q other same =
    let eq = (create_namespaced_key-injective prefix j i p q).0 same in
    cc ((==_iff j i).1 eq, other)

pub outside_key :
    (prefix j k : Text)
    → IsPlain prefix j
    → has_prefix k (create_namespaced prefix) ≡ false
    → create_namespaced_key prefix j ≢ k
outside_key prefix j k p q same = cc (rw same at (key_prefixed prefix j p), q)

module _ (c : Client) (redis : IsRedis c) (timed : IsTimed c redis) where
  open redis use {view}
  open timed use {left}

  -- What redis has at the key of a cookie is what the table has at the cookie.
  abbrev pub HoldsAt : c.State → Text → Option (Text × ℕ) → Type 0
  HoldsAt s k e = Agrees (view s k) (left s k) e

  -- The table that redis holds, at the cookies without the namespace in them.
  abbrev pub Holds : (prefix : Text) → c.State → Table → Type 0
  Holds prefix s f =
      (j : Text) → IsPlain prefix j → HoldsAt s (create_namespaced_key prefix j) (f j)

  pub HoldsAt-same :
      (s s' : c.State) (k : Text) (entry : Option (Text × ℕ))
      → view s' k ≡ view s k
      → left s' k ≡ left s k
      → HoldsAt s k entry
      → HoldsAt s' k entry
  HoldsAt-same s s' k entry v l h = rw (v, l) h
