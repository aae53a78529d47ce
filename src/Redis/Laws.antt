-- ===== src/Redis/Laws.antt =====
-- What the code relies on of redis: the documented effect of its commands, for a server that no
-- one else writes to during a call and whose keys do not expire during it; and for what happens
-- between the calls, that keys expire.
use wls_ingress.Base.{
  ℕ, ◌<◌, ◌-◌, ltb, if◌then◌else◌, true, List, [], ◌∷◌, ◌++◌, Option, none, some, ◌≡◌, ◌≢◌, ◌⊎◌, In,
  All,
}
use wls_ingress.Base.Text.{Text, has_prefix}
use wls_ingress.Redis.{Client, nil, failed, value}

-- No character with a meaning in a pattern of KEYS.
abbrev pub IsLiteral : Text → Type 0
IsLiteral = All (λ c. (c ≢ b'*') × (c ≢ b'?') × (c ≢ b'[') × (c ≢ b'\\'))

pub record IsRedis (c : Client) : Type 0 where
  -- The value stored under a key.
  pub view : c.State → Text → Option Text
  pub get_view : (k : Text) (s : c.State) (j : Text) → view (c.get k s).1 j ≡ view s j
  pub get_value : (k : Text) (s : c.State) (v : Text) → (c.get k s).0 ≡ value v → view s k ≡ some v
  pub get_nil : (k : Text) (s : c.State) → (c.get k s).0 ≡ nil → view s k ≡ none
  pub set_other :
      (k v : Text) (ttl : ℕ) (s : c.State) (j : Text)
      → k ≢ j
      → view (c.set k v ttl s).1 j ≡ view s j
  pub set_value :
      (k v : Text) (ttl : ℕ) (s : c.State)
      → (c.set k v ttl s).0 ≡ value tt
      → view (c.set k v ttl s).1 k ≡ some v
  pub del_other : (k : Text) (s : c.State) (j : Text) → k ≢ j → view (c.del k s).1 j ≡ view s j
  pub del_value : (k : Text) (s : c.State) → (c.del k s).0 ≡ value tt → view (c.del k s).1 k ≡ none
  pub del_failed :
      (k : Text) (s : c.State) → (view (c.del k s).1 k ≡ none) ⊎ (view (c.del k s).1 k ≡ view s k)
  pub keys_view : (p : Text) (s : c.State) (j : Text) → view (c.keys p s).1 j ≡ view s j
  pub keys_sound :
      (p : Text) (s : c.State) (ks : List Text) (k : Text)
      → IsLiteral p
      → (c.keys (p ++ b'*' ∷ []) s).0 ≡ value ks
      → In k ks
      → (has_prefix k p ≡ true) × (view s k ≢ none)
  pub keys_complete :
      (p : Text) (s : c.State) (ks : List Text) (k : Text)
      → IsLiteral p
      → (c.keys (p ++ b'*' ∷ []) s).0 ≡ value ks
      → has_prefix k p ≡ true
      → view s k ≢ none
      → In k ks
  pub expire_view :
      (k : Text) (ttl : ℕ) (s : c.State) (j : Text)
      → 0 < ttl
      → view (c.expire k ttl s).1 j ≡ view s j

-- A connection on which no command fails: KEYS has a list, GET fails on no key, SET and DEL
-- succeed.
pub record IsReliable (c : Client) : Type 0 where
  pub get_works : (k : Text) (s : c.State) → (c.get k s).0 ≢ failed
  pub set_works : (k v : Text) (ttl : ℕ) (s : c.State) → (c.set k v ttl s).0 ≡ value tt
  pub del_works : (k : Text) (s : c.State) → (c.del k s).0 ≡ value tt
  pub keys_work : (p : Text) (s : c.State) → (ks : List Text) × ((c.keys p s).0 ≡ value ks)

-- What is left of a time to live after `t` seconds, and of the value of a key with it: a key without
-- an expiry stays.
abbrev pub less : ℕ → Option ℕ → Option ℕ
less t none = none
less t (some l) = some (l - t)

abbrev pub fade : ℕ → Option ℕ → Option Text → Option Text
fade t none v = v
fade t (some l) v = if ltb t l then v else none

-- The server in time. `left` is the time to live of a key, if it is to expire, and `passes` lets
-- seconds pass between calls.
pub record IsTimed (c : Client) (redis : IsRedis c) : Type 0 where
  pub left : c.State → Text → Option ℕ
  pub passes : ℕ → c.State → c.State
  pub passes_view :
      (t : ℕ) (s : c.State) (k : Text)
      → redis.view (passes t s) k ≡ fade t (left s k) (redis.view s k)
  pub passes_left : (t : ℕ) (s : c.State) (k : Text) → left (passes t s) k ≡ less t (left s k)
  pub get_left : (k : Text) (s : c.State) (j : Text) → left (c.get k s).1 j ≡ left s j
  pub keys_left : (p : Text) (s : c.State) (j : Text) → left (c.keys p s).1 j ≡ left s j
  pub del_left : (k : Text) (s : c.State) (j : Text) → k ≢ j → left (c.del k s).1 j ≡ left s j
  pub set_left :
      (k v : Text) (ttl : ℕ) (s : c.State)
      → 0 < ttl
      → (c.set k v ttl s).0 ≡ value tt
      → left (c.set k v ttl s).1 k ≡ some ttl
  pub set_left_other :
      (k v : Text) (ttl : ℕ) (s : c.State) (j : Text)
      → k ≢ j
      → left (c.set k v ttl s).1 j ≡ left s j
  pub expire_left :
      (k : Text) (ttl : ℕ) (s : c.State)
      → redis.view s k ≢ none
      → (c.expire k ttl s).0 ≡ value tt
      → left (c.expire k ttl s).1 k ≡ some ttl
  pub expire_left_other :
      (k : Text) (ttl : ℕ) (s : c.State) (j : Text) → k ≢ j → left (c.expire k ttl s).1 j ≡ left s j
