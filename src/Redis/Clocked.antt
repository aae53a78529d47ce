-- ===== src/Redis/Clocked.antt =====
-- A server in memory whose keys expire, for the examples.
use wls_ingress.Base.{
  ℕ, ◌-◌, ltb, Bool, true, [], ◌∷◌, Option, none, some, ◌≡◌, ◌≢◌, refl, ◌∙◌, arith, inl, inr,
  Bool-cases, if◌then◌else◌,
}
use wls_ingress.Base.Text.{Text, ◌==◌, ==_iff, ==_refl}
use wls_ingress.Base.Maps.{Map, lookup, insert, lookup-insert}
use wls_ingress.Redis.{Client, value}
use wls_ingress.Redis.Laws.{IsRedis, IsReliable, IsTimed, less, fade}
use wls_ingress.Redis.Server.{server, server-IsRedis, server-IsReliable}

-- The values, and the seconds that are left to the keys that expire.
pub record Clocked : Type 0 where
  pub values : Map Text
  pub ttls : Map ℕ

unfoldable pub set_ttl : Option Text → Text → ℕ → Map ℕ → Map ℕ
set_ttl none k ttl m = m
set_ttl (some v) k ttl m = insert k ttl m

unfoldable pub stays : ℕ → Option ℕ → Bool
stays t none = true
stays t (some l) = ltb t l

-- What is left after `t` seconds.
unfoldable pub sweep : ℕ → Map ℕ → Map Text → Map Text
sweep t ttls [] = []
sweep t ttls ((k, v) ∷ m) =
    let more = sweep t ttls m in if stays t (lookup k ttls) then (k, v) ∷ more else more

unfoldable pub shorten : ℕ → Map ℕ → Map ℕ
shorten t [] = []
shorten t ((k, l) ∷ m) = (k, l - t) ∷ shorten t m

abbrev pub clocked : Client
clocked = record {
  State = Clocked;
  get = λ k s. ((server.get k s.values).0, s);
  set =
      λ k v ttl s. (value tt, record { values = insert k v s.values; ttls = insert k ttl s.ttls });
  del = λ k s. (value tt, record s { values = (server.del k s.values).1 });
  keys = λ p s. ((server.keys p s.values).0, s);
  expire = λ k ttl s. (value tt, record s { ttls = set_ttl (lookup k s.values) k ttl s.ttls });
}

unfoldable pub clocked-IsRedis : IsRedis clocked
unfolding server-IsRedis
clocked-IsRedis = record {
  view = λ s k. lookup k s.values;
  get_view = λ k s j. refl;
  get_value = λ k s v e. server-IsRedis.get_value k s.values v e;
  get_nil = λ k s e. server-IsRedis.get_nil k s.values e;
  set_other = λ k v ttl s j n. server-IsRedis.set_other k v ttl s.values j n;
  set_value = λ k v ttl s e. server-IsRedis.set_value k v ttl s.values refl;
  del_other = λ k s j n. server-IsRedis.del_other k s.values j n;
  del_value = λ k s e. server-IsRedis.del_value k s.values refl;
  del_failed = λ k s. server-IsRedis.del_failed k s.values;
  keys_view = λ p s j. refl;
  keys_sound = λ p s ks k l e i. server-IsRedis.keys_sound p s.values ks k l e i;
  keys_complete = λ p s ks k l e h n. server-IsRedis.keys_complete p s.values ks k l e h n;
  expire_view = λ k ttl s j pos. refl;
}

pub clocked-IsReliable : IsReliable clocked
clocked-IsReliable = record {
  get_works = λ k s e. server-IsReliable.get_works k s.values e;
  set_works = λ k v ttl s. refl;
  del_works = λ k s. refl;
  keys_work = λ p s. server-IsReliable.keys_work p s.values;
}

pub stays-fade :
    (t : ℕ) (l : Option ℕ) (v : Option Text) → (if stays t l then v else none) ≡ fade t l v
unfolding stays
stays-fade t none v = refl
stays-fade t (some l) v = refl

pub lookup-sweep :
    (t : ℕ) (ttls : Map ℕ) (k : Text) (m : Map Text)
    → lookup k (sweep t ttls m) ≡ (if stays t (lookup k ttls) then lookup k m else none)
unfolding sweep lookup
lookup-sweep t ttls k [] = elim (Bool-cases (stays t (lookup k ttls))) [
  | inl e ↦ rw e
  | inr e ↦ rw e
]
lookup-sweep t ttls k ((j, v) ∷ m) = elim (Bool-cases (j == k)) [
  | inl same ↦
      let eq = (==_iff j k).0 same in
      let later = lookup-sweep t ttls k m in
      elim (Bool-cases (stays t (lookup k ttls))) [
        | inl e ↦ rw (eq, e, ==_refl k) refl
        | inr e ↦ rw (eq, e) (rw e at later)
      ]
  | inr other ↦
      let later = lookup-sweep t ttls k m in
      elim (Bool-cases (stays t (lookup j ttls))) [
        | inl e ↦ rw (e, other) later
        | inr e ↦ rw (e, other) later
      ]
]

pub lookup-shorten : (t : ℕ) (k : Text) (m : Map ℕ) → lookup k (shorten t m) ≡ less t (lookup k m)
unfolding shorten lookup
lookup-shorten t k [] = refl
lookup-shorten t k ((j, l) ∷ m) = elim (Bool-cases (j == k)) [
  | inl e ↦ rw e
  | inr e ↦ rw e (lookup-shorten t k m)
]

pub ttl_self : (k : Text) (ttl : ℕ) (m : Map ℕ) → lookup k (insert k ttl m) ≡ some ttl
ttl_self k ttl m = ground (arith, lookup-insert k k ttl m, ==_refl k)

pub ttl_other : (k j : Text) (ttl : ℕ) (m : Map ℕ) → k ≢ j → lookup j (insert k ttl m) ≡ lookup j m
ttl_other k j ttl m n = ground (arith, lookup-insert k j ttl m, ==_iff k j)

pub renewed_self :
    (v : Option Text) (k : Text) (ttl : ℕ) (m : Map ℕ)
    → v ≢ none
    → lookup k (set_ttl v k ttl m) ≡ some ttl
unfolding set_ttl
renewed_self none k ttl m h = absurd (h refl)
renewed_self (some v) k ttl m h = ttl_self k ttl m

pub renewed_other :
    (v : Option Text) (k j : Text) (ttl : ℕ) (m : Map ℕ)
    → k ≢ j
    → lookup j (set_ttl v k ttl m) ≡ lookup j m
unfolding set_ttl
renewed_other none k j ttl m n = refl
renewed_other (some v) k j ttl m n = ttl_other k j ttl m n

unfoldable pub clocked-IsTimed : IsTimed clocked clocked-IsRedis
unfolding clocked-IsRedis
clocked-IsTimed = record {
  left = λ s k. lookup k s.ttls;
  passes = λ t s. record { values = sweep t s.ttls s.values; ttls = shorten t s.ttls };
  passes_view = λ t s k.
      lookup-sweep t s.ttls k s.values ∙ stays-fade t (lookup k s.ttls) (lookup k s.values);
  passes_left = λ t s k. lookup-shorten t k s.ttls;
  get_left = λ k s j. refl;
  keys_left = λ p s j. refl;
  del_left = λ k s j n. refl;
  set_left = λ k v ttl s pos e. ttl_self k ttl s.ttls;
  set_left_other = λ k v ttl s j n. ttl_other k j ttl s.ttls n;
  expire_left = λ k ttl s there e. renewed_self (lookup k s.values) k ttl s.ttls there;
  expire_left_other = λ k ttl s j n. renewed_other (lookup k s.values) k j ttl s.ttls n;
}
