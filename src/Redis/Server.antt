-- ===== src/Redis/Server.antt =====
-- A server in memory that meets the laws, for the examples in which no time passes.
use wls_ingress.Base.{ℕ, true, List, [], ◌∷◌, ◌++◌, Option, none, some, ◌≡◌, ◌≢◌, In}
use wls_ingress.Base.{refl, sym, ap, subst, arith, inl, inr, Bool-cases, if◌then◌else◌}
use wls_ingress.Base.Text.{Text, has_prefix, ◌==◌, ==_iff, ==_refl}
use wls_ingress.Base.Maps.{Map, lookup, insert, remove, lookup-insert, lookup-remove}
use wls_ingress.Redis.{Client, Reply, nil, failed, value}
use wls_ingress.Redis.Laws.{IsRedis, IsReliable}

abbrev pub reply_of : Option Text → Reply Text
reply_of none = nil
reply_of (some v) = value v

abbrev pub drop_last : Text → Text
drop_last [] = []
drop_last (c ∷ []) = []
drop_last (c ∷ d ∷ s) = c ∷ drop_last (d ∷ s)

drop_last-append : (p : Text) (c : ℕ) → drop_last (p ++ c ∷ []) ≡ p
drop_last-append [] c = refl
drop_last-append (d ∷ []) c = refl
drop_last-append (d ∷ e ∷ p) c = ground (arith, drop_last-append (e ∷ p) c)

-- The keys with the prefix.
unfoldable pub listing : Text → Map Text → List Text
listing p [] = []
listing p ((k, v) ∷ m) = let more = listing p m in if has_prefix k p then k ∷ more else more

pub listing_sound :
    (p k : Text) (m : Map Text) → In k (listing p m) → (has_prefix k p ≡ true) × (lookup k m ≢ none)
unfolding listing lookup
listing_sound p k [] i = elim i [ ]
listing_sound p k ((j, v) ∷ m) i = elim (Bool-cases (has_prefix j p)) [
  | inl h ↦ elim (rw h at i) [
    | inl e ↦ (rw e h, λ n. ground (arith, ==_iff j k))
    | inr r ↦ let (a, b) = listing_sound p k m r in (a, λ n. ground (arith, b))
  ]
  | inr h ↦ let (a, b) = listing_sound p k m (rw h at i) in (a, λ n. ground (arith, b))
]

pub listing_complete :
    (p k : Text) (m : Map Text) → has_prefix k p ≡ true → lookup k m ≢ none → In k (listing p m)
unfolding listing lookup
listing_complete p k [] h n = absurd (n refl)
listing_complete p k ((j, v) ∷ m) h n = elim (Bool-cases (j == k)) [
  | inl e ↦
      let same = (==_iff j k).0 e in
      let front : has_prefix j p ≡ true = rw same h in rw front (inl (sym same))
  | inr e ↦
      let later = listing_complete p k m h (λ q. n (rw e q)) in
      elim (Bool-cases (has_prefix j p)) [ inl f ↦ rw f (inr later) | inr f ↦ rw f later ]
]

abbrev pub server : Client
server = record {
  State = Map Text;
  get = λ k s. (reply_of (lookup k s), s);
  set = λ k v ttl s. (value tt, insert k v s);
  del = λ k s. (value tt, remove k s);
  keys = λ p s. (value (listing (drop_last p) s), s);
  expire = λ k ttl s. (value tt, s);
}

pub reply_of_value : (o : Option Text) (v : Text) → reply_of o ≡ value v → o ≡ some v
reply_of_value none v e = cc
reply_of_value (some w) v e = cc

pub reply_of_nil : (o : Option Text) → reply_of o ≡ nil → o ≡ none
reply_of_nil none e = refl
reply_of_nil (some w) e = cc

reply_of_failed : (o : Option Text) → reply_of o ≢ failed
reply_of_failed none e = cc
reply_of_failed (some w) e = cc

pub lookup-insert_ne : (k j v : Text) (m : Map Text) → k ≢ j → lookup j (insert k v m) ≡ lookup j m
lookup-insert_ne k j v m n = ground (arith, lookup-insert k j v m, ==_iff k j)

pub lookup-insert_self : (k v : Text) (m : Map Text) → lookup k (insert k v m) ≡ some v
lookup-insert_self k v m = ground (arith, lookup-insert k k v m, ==_refl k)

pub lookup-remove_ne : (k j : Text) (m : Map Text) → k ≢ j → lookup j (remove k m) ≡ lookup j m
lookup-remove_ne k j m n = ground (arith, lookup-remove k j m, ==_iff k j)

pub lookup-remove_self : (k : Text) (m : Map Text) → lookup k (remove k m) ≡ none
lookup-remove_self k m = ground (arith, lookup-remove k k m, ==_refl k)

pub listed :
    (p : Text) (m : Map Text) (ks : List Text)
    → value (listing (drop_last (p ++ b'*' ∷ [])) m) ≡ value ks
    → listing p m ≡ ks
listed p m ks e = cc (ap (λ (q : Text). listing q m) (drop_last-append p b'*'))

unfoldable pub server-IsRedis : IsRedis server
server-IsRedis = record {
  view = λ s k. lookup k s;
  get_view = λ k s j. refl;
  get_value = λ k s v e. reply_of_value (lookup k s) v e;
  get_nil = λ k s e. reply_of_nil (lookup k s) e;
  set_other = λ k v ttl s j n. lookup-insert_ne k j v s n;
  set_value = λ k v ttl s e. lookup-insert_self k v s;
  del_other = λ k s j n. lookup-remove_ne k j s n;
  del_value = λ k s e. lookup-remove_self k s;
  del_failed = λ k s. inl (lookup-remove_self k s);
  keys_view = λ p s j. refl;
  keys_sound = λ p s ks k l e i.
      listing_sound p k s (subst (λ (l : List Text). In k l) (sym (listed p s ks e)) i);
  keys_complete = λ p s ks k l e h n.
      subst (λ (l : List Text). In k l) (listed p s ks e) (listing_complete p k s h n);
  expire_view = λ k ttl s j pos. refl;
}

pub server-IsReliable : IsReliable server
server-IsReliable = record {
  get_works = λ k s e. reply_of_failed (lookup k s) e;
  set_works = λ k v ttl s. refl;
  del_works = λ k s. refl;
  keys_work = λ p s. (listing (drop_last p) s, refl);
}
