-- ===== src/Redis.antt =====
-- internal/redis/redis.go: the sessions in redis. The go-redis client is a parameter; its calls
-- thread the state of the server and may fail. A call that the code makes without looking at its
-- error is made here too, and its error has no effect.
pub mod Keys
pub mod Laws
pub mod Entries
pub mod Sweeping
pub mod Cleaning
pub mod Sessions
pub mod Table
pub mod Server
pub mod Lifetimes
pub mod Clocked
mod Tests
use wls_ingress.Base.{
  ℕ, Bool, true, false, List, [], ◌∷◌, ◌++◌, Option, none, some, if◌then◌else◌, ◌||◌,
}
use wls_ingress.Base.Text.{Text, codes, ◌==◌, contains_text}
use wls_ingress.Base.Maps.{Map, insert}

-- A reply: redis.Nil, another error, or a value.
pub data Reply (A : Type 0) : Type 0 where
  nil : Reply A
  failed : Reply A
  value : A → Reply A

-- The calls of *redis.Client. `set` and `expire` have the time after which the key expires, in
-- seconds.
pub record Client : Type 1 where
  pub State : Type 0
  pub get : Text → State → Reply Text × State
  pub set : (k v : Text) → (ttl : ℕ) → State → Reply (Unit {0}) × State
  pub del : Text → State → Reply (Unit {0}) × State
  pub keys : Text → State → Reply (List Text) × State
  pub expire : (k : Text) → (ttl : ℕ) → State → Reply (Unit {0}) × State

-- time.Hour
abbrev pub hour : ℕ
hour = 3600

-- What GetEndpoint returns: an address with no error, or an error.
pub data Got : Type 0 where
  found : Text → Got
  error : Got

-- contains
unfoldable pub contains : List Text → Text → Bool
contains [] x = false
contains (n ∷ a) x = x == n || contains a x

-- createNamespaced
unfoldable pub create_namespaced : (prefix : Text) → Text
create_namespaced prefix = prefix ++ (b':' ∷ [])

-- createNamespacedKey
unfoldable pub create_namespaced_key : (prefix : Text) → Text → Text
unfolding create_namespaced
create_namespaced_key prefix key =
    if contains_text key (create_namespaced prefix) then key else create_namespaced prefix ++ key

module _ (client : Client) (prefix : Text) where
  -- GetEndpoint after the reply; `key` is the namespaced key.
  pub got_reply : Text → Bool → Reply Text → client.State → Got × client.State
  got_reply key update nil s = (found [], s)
  got_reply key update failed s = (error, s)
  got_reply key true (value v) s = (found v, (client.expire key hour s).1)
  got_reply key false (value v) s = (found v, s)

  -- GetEndpoint
  unfoldable pub get_endpoint : Text → Bool → client.State → Got × client.State
  unfolding got_reply
  get_endpoint jsession update s =
      let (r, s') = client.get (create_namespaced_key prefix jsession) s in
      got_reply (create_namespaced_key prefix jsession) update r s'

  -- AddCookie
  unfoldable pub add_cookie : Text → Text → client.State → client.State
  add_cookie jsession endpoint s =
      (client.set (create_namespaced_key prefix jsession) endpoint hour s).1

  -- One round of the loop of getAllEntries: a cookie whose lookup fails is left out.
  pub add_entry : Text → Got → Map Text → Map Text
  add_entry cookie (found endpoint) entries = insert cookie endpoint entries
  add_entry cookie error entries = entries

  pub entries_of : List Text → Map Text → client.State → Map Text × client.State
  unfolding get_endpoint add_entry
  entries_of [] entries s = (entries, s)
  entries_of (cookie ∷ cookies) entries s =
      let (g, s') = get_endpoint cookie false s in
      entries_of cookies (add_entry cookie g entries) s'

  -- getAllEntries after the reply to KEYS; `none` is an error.
  pub all_of_reply : Reply (List Text) → client.State → Option (Map Text) × client.State
  unfolding entries_of
  all_of_reply nil s = (some [], s)
  all_of_reply failed s = (none, s)
  all_of_reply (value cookies) s = let (entries, s') = entries_of cookies [] s in (some entries, s')

  -- getAllEntries
  unfoldable pub get_all_entries : client.State → Option (Map Text) × client.State
  unfolding all_of_reply
  get_all_entries s =
      let (r, s') = client.keys (create_namespaced_key prefix (b'*' ∷ [])) s in all_of_reply r s'

  -- The loops of Clean and RemoveEndpoint: delete the entries whose value passes the test.
  pub delete_entries : (Text → Bool) → Map Text → client.State → client.State
  delete_entries goes [] s = s
  delete_entries goes ((k, v) ∷ entries) s =
      delete_entries goes entries (if goes v then (client.del k s).1 else s)

  -- The test of Clean.
  pub is_stale : List Text → Text → Bool
  is_stale endpoints v = if contains endpoints v then false else true

  -- Clean; `order` is the order of the range, and the Boolean says that no error is returned.
  unfoldable pub clean :
      (order : Map Text → Map Text) → List Text → client.State → Bool × client.State
  unfolding get_all_entries delete_entries is_stale contains
  clean order endpoints s =
      let (entries, s') = get_all_entries s in
      elim entries [
        | none ↦ (false, s')
        | some m ↦ (true, delete_entries (is_stale endpoints) (order m) s')
      ]

  -- RemoveEndpoint, which never returns an error.
  unfoldable pub remove_endpoint :
      (order : Map Text → Map Text) → Text → client.State → client.State
  unfolding get_all_entries delete_entries
  remove_endpoint order endpoint s =
      let (entries, s') = get_all_entries s in
      elim entries [ none ↦ s' | some m ↦ delete_entries (λ v. endpoint == v) (order m) s' ]
