-- ===== src/Redis/Tests.antt =====
-- Runs of the session store on the server in memory, and the theorems at them.
use wls_ingress.Base.{true, [], ◌∷◌, ◌≡◌, ◌≢◌, refl, arith, inl, inr}
use wls_ingress.Base.Text.{Text, codes, contains_text, has_prefix, ◌==◌}
use wls_ingress.Base.Maps.{Map, lookup, insert, remove}
use wls_ingress.Redis.{
  found, get_endpoint, add_cookie, clean, create_namespaced, create_namespaced_key, get_all_entries,
}
use wls_ingress.Redis.Server.{server, listing, server-IsRedis}
use wls_ingress.Redis.Laws.{IsLiteral}
use wls_ingress.Redis.Sweeping.{IsEntryOrder}
use wls_ingress.Redis.Cleaning.{clean_keeps}
use mathlib.Core.List.Permᴰ

abbrev prefix : Text
prefix = codes "WLS-ING"

-- Two sessions, and a key of another program.
abbrev two_sessions : Map Text
two_sessions =
    (codes "WLS-ING:abc", codes "10.0.0.1")
    ∷ (codes "WLS-ING:def", codes "10.0.0.2")
    ∷ (codes "other", codes "10.0.0.9")
    ∷ []

abbrev same_order : Map Text → Map Text
same_order m = m

same_order-IsEntryOrder : IsEntryOrder same_order
same_order-IsEntryOrder m = Permᴰ.refl m

prefix-IsLiteral : IsLiteral (create_namespaced prefix)
unfolding create_namespaced
prefix-IsLiteral = omega arith

clean_run :
    clean server prefix same_order (codes "10.0.0.2" ∷ []) two_sessions
    ≡ (true, (codes "WLS-ING:def", codes "10.0.0.2") ∷ (codes "other", codes "10.0.0.9") ∷ [])
unfolding clean get_all_entries get_endpoint lookup insert remove create_namespaced_key ◌==◌
    contains_text listing has_prefix
clean_run = refl

add_run :
    (get_endpoint server prefix
      (codes "xyz")
      true
      (add_cookie server prefix (codes "xyz") (codes "10.0.0.7") [])).0
    ≡ found (codes "10.0.0.7")
unfolding get_endpoint add_cookie lookup insert create_namespaced_key ◌==◌ contains_text
add_run = refl

clean_keeps_example :
    lookup
      (codes "WLS-ING:def")
      (clean server prefix same_order (codes "10.0.0.2" ∷ []) two_sessions).1
    ≡ lookup (codes "WLS-ING:def") two_sessions
unfolding server-IsRedis lookup ◌==◌
clean_keeps_example =
    clean_keeps server server-IsRedis prefix same_order prefix-IsLiteral same_order-IsEntryOrder
      (codes "10.0.0.2" ∷ []) two_sessions (codes "WLS-ING:def")
      (inr (codes "10.0.0.2", refl, inl refl))

abc_ne_xyz : codes "xyz" ≢ codes "abc"
abc_ne_xyz e = ground (arith, e)
