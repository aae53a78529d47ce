-- ===== src/Redis/Table/Tests.antt =====
-- Calls of two controllers on one redis, and the refinement at them.
use wls_ingress.Base.{true, false, List, [], ◌∷◌, none, ◌≡◌, refl, arith}
use wls_ingress.Base.Text.{Text, codes, ◌==◌, has_prefix, contains_text}
use wls_ingress.Base.Maps.{Map, lookup, insert, remove}
use wls_ingress.Redis.{
  found, get_endpoint, add_cookie, get_all_entries, clean, remove_endpoint, create_namespaced,
  create_namespaced_key,
}
use wls_ingress.Redis.Laws.{IsLiteral}
use wls_ingress.Redis.Server.{listing}
use wls_ingress.Redis.Clocked.{
  Clocked, clocked, clocked-IsRedis, clocked-IsReliable, clocked-IsTimed, sweep, shorten, stays,
  set_ttl,
}
use wls_ingress.Redis.Sweeping.{IsEntryOrder}
use wls_ingress.Redis.Table.{
  Call, adds, gets, cleans, removes, waits, waited, none_returned, got, no_error, replay, run_call,
  run,
}
use wls_ingress.Redis.Table.Keys.{PlainCalls, Holds}
use wls_ingress.Redis.Table.Refinement.{run-replay}
use mathlib.Core.List.Permᴰ

abbrev prefix : Text
prefix = codes "WLS-ING"

abbrev same_order : Map Text → Map Text
same_order m = m

same_order-IsEntryOrder : IsEntryOrder same_order
same_order-IsEntryOrder m = Permᴰ.refl m

prefix-IsLiteral : IsLiteral (create_namespaced prefix)
unfolding create_namespaced
prefix-IsLiteral = omega arith

-- Two sessions of which one is renewed; the other is gone after an hour. Then Clean and
-- RemoveEndpoint.
abbrev calls : List Call
calls =
    adds (codes "abc") (codes "10.0.0.1")
    ∷ adds (codes "def") (codes "10.0.0.2")
    ∷ waits 1800
    ∷ gets (codes "abc") true
    ∷ gets (codes "def") false
    ∷ waits 1800
    ∷ gets (codes "abc") false
    ∷ gets (codes "def") true
    ∷ cleans (codes "10.0.0.1" ∷ [])
    ∷ removes (codes "10.0.0.1")
    ∷ gets (codes "abc") true
    ∷ []

abbrev other_program : Clocked
other_program = record {
  values = (codes "other", codes "10.0.0.9") ∷ (codes "brief", codes "1") ∷ [];
  ttls = (codes "brief", 60) ∷ [];
}

run_calls :
    (run clocked prefix same_order clocked-IsTimed.passes calls other_program).0
    ≡ none_returned
      ∷ none_returned
      ∷ none_returned
      ∷ got (found (codes "10.0.0.1"))
      ∷ got (found (codes "10.0.0.2"))
      ∷ none_returned
      ∷ got (found (codes "10.0.0.1"))
      ∷ got (found [])
      ∷ no_error true
      ∷ none_returned
      ∷ got (found [])
      ∷ []
unfolding run run_call clean remove_endpoint get_all_entries get_endpoint add_cookie lookup insert
    remove create_namespaced_key ◌==◌ contains_text listing has_prefix clocked-IsTimed sweep shorten
    stays set_ttl
run_calls = refl

run_calls_left :
    (run clocked prefix same_order clocked-IsTimed.passes calls other_program).1.values
    ≡ (codes "other", codes "10.0.0.9") ∷ []
unfolding run run_call clean remove_endpoint get_all_entries get_endpoint add_cookie lookup insert
    remove create_namespaced_key ◌==◌ contains_text listing has_prefix clocked-IsTimed sweep shorten
    stays set_ttl
run_calls_left = refl

calls_plain : PlainCalls prefix calls
unfolding contains_text create_namespaced has_prefix
calls_plain = (refl, (refl, (tt, (refl, (refl, (tt, (refl, (refl, (tt, (tt, (refl, tt)))))))))))

abbrev nothing : Clocked
nothing = record { values = []; ttls = [] }

run-replay_example :
    ((run clocked prefix same_order clocked-IsTimed.passes calls nothing).0
      ≡ (replay calls (λ i. none)).0)
    × Holds clocked clocked-IsRedis clocked-IsTimed prefix
        (run clocked prefix same_order clocked-IsTimed.passes calls nothing).1
        (replay calls (λ i. none)).1
    × ((k : Text)
        → has_prefix k (create_namespaced prefix) ≡ false
        → clocked-IsRedis.view
            (run clocked prefix same_order clocked-IsTimed.passes calls nothing).1
            k
          ≡ clocked-IsRedis.view
              (waited clocked prefix same_order clocked-IsTimed.passes calls nothing)
              k)
unfolding clocked-IsRedis lookup
run-replay_example =
    run-replay clocked clocked-IsRedis clocked-IsTimed clocked-IsReliable prefix same_order
      same_order-IsEntryOrder prefix-IsLiteral (λ k s. refl) calls nothing (λ i. none) calls_plain
      empty_holds
  where
    empty_holds : Holds clocked clocked-IsRedis clocked-IsTimed prefix nothing (λ i. none)
    empty_holds j p = refl
