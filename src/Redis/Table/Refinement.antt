-- ===== src/Redis/Table/Refinement.antt =====
-- The calls on redis do what they do on the table.
use wls_ingress.Base.{true, false, List, [], ◌∷◌, ◌≡◌, refl, ap, ◌∙◌, inl, inr, Bool-cases}
use wls_ingress.Base.Text.{Text, has_prefix, ◌==◌, ==_iff}
use wls_ingress.Base.Maps.{Map}
use wls_ingress.Redis.{Client, value, hour, get_endpoint, create_namespaced, create_namespaced_key}
use wls_ingress.Redis.Laws.{IsRedis, IsReliable, IsTimed, IsLiteral}
use wls_ingress.Redis.Lifetimes.{left-get_endpoint, left-renewed_other}
use wls_ingress.Redis.Entries.{view-get_endpoint}
use wls_ingress.Redis.Sweeping.{IsEntryOrder}
use wls_ingress.Redis.Table.{
  Call, adds, gets, cleans, removes, waits, got, no_error, Table, replay_call, replay, run_call,
  run, wait_call, waited,
}
use wls_ingress.Redis.Table.Keys.{
  PlainCall, PlainCalls, Holds, HoldsAt-same, Agrees-aged, key_prefixed, other_key, outside_key,
}
use wls_ingress.Redis.Table.Sessions.{added_value, added_other, got_self, got_other, got_address}
use wls_ingress.Redis.Table.Sweeps.{
  clean_succeeds, clean_lem, remove_endpoint_lem, Same, clean-Same, remove_endpoint-Same,
}

module _ (c : Client) (redis : IsRedis c) (timed : IsTimed c redis) (works : IsReliable c)
    (prefix : Text) (order : Map Text → Map Text) (o : IsEntryOrder order)
    (literal : IsLiteral (create_namespaced prefix))
    (renews : (k : Text) (s : c.State) → (c.expire k hour s).0 ≡ value tt) where
  open redis use {view}
  open timed use {left, passes}

  -- What one call on redis has to do.
  abbrev Simulates : Call → c.State → Table → Type 0
  Simulates x s f =
      ((run_call c prefix order passes x s).0 ≡ (replay_call x f).0)
      × Holds c redis timed prefix (run_call c prefix order passes x s).1 (replay_call x f).1

  run_call-Simulates :
      (x : Call) (s : c.State) (f : Table)
      → PlainCall prefix x
      → Holds c redis timed prefix s f
      → Simulates x s f
  unfolding run_call
  run_call-Simulates (adds j e) s f plain h = (
    refl,
    λ i q. elim (Bool-cases (j == i)) [
      | inl same ↦ rw (same, ← (==_iff j i).0 same) (added_value c redis timed works prefix j e s)
      | inr other ↦
          let key = create_namespaced_key prefix i in
          let (v, l) =
            added_other c redis timed works prefix j e s key (other_key prefix j i plain q other) in
          rw other (HoldsAt-same c redis timed s _ key (f i) v l (h i q))
    ],
  )
  run_call-Simulates (gets j true) s f plain h = (
    ap got (got_address c redis timed works prefix j true s (f j) (h j plain)),
    λ i q. elim (Bool-cases (j == i)) [
      | inl same ↦
          rw (same, ← (==_iff j i).0 same)
            (got_self c redis timed works prefix renews j s (f j) (h j plain))
      | inr other ↦ rw other (
          got_other c redis timed works prefix renews j s (create_namespaced_key prefix i) (f i)
            (other_key prefix j i plain q other) (h i q))
    ],
  )
  run_call-Simulates (gets j false) s f plain h = (
    ap got (got_address c redis timed works prefix j false s (f j) (h j plain)),
    λ i q.
        let key = create_namespaced_key prefix i in
        HoldsAt-same c redis timed s (get_endpoint c prefix j false s).1 key (f i)
          (view-get_endpoint c redis prefix j false s key)
          (left-get_endpoint c redis timed prefix j s key) (h i q),
  )
  run_call-Simulates (cleans endpoints) s f plain h = (
    ap no_error (clean_succeeds c redis timed works prefix order o literal endpoints s),
    λ i q.
        clean_lem c redis timed works prefix order o literal endpoints s
          (create_namespaced_key prefix i) (f i) (key_prefixed prefix i q) (h i q),
  )
  run_call-Simulates (removes e) s f plain h = (
    refl,
    λ i q.
        remove_endpoint_lem c redis timed works prefix order o literal e s
          (create_namespaced_key prefix i) (f i) (key_prefixed prefix i q) (h i q),
  )
  run_call-Simulates (waits t) s f plain h = (
    refl,
    λ i q.
        let key = create_namespaced_key prefix i in
        rw (timed.passes_view t s key, timed.passes_left t s key)
          (Agrees-aged t (view s key) (left s key) (f i) (h i q)),
  )

  module _ (k : Text) (outside : has_prefix k (create_namespaced prefix) ≡ false) where
    abbrev SameAt : c.State → c.State → Type 0
    SameAt = Same c redis timed works prefix order o literal k outside

    run_call-Same :
        (x : Call) (s s' : c.State)
        → PlainCall prefix x
        → SameAt s s'
        → SameAt (run_call c prefix order passes x s).1 (wait_call c prefix order passes x s')
    unfolding run_call
    run_call-Same (adds j e) s s' plain (v, l) =
        let (v', l') =
          added_other c redis timed works prefix j e s k (outside_key prefix j k plain outside) in
        (v' ∙ v, l' ∙ l)
    run_call-Same (gets j true) s s' plain (v, l) = (
      view-get_endpoint c redis prefix j true s k ∙ v,
      left-renewed_other c redis timed prefix j s k (outside_key prefix j k plain outside) ∙ l,
    )
    run_call-Same (gets j false) s s' plain (v, l) = (
      view-get_endpoint c redis prefix j false s k ∙ v,
      left-get_endpoint c redis timed prefix j s k ∙ l,
    )
    run_call-Same (cleans endpoints) s s' plain (v, l) =
        let (v', l') =
          clean-Same c redis timed works prefix order o literal k outside endpoints s in
        (v' ∙ v, l' ∙ l)
    run_call-Same (removes e) s s' plain (v, l) =
        let (v', l') =
          remove_endpoint-Same c redis timed works prefix order o literal k outside e s in
        (v' ∙ v, l' ∙ l)
    run_call-Same (waits t) s s' plain (v, l) = (
      timed.passes_view t s k ∙ rw (timed.passes_view t s' k, v, l) refl,
      timed.passes_left t s k ∙ rw (timed.passes_left t s' k, l) refl,
    )

    run-Same :
        (calls : List Call) (s s' : c.State)
        → PlainCalls prefix calls
        → SameAt s s'
        → SameAt (run c prefix order passes calls s).1 (waited c prefix order passes calls s')
    unfolding run waited
    run-Same [] s s' plain same = same
    run-Same (x ∷ calls) s s' (plain, more) same =
        run-Same calls (run_call c prefix order passes x s).1 (wait_call c prefix order passes x s')
          more (run_call-Same x s s' plain same)

  run-Holds :
      (calls : List Call) (s : c.State) (f : Table)
      → PlainCalls prefix calls
      → Holds c redis timed prefix s f
      → ((run c prefix order passes calls s).0 ≡ (replay calls f).0)
        × Holds c redis timed prefix (run c prefix order passes calls s).1 (replay calls f).1
  unfolding run replay
  run-Holds [] s f plain h = (refl, h)
  run-Holds (x ∷ calls) s f (plain, more) h =
      let (same, holds) = run_call-Simulates x s f plain h in
      let (same', holds') =
        run-Holds calls (run_call c prefix order passes x s).1 (replay_call x f).1 more holds in
      (cc, holds')

  -- When no command fails (EXPIRE included) and the prefix has no pattern character, any sequence of
  -- calls, made for cookies without the namespace in them and with any times between them, returns
  -- what the same calls return on a table from the cookies to the addresses. An entry of the table is
  -- kept for an hour from AddCookie, and from each GetEndpoint that is to renew it, and is gone when
  -- the hour is over, or when Clean or RemoveEndpoint drops its address. Redis holds that table
  -- afterwards, with the times that are left, and the keys outside the namespace are as if only the
  -- time had passed.
  pub run-replay :
      (calls : List Call) (s : c.State) (f : Table)
      → PlainCalls prefix calls
      → Holds c redis timed prefix s f
      → ((run c prefix order passes calls s).0 ≡ (replay calls f).0)
        × Holds c redis timed prefix (run c prefix order passes calls s).1 (replay calls f).1
        × ((k : Text)
            → has_prefix k (create_namespaced prefix) ≡ false
            → view (run c prefix order passes calls s).1 k
              ≡ view (waited c prefix order passes calls s) k)
  run-replay calls s f plain h =
      let (same, holds) = run-Holds calls s f plain h in
      (same, holds, λ k p. (run-Same k p calls s s plain (refl, refl)).0)
