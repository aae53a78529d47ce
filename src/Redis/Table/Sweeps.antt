-- ===== src/Redis/Table/Sweeps.antt =====
-- What Clean and RemoveEndpoint do to the keys of the table, and to the others.
use wls_ingress.Base.{ℕ, Option, none, Bool, true, false, not, List, some, ◌≡◌, In}
use wls_ingress.Base.{refl, subst, ◌∙◌, arith, inl, inr, Bool-cases}
use wls_ingress.Base.Text.{Text, has_prefix, ◌==◌}
use wls_ingress.Base.Maps.{Map}
use mathlib.Core.Path.{fun_ext}
use wls_ingress.Redis.{
  Client, get_all_entries, delete_entries, is_stale, clean, remove_endpoint, contains,
  create_namespaced,
}
use wls_ingress.Redis.Laws.{IsRedis, IsReliable, IsTimed, IsLiteral}
use wls_ingress.Redis.Lifetimes.{left-sweep}
use wls_ingress.Redis.Entries.{get_all_entries_complete}
use wls_ingress.Redis.Sweeping.{IsEntryOrder, sweep_kept, sweep_deletes}
use wls_ingress.Redis.Cleaning.{clean_keeps, remove_endpoint-exact}
use wls_ingress.Redis.Table.{kept}
use wls_ingress.Redis.Table.Keys.{HoldsAt}

module _ (c : Client) (redis : IsRedis c) (timed : IsTimed c redis) (works : IsReliable c)
    (prefix : Text) (order : Map Text → Map Text) (o : IsEntryOrder order)
    (literal : IsLiteral (create_namespaced prefix)) where
  open redis use {view}
  open timed use {left}

  -- A sweep that deletes the values which pass a test, seen at a key of the namespace.
  sweep_lem :
      (goes : Text → Bool) (s : c.State) (m : Map Text) (k : Text) (entry : Option (Text × ℕ))
      → (get_all_entries c prefix s).0 ≡ some m
      → ((k v : Text)
          → has_prefix k (create_namespaced prefix) ≡ true
          → view s k ≡ some v
          → In (k, v) m)
      → has_prefix k (create_namespaced prefix) ≡ true
      → HoldsAt c redis timed s k entry
      → HoldsAt c redis timed
          (delete_entries c prefix goes (order m) (get_all_entries c prefix s).1)
          k
          (kept (λ v. not (goes v)) entry)
  sweep_lem goes s m k none e all p h =
      sweep_kept c redis prefix goes literal order o s m k e (λ v l q. absurd (ground (arith, h)))
      ∙ h
  sweep_lem goes s m k (some (v, n)) e all p (h, l) = elim (Bool-cases (goes v)) [
    | inl gone ↦
        rw gone (sweep_deletes c redis prefix goes literal order o works s m k v (all k v p h) gone)
    | inr stays ↦
        let keeps : (w : Text)
            → view s k ≡ some w
            → has_prefix k (create_namespaced prefix) ≡ true
            → goes w ≡ false =
          λ w l' q. let same : w ≡ v = cc in rw same stays in
        rw stays (
          sweep_kept c redis prefix goes literal order o s m k e keeps ∙ h,
          left-sweep c redis timed prefix goes order s m k literal o e keeps ∙ l,
        )
  ]

  pub clean_succeeds :
      (endpoints : List Text) (s : c.State) → (clean c prefix order endpoints s).0 ≡ true
  unfolding clean
  clean_succeeds endpoints s =
      let (m, e, all) = get_all_entries_complete c redis prefix literal works s in
      rw (e, clean) refl

  pub clean_lem :
      (endpoints : List Text) (s : c.State) (k : Text) (entry : Option (Text × ℕ))
      → has_prefix k (create_namespaced prefix) ≡ true
      → HoldsAt c redis timed s k entry
      → HoldsAt c redis timed
          (clean c prefix order endpoints s).1
          k
          (kept (contains endpoints) entry)
  unfolding clean
  clean_lem endpoints s k entry p h =
      let (m, e, all) = get_all_entries_complete c redis prefix literal works s in
      rw (e, clean)
        (subst
          (λ (stays : Text → Bool).
            HoldsAt c redis timed
              (delete_entries c prefix (is_stale c prefix endpoints) (order m)
                (get_all_entries c prefix s).1)
              k (kept stays entry))
          (fun_ext not_stale) (sweep_lem (is_stale c prefix endpoints) s m k entry e all p h))
    where
      not_stale : (v : Text) → not (is_stale c prefix endpoints v) ≡ contains endpoints v
      not_stale v = ground arith

  pub remove_endpoint_lem :
      (endpoint : Text) (s : c.State) (k : Text) (entry : Option (Text × ℕ))
      → has_prefix k (create_namespaced prefix) ≡ true
      → HoldsAt c redis timed s k entry
      → HoldsAt c redis timed
          (remove_endpoint c prefix order endpoint s)
          k
          (kept (λ v. not (endpoint == v)) entry)
  unfolding remove_endpoint
  remove_endpoint_lem endpoint s k entry p h =
      let (m, e, all) = get_all_entries_complete c redis prefix literal works s in
      rw (e, remove_endpoint) (sweep_lem (λ v. endpoint == v) s m k entry e all p h)

  module _ (k : Text) (outside : has_prefix k (create_namespaced prefix) ≡ false) where
    -- Redis is as another redis is at the key.
    abbrev pub Same : c.State → c.State → Type 0
    Same s s' = (view s k ≡ view s' k) × (left s k ≡ left s' k)

    pub clean-Same :
        (endpoints : List Text) (s : c.State) → Same (clean c prefix order endpoints s).1 s
    unfolding clean
    clean-Same endpoints s =
        let (m, e, all) = get_all_entries_complete c redis prefix literal works s in
        (
          clean_keeps c redis prefix order literal o endpoints s k (inl outside),
          rw (e, clean)
              (left-sweep c redis timed prefix (is_stale c prefix endpoints) order s m k literal o e
                (λ w l p. absurd (cc))),
        )

    pub remove_endpoint-Same :
        (endpoint : Text) (s : c.State) → Same (remove_endpoint c prefix order endpoint s) s
    unfolding remove_endpoint
    remove_endpoint-Same endpoint s =
        let (m, e, all) = get_all_entries_complete c redis prefix literal works s in
        (
          (remove_endpoint-exact c redis prefix order literal o works endpoint s k).1
              (λ both. cc (both.0, outside)),
          rw (e, remove_endpoint)
              (left-sweep c redis timed prefix (λ v. endpoint == v) order s m k literal o e
                (λ w l p. absurd (cc))),
        )
