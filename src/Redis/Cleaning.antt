-- ===== src/Redis/Cleaning.antt =====
-- Clean and RemoveEndpoint delete the entries of dead endpoints and nothing else.
use wls_ingress.Base.{true, false, List, none, some, ◌≡◌, ◌⊎◌, In}
use wls_ingress.Base.{refl, ◌∙◌, ap, arith, inl, inr, Bool-cases, subst, Option-cases}
use wls_ingress.Base.Text.{Text, has_prefix, ◌==◌, ==_iff, ==_refl}
use wls_ingress.Base.Maps.{Map}
use wls_ingress.Redis.{
  Client, get_all_entries, delete_entries, is_stale, clean, remove_endpoint, contains,
  create_namespaced,
}
use wls_ingress.Redis.Laws.{IsRedis, IsReliable, IsLiteral}
use wls_ingress.Redis.Entries.{get_all_entries_complete, view-get_all_entries}
use wls_ingress.Redis.Sweeping.{
  IsEntryOrder, contains_iff, delete_entries_gone, sweep_kept, sweep_deletes,
}

module _ (c : Client) (redis : IsRedis c) (prefix : Text) (order : Map Text → Map Text)
    (literal : IsLiteral (create_namespaced prefix)) (o : IsEntryOrder order) where
  open redis use {view}

  stale_of_In :
      (endpoints : List Text) (v : Text) → In v endpoints → is_stale c prefix endpoints v ≡ false
  unfolding is_stale
  stale_of_In endpoints v i = let h = (contains_iff endpoints v).1 i in rw h

  stale_of_not_In :
      (endpoints : List Text) (v : Text) → ¬ (In v endpoints) → is_stale c prefix endpoints v ≡ true
  unfolding is_stale
  stale_of_not_In endpoints v n = elim (Bool-cases (contains endpoints v)) [
    | inl e ↦ absurd (n ((contains_iff endpoints v).0 e))
    | inr e ↦ rw e
  ]

  -- If the prefix has no pattern character, then whatever commands fail Clean changes no key
  -- outside the namespace, and no key whose value is one of the endpoints passed in.
  pub clean_keeps :
      (endpoints : List Text) (s : c.State) (k : Text)
      → (has_prefix k (create_namespaced prefix) ≡ false)
        ⊎ ((v : Text) × (view s k ≡ some v) × In v endpoints)
      → view (clean c prefix order endpoints s).1 k ≡ view s k
  unfolding clean
  clean_keeps endpoints s k h = elim (Option-cases (get_all_entries c prefix s).0) [
    | inl e ↦ rw (e, clean) (view-get_all_entries c redis prefix s k)
    | inr (m, e) ↦
        rw (e, clean)
          (sweep_kept c redis prefix (is_stale c prefix endpoints) literal order o s m k e (λ v l p.
            elim h [
              | inl outside ↦ absurd (ground arith)
              | inr (w, l', i) ↦
                  let same : w ≡ v = cc in
                  stale_of_In endpoints v (subst (λ (x : Text). In x endpoints) same i)
            ]))
  ]

  -- If the prefix has no pattern character and no command fails, Clean returns no error, and afterwards every key of the namespace that
  -- has a value has one of the endpoints passed in.
  pub clean_removes :
      IsReliable c
      → (endpoints : List Text) (s : c.State)
      → ((clean c prefix order endpoints s).0 ≡ true)
        × ((k v : Text)
            → has_prefix k (create_namespaced prefix) ≡ true
            → view (clean c prefix order endpoints s).1 k ≡ some v
            → In v endpoints)
  unfolding clean
  clean_removes works endpoints s =
      let (m, e, all) = get_all_entries_complete c redis prefix literal works s in
      rw (e, clean)
        (
          refl,
          λ k v p l. elim (Bool-cases (contains endpoints v)) [
            | inl live ↦ (contains_iff endpoints v).0 live
            | inr dead ↦ absurd (left_over works endpoints s m k v e all p l dead)
          ],
        )
    where
      left_over :
          IsReliable c
          → (endpoints : List Text) (s : c.State) (m : Map Text) (k v : Text)
          → (get_all_entries c prefix s).0 ≡ some m
          → ((k v : Text)
              → has_prefix k (create_namespaced prefix) ≡ true
              → view s k ≡ some v
              → In (k, v) m)
          → has_prefix k (create_namespaced prefix) ≡ true
          → view
              (delete_entries c prefix
                (is_stale c prefix endpoints)
                (order m)
                (get_all_entries c prefix s).1)
              k
            ≡ some v
          → contains endpoints v ≡ false
          → ⊥
      left_over works endpoints s m k v e all p l dead = elim (Option-cases (view s k)) [
        | inl n ↦
            let gone =
              delete_entries_gone c redis prefix (is_stale c prefix endpoints) (order m)
                (get_all_entries c prefix s).1 k (view-get_all_entries c redis prefix s k ∙ n) in
            cc
        | inr (w, n) ↦ elim (Bool-cases (contains endpoints w)) [
          | inl live ↦
              let same =
                sweep_kept c redis prefix (is_stale c prefix endpoints) literal order o s m k e
                  (λ x l' q.
                    let eq : w ≡ x = cc in
                    stale_of_In endpoints x (
                      subst (λ (y : Text). In y endpoints) eq
                        ((contains_iff endpoints w).0 live))) in
              let eq : w ≡ v = cc in cc (ap (contains endpoints) eq)
          | inr stale ↦
              let gone =
                sweep_deletes c redis prefix (is_stale c prefix endpoints) literal order o works s m
                  k w (all k w p n)
                  (stale_of_not_In endpoints w (λ i. cc ((contains_iff endpoints w).1 i))) in
              cc
        ]
      ]

  -- If the prefix has no pattern character and no command fails, RemoveEndpoint deletes exactly the keys of the namespace whose value is
  -- the endpoint; every other key keeps its value.
  pub remove_endpoint-exact :
      IsReliable c
      → (endpoint : Text) (s : c.State) (k : Text)
      → ((has_prefix k (create_namespaced prefix) ≡ true) × (view s k ≡ some endpoint)
          → view (remove_endpoint c prefix order endpoint s) k ≡ none)
        × (¬ ((has_prefix k (create_namespaced prefix) ≡ true) × (view s k ≡ some endpoint))
            → view (remove_endpoint c prefix order endpoint s) k ≡ view s k)
  unfolding remove_endpoint
  remove_endpoint-exact works endpoint s k =
      let (m, e, all) = get_all_entries_complete c redis prefix literal works s in
      rw (e, remove_endpoint)
        (
          λ (p, h).
              sweep_deletes c redis prefix (λ v. endpoint == v) literal order o works s m k endpoint
                (all k endpoint p h) (==_refl endpoint),
          λ n.
              sweep_kept c redis prefix (λ v. endpoint == v) literal order o s m k e
                (λ v h p. elim (Bool-cases (endpoint == v)) [
                  | inr other ↦ other
                  | inl same ↦ let eq = (==_iff endpoint v).0 same in absurd (n (p, rw eq h))
                ]),
        )
