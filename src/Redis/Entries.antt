-- ===== src/Redis/Entries.antt =====
-- getAllEntries reads the part of the store that is in the namespace.
use wls_ingress.Base.{Bool, true, false, List, [], ◌∷◌, ◌++◌, none, some, ◌≡◌, ◌≢◌, ◌⊎◌, In}
use wls_ingress.Base.{refl, ◌∙◌, arith, inl, inr, Bool-cases, subst, Option-cases}
use wls_ingress.Base.Text.{Text, has_prefix, ◌==◌, ==_iff}
use wls_ingress.Base.Maps.{Map, lookup, insert, lookup-insert, In_of_lookup}
use wls_ingress.Redis.{
  hour, Client, Reply, nil, failed, value, found, error, get_endpoint, got_reply, add_entry,
  entries_of, all_of_reply, get_all_entries, create_namespaced, create_namespaced_key,
}
use wls_ingress.Redis.Keys.{create_namespaced_key_of_prefix, pattern_made}
use wls_ingress.Redis.Laws.{IsRedis, IsReliable, IsLiteral}

-- A reply is one of three.
pub Reply-cases :
    {A : Type 0} (r : Reply A) → (r ≡ nil) ⊎ ((r ≡ failed) ⊎ ((a : A) × (r ≡ value a)))
Reply-cases nil = inl refl
Reply-cases failed = inr (inl refl)
Reply-cases (value a) = inr (inr (a, refl))

module _ (c : Client) (redis : IsRedis c) (prefix : Text) where
  open redis use {view}

  abbrev pub space : Text
  space = create_namespaced prefix

  -- GetEndpoint changes no value.
  pub view-get_endpoint :
      (k : Text) (b : Bool) (s : c.State) (j : Text)
      → view (get_endpoint c prefix k b s).1 j ≡ view s j
  unfolding get_endpoint got_reply
  view-get_endpoint k b s j = elim (Reply-cases (c.get (create_namespaced_key prefix k) s).0) [
    | inl e ↦ rw (e, got_reply) (redis.get_view (create_namespaced_key prefix k) s j)
    | inr (inl e) ↦ rw (e, got_reply) (redis.get_view (create_namespaced_key prefix k) s j)
    | inr (inr (v, e)) ↦ elim (Bool-cases b) [
      | inl up ↦
          rw (e, up, got_reply)
            (redis.expire_view (create_namespaced_key prefix k) hour
                (c.get (create_namespaced_key prefix k) s).1 j (omega arith)
              ∙ redis.get_view (create_namespaced_key prefix k) s j)
      | inr up ↦ rw (e, up, got_reply) (redis.get_view (create_namespaced_key prefix k) s j)
    ]
  ]

  -- For a key of the namespace that has a value, GetEndpoint finds the value or fails.
  got_listed :
      (k v : Text) (s : c.State)
      → has_prefix k space ≡ true
      → view s k ≡ some v
      → ((get_endpoint c prefix k false s).0 ≡ found v)
        ⊎ (((get_endpoint c prefix k false s).0 ≡ error) × ((c.get k s).0 ≡ failed))
  unfolding get_endpoint got_reply
  got_listed k v s p h =
      rw (create_namespaced_key_of_prefix prefix k p) (elim (Reply-cases (c.get k s).0) [
        | inl e ↦ absurd (ground (arith, redis.get_nil k s e))
        | inr (inl e) ↦ inr (rw (e, got_reply), e)
        | inr (inr (w, e)) ↦ inl (rw (e, got_reply) (ground (arith, redis.get_value k s w e)))
      ])

  -- What an entry of the map means.
  abbrev IsEntry : c.State → Text × Text → Type 0
  IsEntry s (k, v) = (view s k ≡ some v) × (has_prefix k space ≡ true)

  In-insert :
      (x : Text × Text) (k v : Text) (m : Map Text) → In x (insert k v m) → (x ≡ (k, v)) ⊎ In x m
  unfolding insert
  In-insert x k v [] (inl e) = inl e
  In-insert x k v [] (inr h) = elim h [ ]
  In-insert x k v ((j, w) ∷ m) h = elim (Bool-cases (j == k)) [
    | inl e ↦ elim (rw e at h) [ inl a ↦ inl a | inr b ↦ inr (inr b) ]
    | inr e ↦ elim (rw e at h) [
      | inl a ↦ inr (inl a)
      | inr b ↦ elim (In-insert x k v m b) [ inl p ↦ inl p | inr q ↦ inr (inr q) ]
    ]
  ]

  entries_sound :
      (ks : List Text) (m : Map Text) (s s0 : c.State)
      → ((j : Text) → view s j ≡ view s0 j)
      → ((k : Text) → In k ks → (has_prefix k space ≡ true) × (view s0 k ≢ none))
      → ((x : Text × Text) → In x m → IsEntry s0 x)
      → (x : Text × Text) → In x (entries_of c prefix ks m s).0
      → IsEntry s0 x
  unfolding entries_of add_entry
  entries_sound [] m s s0 same listed old = old
  entries_sound (k ∷ ks) m s s0 same listed old =
      let (p, n) = listed k (inl refl) in
      elim (Option-cases (view s0 k)) [
        | inl e ↦ absurd (n e)
        | inr (v, e) ↦
            entries_sound ks (add_entry c prefix k (get_endpoint c prefix k false s).0 m)
              (get_endpoint c prefix k false s).1 s0 (λ j. view-get_endpoint k false s j ∙ same j)
              (λ j i. listed j (inr i))
              (λ x i. elim (got_listed k v s p (same k ∙ e)) [
                | inl g ↦ elim (In-insert x k v m (rw (g, add_entry) at i)) [
                  | inl q ↦ rw q (e, p)
                  | inr q ↦ old x q
                ]
                | inr g ↦ old x (rw (g.0, add_entry) at i)
              ])
      ]

  module _ (works : IsReliable c) where
    kept :
        (k v : Text) (ks : List Text) (m : Map Text) (s s0 : c.State)
        → ((j : Text) → view s j ≡ view s0 j)
        → ((j : Text) → In j ks → (has_prefix j space ≡ true) × (view s0 j ≢ none))
        → view s0 k ≡ some v
        → In k ks ⊎ (lookup k m ≡ some v)
        → lookup k (entries_of c prefix ks m s).0 ≡ some v
    unfolding entries_of add_entry
    kept k v [] m s s0 same listed e (inl h) = elim h [ ]
    kept k v [] m s s0 same listed e (inr h) = h
    kept k v (j ∷ ks) m s s0 same listed e h =
        let (p, n) = listed j (inl refl) in
        elim (Option-cases (view s0 j)) [
          | inl f ↦ absurd (n f)
          | inr (w, f) ↦ elim (got_listed j w s p (same j ∙ f)) [
            | inr g ↦ absurd (works.get_works j s g.1)
            | inl g ↦
                kept k v ks (add_entry c prefix j (get_endpoint c prefix j false s).0 m)
                  (get_endpoint c prefix j false s).1 s0
                  (λ i. view-get_endpoint j false s i ∙ same i) (λ i q. listed i (inr q)) e
                  (rw (g, add_entry)
                    (elim h [
                      | inl (inr i) ↦ inl i
                      | inl (inl i) ↦ inr (ground (arith, lookup-insert j k w m, ==_iff j k))
                      | inr l ↦ inr (ground (arith, lookup-insert j k w m, ==_iff j k))
                    ]))
          ]
        ]

  module _ (literal : IsLiteral space) where
    -- Every entry has the value of a key of the namespace, and nothing is written.
    pub get_all_entries_sound :
        (s : c.State) (m : Map Text)
        → (get_all_entries c prefix s).0 ≡ some m
        → (x : Text × Text) → In x m
        → IsEntry s x
    unfolding get_all_entries all_of_reply
    get_all_entries_sound s m e x i =
        elim (Reply-cases (c.keys (create_namespaced_key prefix (b'*' ∷ [])) s).0) [
          | inl h ↦
              let empty : m ≡ [] = ground arith in absurd (subst (λ (n : Map Text). In x n) empty i)
          | inr (inl h) ↦ absurd (ground arith)
          | inr (inr (ks, h)) ↦
              entries_sound ks [] (c.keys (create_namespaced_key prefix (b'*' ∷ [])) s).1 s
                (redis.keys_view (create_namespaced_key prefix (b'*' ∷ [])) s)
                (λ k q. redis.keys_sound space s ks k literal (rw pattern_made at h) q)
                (λ y q. elim q [ ]) x (subst (λ (n : Map Text). In x n) (ground arith) i)
        ]

    listed_complete :
        IsReliable c
        → (s : c.State) (ks : List Text)
        → (c.keys (create_namespaced_key prefix (b'*' ∷ [])) s).0 ≡ value ks
        → (k v : Text) → has_prefix k space ≡ true
        → view s k ≡ some v
        → In
            (k, v)
            (entries_of c prefix ks [] (c.keys (create_namespaced_key prefix (b'*' ∷ [])) s).1).0
    listed_complete works s ks h k v p e =
        let s' = (c.keys (create_namespaced_key prefix (b'*' ∷ [])) s).1 in
        let listed : (c.keys (space ++ b'*' ∷ []) s).0 ≡ value ks = rw pattern_made at h in
        In_of_lookup k v (entries_of c prefix ks [] s').0 (
          kept works k v ks [] s' s (redis.keys_view (create_namespaced_key prefix (b'*' ∷ [])) s)
            (λ j q. redis.keys_sound space s ks j literal listed q) e
            (inl (redis.keys_complete space s ks k literal listed p (λ n. ground arith))))

    -- With a reliable connection every key of the namespace that has a value is an entry.
    pub get_all_entries_complete :
        IsReliable c
        → (s : c.State)
        → (m : Map Text) × ((get_all_entries c prefix s).0 ≡ some m)
          × ((k v : Text) → has_prefix k space ≡ true → view s k ≡ some v → In (k, v) m)
    unfolding get_all_entries all_of_reply
    get_all_entries_complete works s =
        let (ks, h) = works.keys_work (create_namespaced_key prefix (b'*' ∷ [])) s in
        (
          (entries_of c prefix ks [] (c.keys (create_namespaced_key prefix (b'*' ∷ [])) s).1).0,
          rw (h, all_of_reply),
          listed_complete works s ks h,
        )

  view-entries_of :
      (ks : List Text) (m : Map Text) (s : c.State) (j : Text)
      → view (entries_of c prefix ks m s).1 j ≡ view s j
  unfolding entries_of
  view-entries_of [] m s j = refl
  view-entries_of (k ∷ ks) m s j =
      view-entries_of ks (add_entry c prefix k (get_endpoint c prefix k false s).0 m)
        (get_endpoint c prefix k false s).1 j
      ∙ view-get_endpoint k false s j

  pub view-get_all_entries :
      (s : c.State) (j : Text) → view (get_all_entries c prefix s).1 j ≡ view s j
  unfolding get_all_entries all_of_reply
  view-get_all_entries s j =
      let p = create_namespaced_key prefix (b'*' ∷ []) in
      elim (Reply-cases (c.keys p s).0) [
        | inl h ↦ rw (h, all_of_reply) (redis.keys_view p s j)
        | inr (inl h) ↦ rw (h, all_of_reply) (redis.keys_view p s j)
        | inr (inr (ks, h)) ↦
            rw (h, all_of_reply) (view-entries_of ks [] (c.keys p s).1 j ∙ redis.keys_view p s j)
      ]
