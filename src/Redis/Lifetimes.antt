-- ===== src/Redis/Lifetimes.antt =====
-- What the calls of the program do to the times to live of the keys.
use wls_ingress.Base.{
  Bool, true, false, List, [], ◌∷◌, some, ◌≡◌, ◌≢◌, refl, ◌∙◌, inl, inr, Bool-cases, In, In-perm,
  if◌then◌else◌,
}
use wls_ingress.Base.Text.{Text, has_prefix}
use wls_ingress.Base.Maps.{Map}
use wls_ingress.Redis.{
  hour, value, Client, get_endpoint, got_reply, add_entry, entries_of, all_of_reply,
  get_all_entries, delete_entries, create_namespaced, create_namespaced_key,
}
use wls_ingress.Redis.Laws.{IsRedis, IsReliable, IsTimed, IsLiteral}
use wls_ingress.Redis.Entries.{Reply-cases, get_all_entries_sound}
use wls_ingress.Redis.Sweeping.{IsEntryOrder}

module _ (c : Client) (redis : IsRedis c) (timed : IsTimed c redis) (prefix : Text) where
  open redis use {view}
  open timed use {left}

  -- GetEndpoint without a renewal changes no time to live, with one none of another key.
  pub left-get_endpoint :
      (k : Text) (s : c.State) (j : Text) → left (get_endpoint c prefix k false s).1 j ≡ left s j
  unfolding get_endpoint got_reply
  left-get_endpoint k s j = elim (Reply-cases (c.get (create_namespaced_key prefix k) s).0) [
    | inl e ↦ rw (e, got_reply) (timed.get_left (create_namespaced_key prefix k) s j)
    | inr (inl e) ↦ rw (e, got_reply) (timed.get_left (create_namespaced_key prefix k) s j)
    | inr (inr (v, e)) ↦ rw (e, got_reply) (timed.get_left (create_namespaced_key prefix k) s j)
  ]

  pub left-renewed_other :
      (k : Text) (s : c.State) (j : Text)
      → create_namespaced_key prefix k ≢ j
      → left (get_endpoint c prefix k true s).1 j ≡ left s j
  unfolding get_endpoint got_reply
  left-renewed_other k s j n =
      let key = create_namespaced_key prefix k in
      elim (Reply-cases (c.get (create_namespaced_key prefix k) s).0) [
        | inl e ↦ rw (e, got_reply) (timed.get_left key s j)
        | inr (inl e) ↦ rw (e, got_reply) (timed.get_left key s j)
        | inr (inr (v, e)) ↦
            rw (e, got_reply)
              (timed.expire_left_other key hour (c.get key s).1 j n ∙ timed.get_left key s j)
      ]

  -- A key that is there, and whose GET and EXPIRE do not fail, has an hour again.
  pub left-renewed :
      (k a : Text) (s : c.State)
      → IsReliable c
      → ((k : Text) (s : c.State) → (c.expire k hour s).0 ≡ value tt)
      → view s (create_namespaced_key prefix k) ≡ some a
      → left (get_endpoint c prefix k true s).1 (create_namespaced_key prefix k) ≡ some hour
  unfolding get_endpoint got_reply
  left-renewed k a s works renews h =
      let key = create_namespaced_key prefix k in
      let still = redis.get_view key s key ∙ h in
      elim (Reply-cases (c.get (create_namespaced_key prefix k) s).0) [
        | inl e ↦ let gone = redis.get_nil key s e in cc
        | inr (inl e) ↦ absurd (works.get_works key s e)
        | inr (inr (v, e)) ↦
            rw (e, got_reply)
              (timed.expire_left key hour (c.get key s).1 (λ gone. cc) (renews key (c.get key s).1))
      ]

  left-entries_of :
      (ks : List Text) (m : Map Text) (s : c.State) (j : Text)
      → left (entries_of c prefix ks m s).1 j ≡ left s j
  unfolding entries_of
  left-entries_of [] m s j = refl
  left-entries_of (k ∷ ks) m s j =
      left-entries_of ks (add_entry c prefix k (get_endpoint c prefix k false s).0 m)
        (get_endpoint c prefix k false s).1 j
      ∙ left-get_endpoint k s j

  left-get_all_entries : (s : c.State) (j : Text) → left (get_all_entries c prefix s).1 j ≡ left s j
  unfolding get_all_entries all_of_reply
  left-get_all_entries s j =
      let p = create_namespaced_key prefix (b'*' ∷ []) in
      elim (Reply-cases (c.keys p s).0) [
        | inl h ↦ rw (h, all_of_reply) (timed.keys_left p s j)
        | inr (inl h) ↦ rw (h, all_of_reply) (timed.keys_left p s j)
        | inr (inr (ks, h)) ↦
            rw (h, all_of_reply) (left-entries_of ks [] (c.keys p s).1 j ∙ timed.keys_left p s j)
      ]

  module _ (goes : Text → Bool) where
    step_left :
        (k v j : Text) (s : c.State)
        → (goes v ≡ true → k ≢ j)
        → left (if goes v then (c.del k s).1 else s) j ≡ left s j
    step_left k v j s h = elim (Bool-cases (goes v)) [
      | inl e ↦ rw e (timed.del_left k s j (h e))
      | inr e ↦ rw e
    ]

    left-delete_entries :
        (m : Map Text) (s : c.State) (j : Text)
        → ((v : Text) → In (j, v) m → goes v ≡ false)
        → left (delete_entries c prefix goes m s) j ≡ left s j
    unfolding delete_entries
    left-delete_entries [] s j h = refl
    left-delete_entries ((k, v) ∷ m) s j h =
        left-delete_entries m (if goes v then (c.del k s).1 else s) j (λ w i. h w (inr i))
        ∙ step_left k v j s (λ e same. cc (h v (inl (rw same))))

    -- A key that a sweep keeps has its time to live.
    pub left-sweep :
        (order : Map Text → Map Text) (s : c.State) (m : Map Text) (j : Text)
        → IsLiteral (create_namespaced prefix)
        → IsEntryOrder order
        → (get_all_entries c prefix s).0 ≡ some m
        → ((v : Text)
            → view s j ≡ some v
            → has_prefix j (create_namespaced prefix) ≡ true
            → goes v ≡ false)
        → left (delete_entries c prefix goes (order m) (get_all_entries c prefix s).1) j ≡ left s j
    left-sweep order s m j literal o e h =
        left-delete_entries (order m) (get_all_entries c prefix s).1 j (λ v i.
          let (found, space) =
            get_all_entries_sound c redis prefix literal s m e (j, v) (In-perm (j, v) (o m) i) in
          h v found space)
        ∙ left-get_all_entries s j
