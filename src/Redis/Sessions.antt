-- ===== src/Redis/Sessions.antt =====
-- A session that is added is found again, on this controller or on another.
use wls_ingress.Base.{Bool, [], none, some, ◌≡◌}
use wls_ingress.Base.{inl, inr, Bool-cases}
use wls_ingress.Base.Text.{Text}
use wls_ingress.Redis.{
  hour, Client, found, get_endpoint, got_reply, add_cookie, create_namespaced_key,
}
use wls_ingress.Redis.Laws.{IsRedis, IsReliable}
use wls_ingress.Redis.Entries.{Reply-cases}

module _ (c : Client) (redis : IsRedis c) (works : IsReliable c) (prefix : Text) where
  open redis use {view}

  -- With no command failing GetEndpoint returns what is stored under the key, and the empty text
  -- if nothing is.
  pub got_value :
      (j : Text) (b : Bool) (s : c.State)
      → (get_endpoint c prefix j b s).0
        ≡ (elim (view s (create_namespaced_key prefix j)) [ none ↦ found [] | some v ↦ found v ])
  unfolding get_endpoint got_reply
  got_value j b s =
      let k = create_namespaced_key prefix j in
      elim (Reply-cases (c.get (create_namespaced_key prefix j) s).0) [
        | inl e ↦ rw (e, got_reply, redis.get_nil k s e)
        | inr (inl e) ↦ absurd (works.get_works k s e)
        | inr (inr (v, e)) ↦ elim (Bool-cases b) [
          | inl up ↦ rw (e, up, got_reply, redis.get_value k s v e)
          | inr up ↦ rw (e, up, got_reply, redis.get_value k s v e)
        ]
      ]

  -- When no command fails, the endpoint added for a cookie is the one that GetEndpoint finds for
  -- it, whether or not the expiry is renewed.
  pub get_endpoint-add_cookie :
      (j e : Text) (b : Bool) (s : c.State)
      → (get_endpoint c prefix j b (add_cookie c prefix j e s)).0 ≡ found e
  unfolding add_cookie
  get_endpoint-add_cookie j e b s =
      let k = create_namespaced_key prefix j in
      rw (got_value j b (add_cookie c prefix j e s))
        (rw (redis.set_value k e hour s (works.set_works k e hour s)))
