-- ===== src/Redis/Table/Sessions.antt =====
-- What AddCookie and GetEndpoint do to the keys of the table.
use wls_ingress.Base.{◌≢◌, ℕ, Option, none, Bool, true, some, ◌≡◌}
use wls_ingress.Base.{refl, ◌∙◌, arith}
use wls_ingress.Base.Text.{Text}
use wls_ingress.Redis.{Client, value, hour, get_endpoint, add_cookie, create_namespaced_key}
use wls_ingress.Redis.Laws.{IsRedis, IsReliable, IsTimed}
use wls_ingress.Redis.Lifetimes.{left-renewed, left-renewed_other}
use wls_ingress.Redis.Entries.{view-get_endpoint}
use wls_ingress.Redis.Sessions.{got_value}
use wls_ingress.Redis.Table.{renewed, address}
use wls_ingress.Redis.Table.Keys.{HoldsAt, HoldsAt-same}

module _ (c : Client) (redis : IsRedis c) (timed : IsTimed c redis) (works : IsReliable c)
    (prefix : Text) where
  open redis use {view}
  open timed use {left}

  module _ (j e : Text) (s : c.State) where
    pub added_value :
        HoldsAt c redis timed
          (add_cookie c prefix j e s)
          (create_namespaced_key prefix j)
          (some (e, hour))
    unfolding add_cookie
    added_value =
        let k = create_namespaced_key prefix j in
        let works_here = works.set_works k e hour s in
        (redis.set_value k e hour s works_here, timed.set_left k e hour s (omega arith) works_here)

    -- AddCookie for a cookie leaves the other keys.
    pub added_other :
        (k : Text)
        → create_namespaced_key prefix j ≢ k
        → (view (add_cookie c prefix j e s) k ≡ view s k)
          × (left (add_cookie c prefix j e s) k ≡ left s k)
    unfolding add_cookie
    added_other k n =
        let key = create_namespaced_key prefix j in
        (redis.set_other key e hour s k n, timed.set_left_other key e hour s k n)

  module _ (renews : (k : Text) (s : c.State) → (c.expire k hour s).0 ≡ value tt) where
    pub got_self :
        (j : Text) (s : c.State) (entry : Option (Text × ℕ))
        → HoldsAt c redis timed s (create_namespaced_key prefix j) entry
        → HoldsAt c redis timed
            (get_endpoint c prefix j true s).1
            (create_namespaced_key prefix j)
            (renewed entry)
    got_self j s none h =
        view-get_endpoint c redis prefix j true s (create_namespaced_key prefix j) ∙ h
    got_self j s (some (a, n)) (h, l) = (
      view-get_endpoint c redis prefix j true s (create_namespaced_key prefix j) ∙ h,
      left-renewed c redis timed prefix j a s works renews h,
    )

    pub got_other :
        (j : Text) (s : c.State) (k : Text) (entry : Option (Text × ℕ))
        → create_namespaced_key prefix j ≢ k
        → HoldsAt c redis timed s k entry
        → HoldsAt c redis timed (get_endpoint c prefix j true s).1 k entry
    got_other j s k entry n =
        HoldsAt-same c redis timed s (get_endpoint c prefix j true s).1 k entry
          (view-get_endpoint c redis prefix j true s k)
          (left-renewed_other c redis timed prefix j s k n)

  pub got_address :
      (j : Text) (update : Bool) (s : c.State) (entry : Option (Text × ℕ))
      → HoldsAt c redis timed s (create_namespaced_key prefix j) entry
      → (get_endpoint c prefix j update s).0 ≡ address entry
  got_address j update s none h = got_value c redis works prefix j update s ∙ rw h refl
  got_address j update s (some (a, n)) (h, l) =
      got_value c redis works prefix j update s ∙ rw h refl
