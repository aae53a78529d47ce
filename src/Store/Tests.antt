-- ===== src/Store/Tests.antt =====
-- Runs of the store over a cache in memory, and the theorems at two ingresses.
use wls_ingress.Base.{[], none, some, ◌≡◌, refl}
use wls_ingress.Base.Text.{codes, ◌==◌}
use wls_ingress.Base.Maps.{lookup}
use wls_ingress.Base.Run.{ok}
use wls_ingress.Ingress.{IngressObject}
use wls_ingress.Annotations.{has_class}
use wls_ingress.Store.{networking, extensions, tombstone, to_ingress, Store}
use wls_ingress.Store.Mirror.{World, put, adds, deletes, handle, is_add, Mirrors}
use wls_ingress.Store.Notices.{IsOf, Announced, handle_announces}
use wls_ingress.Store.Mirror.Handlers.{handle-Mirrors, handle-tombstone}
use wls_ingress.Store.Memory.{key, memory, memory-IsCache}

abbrev site : IngressObject
site = record {
  namespace = codes "default";
  name = codes "site";
  annotations = [];
  creation = 0;
  rules = [];
  load_balancer = [];
}

abbrev nothing : World
nothing = λ k. none

abbrev new_store : Store memory (codes "wls")
new_store = record { ingresses = []; update_ch = [] }

new_store-Mirrors : Mirrors memory (codes "wls") key nothing new_store
unfolding lookup
new_store-Mirrors k = refl

handle-Mirrors_example :
    (s : Store memory (codes "wls")) × (handle memory
        (codes "wls")
        (adds (networking site))
        new_store
      ≡ ok s)
    × Mirrors memory (codes "wls") key (put (key site) (some site) nothing) s
unfolding to_ingress
handle-Mirrors_example =
    handle-Mirrors memory (codes "wls") key memory-IsCache nothing
      (put (key site) (some site) nothing) (adds (networking site)) new_store
      (is_add nothing (networking site) site refl refl) new_store-Mirrors

handle-tombstone_example :
    (handle memory
        (codes "wls")
        (deletes (tombstone (extensions (some site))))
        handle-Mirrors_example.0
      ≡ ok handle-Mirrors_example.0)
    × ¬ Mirrors memory
        (codes "wls")
        key
        (put (key site) none (put (key site) (some site) nothing))
        handle-Mirrors_example.0
unfolding has_class lookup ◌==◌
handle-tombstone_example =
    handle-tombstone memory (codes "wls") key memory-IsCache (put (key site) (some site) nothing)
      handle-Mirrors_example.0 site refl refl handle-Mirrors_example.2

handle_announces_example :
    Announced memory
      (codes "wls")
      (IsOf (adds (networking site)))
      new_store
      handle-Mirrors_example.0
handle_announces_example =
    handle_announces memory (codes "wls") (adds (networking site)) new_store
      handle-Mirrors_example.0 handle-Mirrors_example.1
