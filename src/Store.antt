-- ===== src/Store.antt =====
-- internal/ingress/controller/store/store.go: the local store of ingresses, kept by the handlers of
-- the informer's events. The cache and its key function are client-go's, parameters, as is the
-- comparison of objects; the ring channel of events is a list.
pub mod Mirror
pub mod Listing
pub mod Informers
pub mod Notices
pub mod Memory
mod Tests
use wls_ingress.Base.{
  ℕ, suc, ℕ, Bool, true, false, not, ◌&&◌, List, [], ◌∷◌, ◌++◌, Option, none, some, if◌then◌else◌,
  ltb, map,
}
use wls_ingress.Base.Text.{Text, codes, ◌==◌}
use mathlib.Core.Option
use wls_ingress.Base.Sort.{sort_stable}
use wls_ingress.Base.Run.{Run, ok, panic, ◌>>=◌}
use wls_ingress.Ingress.{IngressObject, IngressRule, HttpIngressPath}
use wls_ingress.Annotations.{Config, is_valid, parse_proxy}

-- What an informer hands over: an ingress of the networking group, one of the extensions group (by
-- the result of its conversion), a tombstone with the last known object, or something else.
pub data Object : Type 0 where
  networking : IngressObject → Object
  extensions : Option IngressObject → Object
  tombstone : Object → Object
  other_object : Object

-- toIngress
unfoldable pub to_ingress : Object → Option IngressObject
to_ingress (networking ing) = some ing
to_ingress (extensions ing) = ing
to_ingress (tombstone obj) = none
to_ingress other_object = none

-- ingress.Ingress: the object with its parsed annotations.
pub record AnnotatedIngress : Type 0 where
  pub ingress : IngressObject
  pub proxy : Config

pub data EventType : Type 0 where
  create : EventType
  update : EventType
  delete : EventType

pub record Event : Type 0 where
  pub type : EventType
  pub object : Object

-- cache.Store, of ingresses with their annotations.
pub record Cache : Type 1 where
  pub State : Type 0
  pub update : AnnotatedIngress → State → State
  pub delete : IngressObject → State → State
  pub list : State → List AnnotatedIngress
  pub get_by_key : Text → State → Option AnnotatedIngress

-- The defaults of syncIngress: an empty path is "/".
unfoldable pub default_path : HttpIngressPath → HttpIngressPath
default_path path = if path.path == [] then record path { path = codes "/" } else path

unfoldable pub default_rule : IngressRule → IngressRule
unfolding default_path
default_rule rule = elim rule.http [
  | none ↦ rule
  | some paths ↦ record rule { http = some (map default_path paths) }
]

-- What syncIngress stores.
unfoldable pub annotated : IngressObject → AnnotatedIngress
unfolding default_rule
annotated ing = record {
  ingress = record ing { rules = map default_rule ing.rules };
  proxy = parse_proxy (some ing);
}

module _ (cache : Cache) (ingress_class : Text) where
  -- The fields of k8sStore that the handlers change.
  pub record Store : Type 0 where
    pub ingresses : cache.State
    pub update_ch : List Event

  -- syncIngress
  unfoldable pub sync_ingress : IngressObject → Store → Store
  sync_ingress ing s = record s { ingresses = cache.update (annotated ing) s.ingresses }

  pub send : EventType → Object → Store → Store
  send type obj s = record s {
    update_ch = s.update_ch ++ record { type = type; object = obj } ∷ [];
  }

  -- The end of ingDeleteHandler.
  pub delete_ingress : IngressObject → Object → Store → Run Store
  unfolding send
  delete_ingress ing obj s = do
    valid ← is_valid ingress_class (some ing)
    ok (
        if valid
        then send delete obj (record s { ingresses = cache.delete ing s.ingresses })
        else s)

  -- ingDeleteHandler; the object of a tombstone must be of the networking group.
  unfoldable pub on_delete : Object → Store → Run Store
  unfolding delete_ingress to_ingress
  on_delete (networking ing) s = delete_ingress ing (networking ing) s
  on_delete (extensions (some ing)) s = delete_ingress ing (extensions (some ing)) s
  on_delete (extensions none) s = ok s
  on_delete (tombstone (networking ing)) s = delete_ingress ing (tombstone (networking ing)) s
  on_delete (tombstone (extensions ing)) s = ok s
  on_delete (tombstone (tombstone obj)) s = ok s
  on_delete (tombstone other_object) s = ok s
  on_delete other_object s = ok s

  abbrev pub stored : Option IngressObject → Store → Store
  stored none s = s
  stored (some ing) s = sync_ingress ing s

  -- AddFunc
  unfoldable pub on_add : Object → Store → Run Store
  unfolding send sync_ingress
  on_add obj s = do
    valid ← is_valid ingress_class (to_ingress obj)
    ok (if valid then send create obj (stored (to_ingress obj) s) else s)

  -- UpdateFunc by the validity of both objects; `same` is the result of DeepEqual.
  pub updated : Bool → Bool → Bool → Object → Object → Store → Run Store
  unfolding send sync_ingress on_delete
  updated valid_old valid_cur same old cur s =
      if not valid_old && valid_cur
      then ok (send update cur (stored (to_ingress cur) s))
      else if valid_old && not valid_cur
      then on_delete old s
      else if valid_cur && not same
      then ok (send update cur (stored (to_ingress cur) s))
      else ok s

  -- UpdateFunc
  unfoldable pub on_update : Bool → Object → Object → Store → Run Store
  unfolding updated
  on_update same old cur s = do
    valid_old ← is_valid ingress_class (to_ingress old)
    valid_cur ← is_valid ingress_class (to_ingress cur)
    updated valid_old valid_cur same old cur s

  pub kept : Option (AnnotatedIngress → Bool) → List AnnotatedIngress → List AnnotatedIngress
  kept filter [] = []
  kept filter (ing ∷ ings) =
      let more = kept filter ings in
      elim filter [ none ↦ ing ∷ more | some drops ↦ if drops ing then more else ing ∷ more ]

  -- ListIngresses
  unfoldable pub list_ingresses : Option (AnnotatedIngress → Bool) → Store → List AnnotatedIngress
  unfolding kept
  list_ingresses filter s =
      sort_stable (λ i j. ltb i.ingress.creation j.ingress.creation)
        (kept filter (cache.list s.ingresses))

  -- getIngress
  unfoldable pub get_ingress : Text → Store → Option IngressObject
  get_ingress key s =
      Option.map (λ (ing : AnnotatedIngress). ing.ingress) (cache.get_by_key key s.ingresses)

  -- The AddFunc and the DeleteFunc of epEventHandler and podEventHandler.
  pub on_other : EventType → Object → Store → Store
  unfolding send
  on_other type obj s = send type obj s

  -- UpdateFunc of epEventHandler; `same` is the result of DeepEqual on the subsets.
  unfoldable pub on_update_endpoints : (same : Bool) → Object → Store → Store
  unfolding send
  on_update_endpoints same cur s = if not same then send update cur s else s

  -- UpdateFunc of podEventHandler, by the phases of the pods.
  unfoldable pub on_update_pod : (old_phase cur_phase : Text) → Object → Store → Store
  unfolding send
  on_update_pod old_phase cur_phase cur s = if old_phase == cur_phase then s else send update cur s

-- GetRunningControllerPodsCount, of the phases of the pods that the lister has.
unfoldable pub get_running_controller_pods_count : List Text → ℕ
get_running_controller_pods_count [] = 0
get_running_controller_pods_count (phase ∷ phases) =
    let count = get_running_controller_pods_count phases in
    if not (phase == codes "Running") then count else suc count
