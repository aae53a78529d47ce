-- ===== src/Store/Mirror.antt =====
-- What it means that the store mirrors what the informer has.
pub mod Handlers
use wls_ingress.Base.{
  ℕ, Bool, true, false, not, ◌&&◌, List, [], ◌∷◌, Option, none, some, ◌≡◌, ◌≢◌, ◌⊎◌, refl, sym, ◌∙◌,
  ap, subst, if◌then◌else◌, arith, inl, inr, Bool-cases,
}
use wls_ingress.Base.Text.{Text, ◌==◌, ==_iff, ==_refl}
use wls_ingress.Base.Run.{Run, ok, panic, ◌>>=◌}
use wls_ingress.Ingress.{IngressObject}
use wls_ingress.Annotations.{has_class, is_valid}
use wls_ingress.Store.{
  Object, networking, extensions, tombstone, other_object, to_ingress, AnnotatedIngress, EventType,
  create, update, delete, Cache, annotated, Store, sync_ingress, send, delete_ingress, on_delete,
  on_add, on_update, updated,
}

-- What client-go documents of its cache, for objects whose key is `key`.
pub record IsCache (cache : Cache) (key : IngressObject → Text) : Type 0 where
  pub get_updated :
      (a : AnnotatedIngress) (s : cache.State)
      → cache.get_by_key (key a.ingress) (cache.update a s) ≡ some a
  pub get_updated_other :
      (k : Text) (a : AnnotatedIngress) (s : cache.State)
      → k ≢ key a.ingress
      → cache.get_by_key k (cache.update a s) ≡ cache.get_by_key k s
  pub get_deleted :
      (i : IngressObject) (s : cache.State) → cache.get_by_key (key i) (cache.delete i s) ≡ none
  pub get_deleted_other :
      (k : Text) (i : IngressObject) (s : cache.State)
      → k ≢ key i
      → cache.get_by_key k (cache.delete i s) ≡ cache.get_by_key k s
  -- The key is made of the namespace and the name.
  pub key_named :
      (i j : IngressObject) → i.namespace ≡ j.namespace → i.name ≡ j.name → key i ≡ key j

-- The ingresses of the informer, by key.
abbrev pub World : Type 0
World = Text → Option IngressObject

abbrev pub put : Text → Option IngressObject → World → World
put k v w j = if j == k then v else w j

pub data Change : Type 0 where
  adds : Object → Change
  updates : (same : Bool) (old cur : Object) → Change
  deletes : Object → Change

module _ (cache : Cache) (ingress_class : Text) where
  -- The handler that the informer calls.
  unfoldable pub handle : Change → Store cache ingress_class → Run (Store cache ingress_class)
  handle (adds obj) s = on_add cache ingress_class obj s
  handle (updates same old cur) s = on_update cache ingress_class same old cur s
  handle (deletes obj) s = on_delete cache ingress_class obj s

module _ (cache : Cache) (ingress_class : Text) (key : IngressObject → Text) where
  -- The calls that an informer makes, with the effect on its ingresses. A deleted object can come as
  -- a tombstone, of the networking group.
  pub data IsChange : World → Change → World → Type 0 where
    is_add :
        (w : World) (obj : Object) (i : IngressObject)
        → to_ingress obj ≡ some i
        → w (key i) ≡ none
        → IsChange w (adds obj) (put (key i) (some i) w)
    is_update :
        (w : World) (same : Bool) (old cur : Object) (i j : IngressObject)
        → to_ingress old ≡ some i
        → to_ingress cur ≡ some j
        → key i ≡ key j
        → w (key j) ≡ some i
        → (same ≡ true → i ≡ j)
        → IsChange w (updates same old cur) (put (key j) (some j) w)
    is_delete :
        (w : World) (obj : Object) (i : IngressObject)
        → (to_ingress obj ≡ some i) ⊎ (obj ≡ tombstone (networking i))
        → w (key i) ≡ some i
        → IsChange w (deletes obj) (put (key i) none w)

  abbrev pub mirrored : Option IngressObject → Option AnnotatedIngress
  mirrored none = none
  mirrored (some i) = if has_class ingress_class i then some (annotated i) else none

  -- The cache has exactly the ingresses of an accepted class, with their annotations parsed.
  abbrev pub Mirrors : World → Store cache ingress_class → Type 0
  Mirrors w s = (k : Text) → cache.get_by_key k s.ingresses ≡ mirrored (w k)

  module _ (laws : IsCache cache key) where
    annotated-key : (i : IngressObject) → key (annotated i).ingress ≡ key i
    unfolding annotated
    annotated-key i = laws.key_named (annotated i).ingress i refl refl

    pub update_mirrors :
        (w : World) (s : Store cache ingress_class) (i : IngressObject) (x : cache.State)
        → has_class ingress_class i ≡ true
        → Mirrors w s
        → x ≡ cache.update (annotated i) s.ingresses
        → (k : Text) → cache.get_by_key k x ≡ mirrored (put (key i) (some i) w k)
    update_mirrors w s i x valid m e k = elim (Bool-cases (k == key i)) [
      | inl same ↦
          let at_key : k ≡ key (annotated i).ingress =
            (==_iff k (key i)).0 same ∙ sym (annotated-key i) in
          rw (e, same, valid)
            (ap (λ (j : Text). cache.get_by_key j (cache.update (annotated i) s.ingresses)) at_key
              ∙ laws.get_updated (annotated i) s.ingresses)
      | inr other ↦
          rw (e, other)
            (laws.get_updated_other k (annotated i) s.ingresses
                (λ at. cc (other, (==_iff k (key i)).1 (at ∙ annotated-key i)))
              ∙ m k)
    ]

    pub delete_mirrors :
        (w : World) (s : Store cache ingress_class) (i : IngressObject) (x : cache.State)
        → Mirrors w s
        → x ≡ cache.delete i s.ingresses
        → (k : Text) → cache.get_by_key k x ≡ mirrored (put (key i) none w k)
    delete_mirrors w s i x m e k = elim (Bool-cases (k == key i)) [
      | inl same ↦
          rw (e, same)
            (ap (λ (j : Text). cache.get_by_key j (cache.delete i s.ingresses))
                ((==_iff k (key i)).0 same)
              ∙ laws.get_deleted i s.ingresses)
      | inr other ↦
          rw (e, other)
            (laws.get_deleted_other k i s.ingresses (λ at. cc (other, (==_iff k (key i)).1 at))
              ∙ m k)
    ]

    -- An object of another class, or that was there already.
    pub keep_mirrors :
        (w : World) (s : Store cache ingress_class) (k' : Text) (v : Option IngressObject)
        → mirrored v ≡ mirrored (w k')
        → Mirrors w s
        → Mirrors (put k' v w) s
    keep_mirrors w s k' v e m k = elim (Bool-cases (k == k')) [
      | inl same ↦ rw same (
          subst (λ (j : Text). cache.get_by_key j s.ingresses ≡ mirrored v)
            (sym ((==_iff k k').0 same)) (m k' ∙ sym e))
      | inr other ↦ rw other (m k)
    ]
